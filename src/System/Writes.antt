-- ===== src/System/Writes.antt =====
-- The writes of the push, the sweep and the reset, each as an advance of the table.
use voice_spend.Prelude.{
  ℕ, ◌+◌, String, ◌≡◌, refl, ap, sym, subst, ◌∙◌, inl, inr, Bool, Option, none, some, List, [], ◌∷◌,
  ok, Result-cases, arith, ltb, Bool-cases, Option-cases, take,
}
use voice_spend.Prelude.Int.{ℤ}
use voice_spend.Decimal.{finite, to_numeric}
use voice_spend.Models.{Uuid, Instant, Expense, ExpenseTable, FxRate, Db, date_of}
use voice_spend.Sync.Upsert.{
  Proposed, inserted_row, updated_row, find_row, upsert_found, upsert_row, upsert_rows, Returned,
  returned_ids,
}
use voice_spend.Sync.Upsert.Rows.{find_row-id}
use voice_spend.Sync.Upsert.Replay.{upsert_rows_cons, ok_pair}
use voice_spend.Fx.Convert.{convert}
use voice_spend.Fx.Recompute.{
  Pending, pending, rebased, set_amount_base, recompute_row, recompute_rows, RecomputeResult,
  batch_size, recompute_amount_base,
}
use voice_spend.System.Advance.{
  IsSuccessor, Advances, Advances-refl, Advances-trans, Advances-skip, Advances-put_row,
}

upsert_found-Advances :
    (now : Instant) (u : Uuid) (r : Proposed) (t : ExpenseTable) (o : Option Expense)
    → find_row r.id t.rows ≡ o
    → Advances t (upsert_found now u r t o).0
unfolding upsert_found inserted_row updated_row
upsert_found-Advances now u r t none absent =
    Advances-put_row t (inserted_row now u t.next_seq r) (t.next_seq + 1) (rw (absent) tt)
      (omega arith) (omega arith)
upsert_found-Advances now u r t (some old) found =
    elim (Bool-cases (ltb old.client_rev r.client_rev)) [
      | inl newer ↦
          let same = find_row-id r.id t.rows old found in
          rw (newer) (
            Advances-put_row t (updated_row (t.next_seq + 1) old r) (t.next_seq + 2)
              (subst (λ (o : Option Expense). IsSuccessor o (updated_row (t.next_seq + 1) old r))
                (sym found ∙ ap (λ k. find_row k t.rows) (sym same)) (refl, ground arith))
              (omega arith) (omega arith))
      | inr stale ↦ rw (stale) (Advances-skip t (t.next_seq + 1) (omega arith))
    ]

pub upsert_rows-Advances :
    (now : Instant) (u : Uuid) (w : List Uuid) (rs : List Proposed) (t t' : ExpenseTable)
    (outs : List Returned)
    → upsert_rows now u w rs t ≡ ok (t', outs)
    → Advances t t'
unfolding upsert_rows upsert_row
upsert_rows-Advances now u w [] t t' outs h =
    subst (λ (x : ExpenseTable). Advances t x) (ok_pair h).0 (Advances-refl t)
upsert_rows-Advances now u w (r ∷ rs) t t' outs h =
    let (t₁, out) = upsert_row now u r t in
    let (rest, e, _) = upsert_rows_cons now u w r rs t h in
    Advances-trans (upsert_found-Advances now u r t (find_row r.id t.rows) refl)
      (upsert_rows-Advances now u (returned_ids out w) rs t₁ t' rest e)

set_amount_base-Advances :
    (now : Instant) (id : Uuid) (amount : ℤ) (currency : String) (t : ExpenseTable)
    → Advances t (set_amount_base now id amount currency t)
unfolding set_amount_base rebased
set_amount_base-Advances now id amount currency t = elim (Option-cases (find_row id t.rows)) [
  | inl missing ↦ rw (set_amount_base, missing) (Advances-refl t)
  | inr (e, found) ↦
      let same = find_row-id id t.rows e found in
      let written = rebased now (some amount) (some currency) t.next_seq e in
      rw (set_amount_base, found)
        (Advances-put_row t written (t.next_seq + 1)
          (subst (λ (o : Option Expense). IsSuccessor o written)
            (sym found ∙ ap (λ k. find_row k t.rows) (sym same)) (refl, omega arith))
          (omega arith) (omega arith))
]

recompute_row-Advances :
    (now : Instant) (rates : List FxRate) (p : Pending) (t after : ExpenseTable) (filled : Bool)
    → recompute_row now rates p t ≡ ok (filled, after)
    → Advances t after
unfolding recompute_row
recompute_row-Advances now rates p t after filled h =
    let answer =
      convert rates (finite p.amount_original 4) p.currency_original p.base_currency
        (date_of p.spent_at) in
    elim (Result-cases answer) [
      | inl (e, raised) ↦ absurd (ground arith)
      | inr (found, answered) ↦ elim (Option-cases found) [
        | inl missing ↦
            let same : t ≡ after = ground arith in
            subst (λ (x : ExpenseTable). Advances t x) same (Advances-refl t)
        | inr (amount, known) ↦ elim (Option-cases (to_numeric 18 4 amount)) [
          | inl over ↦ absurd (ground arith)
          | inr (units, fits) ↦
              let same : set_amount_base now p.id units p.base_currency t ≡ after = ground arith in
              subst (λ (x : ExpenseTable). Advances t x) same
                (set_amount_base-Advances now p.id units p.base_currency t)
        ]
      ]
    ]

recompute_rows-Advances :
    (now : Instant) (rates : List FxRate) (ps : List Pending) (t after : ExpenseTable) (n : ℕ)
    → recompute_rows now rates ps t ≡ ok (n, after)
    → Advances t after
unfolding recompute_rows
recompute_rows-Advances now rates [] t after n h =
    let same : t ≡ after = cc in subst (λ (x : ExpenseTable). Advances t x) same (Advances-refl t)
recompute_rows-Advances now rates (p ∷ ps) t after n h =
    elim (Result-cases (recompute_row now rates p t)) [
      | inl (e, raised) ↦ absurd (ground arith)
      | inr ((filled, t₁), first) ↦ elim (Result-cases (recompute_rows now rates ps t₁)) [
        | inl (e, raised) ↦ absurd (ground arith)
        | inr ((m, t₂), rest) ↦
            let same : t₂ ≡ after = ground arith in
            subst (λ (x : ExpenseTable). Advances t x) same
              (Advances-trans (recompute_row-Advances now rates p t t₁ filled first)
                (recompute_rows-Advances now rates ps t₁ t₂ m rest))
      ]
    ]

pub recompute_amount_base-Advances :
    (default : ℕ) (now : Instant) (user_id : Option Uuid) (limit : Option ℕ) (db after : Db)
    (result : RecomputeResult)
    → recompute_amount_base default now user_id limit db ≡ ok (result, after)
    → Advances db.expenses after.expenses
unfolding recompute_amount_base
recompute_amount_base-Advances default now user_id limit db after result h =
    let rows = take (batch_size default limit) (pending user_id db.users db.expenses.rows) in
    elim (Result-cases (recompute_rows now db.fx_rates rows db.expenses)) [
      | inl (e, raised) ↦ absurd (ground arith)
      | inr ((n, t), done) ↦
          let same : t ≡ after.expenses = ground arith in
          subst (λ (x : ExpenseTable). Advances db.expenses x) same
            (recompute_rows-Advances now db.fx_rates rows db.expenses t n done)
    ]
