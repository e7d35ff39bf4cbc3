-- ===== src/Fx/Sweep.antt =====
-- What the sweep changes, and its counts: app/services/fx/recompute.py.
use voice_spend.Prelude.{
  ℕ, ◌+◌, ◌≤◌, String, ◌≡◌, refl, ap, sym, subst, ◌∙◌, inl, inr, Bool, Option, none, some, List, [],
  ◌∷◌, ok, Result-cases, arith, ◌==◌, ==_iff, Bool-cases, Option-cases, length, take, length-take,
}
use voice_spend.Prelude.Int.{ℤ}
use voice_spend.Decimal.{finite, to_numeric}
use voice_spend.Models.{Uuid, Instant, Expense, ExpenseTable, FxRate, Db, date_of}
use voice_spend.Sync.Upsert.{find_row}
use voice_spend.Sync.Upsert.Rows.{find_row-put_row}
use voice_spend.Fx.Convert.{convert}
use voice_spend.Fx.Recompute.{
  Pending, pending, rebased, set_amount_base, recompute_row, recompute_rows, RecomputeResult,
  batch_size, recompute_amount_base,
}

-- A row without the base amount, its currency, and the two columns that any write renews.
unfoldable pub kept : Expense → Expense
kept e = record e { amount_base = none; currency_base = none; server_seq = 0; updated_at = 0 }

unfoldable pub kept_row : Option Expense → Option Expense
kept_row none = none
kept_row (some e) = some (kept e)

pub find_row-id :
    (id : Uuid) (rows : List Expense) (e : Expense) → find_row id rows ≡ some e → e.id ≡ id
unfolding find_row
find_row-id id [] e h = cc
find_row-id id (x ∷ xs) e h = ground (arith, find_row-id id xs e)

set_amount_base-kept :
    (now : Instant) (id : Uuid) (amount : ℤ) (currency : String) (t : ExpenseTable) (j : Uuid)
    → kept_row (find_row j (set_amount_base now id amount currency t).rows)
      ≡ kept_row (find_row j t.rows)
unfolding set_amount_base rebased kept_row kept
set_amount_base-kept now id amount currency t j = elim (Option-cases (find_row id t.rows)) [
  | inl missing ↦ rw (set_amount_base, missing) refl
  | inr (e, found) ↦
      let same = find_row-id id t.rows e found in
      let looked =
        find_row-put_row j (rebased now (some amount) (some currency) t.next_seq e) t.rows in
      rw (set_amount_base, found, looked)
        elim (Bool-cases (e.id == j)) [
          | inl here ↦
              let same_key = ap (λ k. find_row k t.rows) (sym same ∙ (==_iff e.id j).0 here) in
              rw (here) (ap kept_row (sym found ∙ same_key))
          | inr there ↦ rw (there) refl
        ]
]

pub recompute_row-kept :
    (now : Instant) (rates : List FxRate) (p : Pending) (t after : ExpenseTable) (filled : Bool)
    → recompute_row now rates p t ≡ ok (filled, after)
    → (j : Uuid) → kept_row (find_row j after.rows) ≡ kept_row (find_row j t.rows)
unfolding recompute_row
recompute_row-kept now rates p t after filled h j =
    let answer =
      convert rates (finite p.amount_original 4) p.currency_original p.base_currency
        (date_of p.spent_at) in
    elim (Result-cases answer) [
      | inl (e, raised) ↦ absurd (ground arith)
      | inr (found, answered) ↦ elim (Option-cases found) [
        | inl missing ↦
            let same : t ≡ after = ground arith in
            subst (λ x. kept_row (find_row j x.rows) ≡ kept_row (find_row j t.rows)) same refl
        | inr (amount, known) ↦ elim (Option-cases (to_numeric 18 4 amount)) [
          | inl over ↦ absurd (ground arith)
          | inr (units, fits) ↦
              let same : set_amount_base now p.id units p.base_currency t ≡ after = ground arith in
              subst (λ x. kept_row (find_row j x.rows) ≡ kept_row (find_row j t.rows)) same
                (set_amount_base-kept now p.id units p.base_currency t j)
        ]
      ]
    ]

recompute_rows-kept :
    (now : Instant) (rates : List FxRate) (ps : List Pending) (t after : ExpenseTable) (n : ℕ)
    → recompute_rows now rates ps t ≡ ok (n, after)
    → (n ≤ length ps)
      × ((j : Uuid) → kept_row (find_row j after.rows) ≡ kept_row (find_row j t.rows))
unfolding recompute_rows
recompute_rows-kept now rates [] t after n h =
    let same : t ≡ after = cc in
    (ground arith, λ j. ap (λ x. kept_row (find_row j x.rows)) (sym same))
recompute_rows-kept now rates (p ∷ ps) t after n h =
    elim (Result-cases (recompute_row now rates p t)) [
      | inl (e, raised) ↦ absurd (ground arith)
      | inr ((filled, t₁), first) ↦ elim (Result-cases (recompute_rows now rates ps t₁)) [
        | inl (e, raised) ↦ absurd (ground arith)
        | inr ((m, t₂), rest) ↦
            let same : t₂ ≡ after = ground arith in
            let (bound, keeps) = recompute_rows-kept now rates ps t₁ t₂ m rest in
            (
              ground arith,
              λ j.
                  ap (λ x. kept_row (find_row j x.rows)) (sym same)
                  ∙ keeps j
                  ∙ recompute_row-kept now rates p t t₁ filled first j,
            )
      ]
    ]

-- A sweep that succeeds looks at no more rows than its batch size, counts every row that it
-- looked at as filled or as still missing, and leaves every expense as it was in all columns but
-- the base amount, its currency, the sequence number and the time of the last write.
pub recompute_amount_base-kept :
    (default : ℕ) (now : Instant) (user_id : Option Uuid) (limit : Option ℕ) (db after : Db)
    (result : RecomputeResult)
    → recompute_amount_base default now user_id limit db ≡ ok (result, after)
    → (result.scanned ≤ batch_size default limit)
      × (result.recomputed + result.still_missing ≡ result.scanned)
      × ((j : Uuid)
          → kept_row (find_row j after.expenses.rows) ≡ kept_row (find_row j db.expenses.rows))
unfolding recompute_amount_base
recompute_amount_base-kept default now user_id limit db after result h =
    let rows = take (batch_size default limit) (pending user_id db.users db.expenses.rows) in
    elim (Result-cases (recompute_rows now db.fx_rates rows db.expenses)) [
      | inl (e, raised) ↦ absurd (ground arith)
      | inr ((n, t), done) ↦
          let (bound, keeps) = recompute_rows-kept now db.fx_rates rows db.expenses t n done in
          let size =
            length-take (batch_size default limit) (pending user_id db.users db.expenses.rows) in
          let expenses : t ≡ after.expenses = ground arith in
          (
            ground (arith, size),
            ground arith,
            λ j. ap (λ x. kept_row (find_row j x.rows)) (sym expenses) ∙ keeps j,
          )
    ]
