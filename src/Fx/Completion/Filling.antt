-- ===== src/Fx/Completion/Filling.antt =====
-- What a sweep makes of the rows of its query: app/services/fx/recompute.py.
use voice_spend.Prelude.{
  ℕ, zero, suc, ◌≤◌, String, ◌≡◌, refl, ap, subst, ◌∙◌, ◌⊎◌, inl, inr, Bool, true, Option, none,
  some, List, [], ◌∷◌, Result, ok, Result-cases, arith, ◌==◌, Bool-cases, Option-cases, length,
  take, is_some, All,
}
use voice_spend.Prelude.Int.{ℤ}
use voice_spend.Decimal.{Decimal, ArithmeticError, finite, to_numeric}
use voice_spend.Models.{Uuid, Instant, Expense, ExpenseTable, FxRate, Db, date_of}
use voice_spend.Sync.Upsert.{find_row}
use voice_spend.Sync.Upsert.Rows.{find_row-put_row, find_row-id}
use voice_spend.Fx.Convert.{convert}
use voice_spend.Fx.Recompute.{
  Pending, pending, rebased, set_amount_base, recompute_row, recompute_rows, RecomputeResult,
  batch_size, recompute_amount_base,
}

take_all : {A : Type 0} (n : ℕ) (xs : List A) → length xs ≤ n → take n xs ≡ xs
take_all zero [] le = refl
take_all zero (x ∷ xs) le = absurd (omega arith)
take_all (suc n) [] le = refl
take_all (suc n) (x ∷ xs) le = ap (λ ys. x ∷ ys) (take_all n xs (omega arith))

-- The row has a base amount, if it is stored.
abbrev pub HasBase : Option Expense → Type 0
HasBase none = Unit
HasBase (some e) = is_some e.amount_base ≡ true

-- The row under an id after a write of a base amount.
find_row-set_amount_base :
    (now : Instant) (id : Uuid) (amount : ℤ) (currency : String) (t : ExpenseTable) (j : Uuid)
    → HasBase (find_row j t.rows) ⊎ (id ≡ j)
    → HasBase (find_row j (set_amount_base now id amount currency t).rows)
unfolding set_amount_base rebased
find_row-set_amount_base now id amount currency t j h = elim (Option-cases (find_row id t.rows)) [
  | inl missing ↦ elim h [
    | inl has ↦ rw (set_amount_base, missing) has
    | inr same ↦
        rw (set_amount_base, missing)
          (subst (λ k. HasBase (find_row k t.rows)) same (rw (missing) tt))
  ]
  | inr (e, found) ↦
      let same = find_row-id id t.rows e found in
      rw
        (
          set_amount_base,
          found,
          find_row-put_row j (rebased now (some amount) (some currency) t.next_seq e) t.rows,
        )
        (elim (Bool-cases (e.id == j)) [
          | inl here ↦ rw (here) refl
          | inr there ↦ rw (there) (elim h [ inl has ↦ has | inr own ↦ absurd (ground arith) ])
        ])
]

module _ (now : Instant) (rates : List FxRate) where
  abbrev pub conversion : Pending → Result ArithmeticError (Option Decimal)
  conversion p =
      convert rates (finite p.amount_original 4) p.currency_original p.base_currency
        (date_of p.spent_at)

  -- A pending row has been filled, or has no conversion.
  abbrev pub IsDone : ExpenseTable → Pending → Type 0
  IsDone t p = HasBase (find_row p.id t.rows) ⊎ (conversion p ≡ ok none)

  recompute_row-HasBase :
      (p : Pending) (t after : ExpenseTable) (filled : Bool)
      → recompute_row now rates p t ≡ ok (filled, after)
      → IsDone after p
        × ((j : Uuid) → HasBase (find_row j t.rows) → HasBase (find_row j after.rows))
  unfolding recompute_row
  recompute_row-HasBase p t after filled h = elim (Result-cases (conversion p)) [
    | inl (e, raised) ↦ absurd (ground arith)
    | inr (found, answered) ↦ elim (Option-cases found) [
      | inl missing ↦
          let same : t ≡ after = ground arith in
          (
            inr (answered ∙ ap ok missing),
            λ j has. subst (λ (x : ExpenseTable). HasBase (find_row j x.rows)) same has,
          )
      | inr (amount, known) ↦ elim (Option-cases (to_numeric 18 4 amount)) [
        | inl over ↦ absurd (ground arith)
        | inr (units, fits) ↦
            let same : set_amount_base now p.id units p.base_currency t ≡ after = ground arith in
            let written = find_row-set_amount_base now p.id units p.base_currency t in
            (
              inl (
                  subst (λ (x : ExpenseTable). HasBase (find_row p.id x.rows)) same
                    (written p.id (inr refl))),
              λ j has.
                  subst (λ (x : ExpenseTable). HasBase (find_row j x.rows)) same
                    (written j (inl has)),
            )
      ]
    ]
  ]

  IsDone-later :
      (t after : ExpenseTable) (p : Pending)
      → ((j : Uuid) → HasBase (find_row j t.rows) → HasBase (find_row j after.rows))
      → IsDone t p
      → IsDone after p
  IsDone-later t after p keeps (inl has) = inl (keeps p.id has)
  IsDone-later t after p keeps (inr missing) = inr missing

  recompute_rows-IsDone :
      (ps : List Pending) (t after : ExpenseTable) (n : ℕ)
      → recompute_rows now rates ps t ≡ ok (n, after)
      → All (IsDone after) ps
        × ((j : Uuid) → HasBase (find_row j t.rows) → HasBase (find_row j after.rows))
  unfolding recompute_rows
  recompute_rows-IsDone [] t after n h =
      let same : t ≡ after = cc in
      (tt, λ j has. subst (λ (x : ExpenseTable). HasBase (find_row j x.rows)) same has)
  recompute_rows-IsDone (p ∷ ps) t after n h = elim (Result-cases (recompute_row now rates p t)) [
    | inl (e, raised) ↦ absurd (ground arith)
    | inr ((filled, t₁), first) ↦ elim (Result-cases (recompute_rows now rates ps t₁)) [
      | inl (e, raised) ↦ absurd (ground arith)
      | inr ((m, t₂), rest) ↦
          let same : t₂ ≡ after = ground arith in
          let (done, keeps) = recompute_row-HasBase p t t₁ filled first in
          let (all, later) = recompute_rows-IsDone ps t₁ t₂ m rest in
          subst
            (λ (x : ExpenseTable).
              (IsDone x p × All (IsDone x) ps)
              × ((j : Uuid) → HasBase (find_row j t.rows) → HasBase (find_row j x.rows)))
            same ((IsDone-later t₁ t₂ p later done, all), λ j has. later j (keeps j has))
    ]
  ]

-- The sweep's own rows, in the words of the query.
pub recompute_amount_base-pending :
    (default : ℕ) (now : Instant) (user_id : Option Uuid) (limit : Option ℕ) (db after : Db)
    (result : RecomputeResult)
    → length (pending user_id db.users db.expenses.rows) ≤ batch_size default limit
    → recompute_amount_base default now user_id limit db ≡ ok (result, after)
    → All (IsDone now db.fx_rates after.expenses) (pending user_id db.users db.expenses.rows)
      × ((j : Uuid)
          → HasBase (find_row j db.expenses.rows)
          → HasBase (find_row j after.expenses.rows))
unfolding recompute_amount_base
recompute_amount_base-pending default now user_id limit db after result room h =
    let all = pending user_id db.users db.expenses.rows in
    let rows = take (batch_size default limit) all in
    let whole = take_all (batch_size default limit) all room in
    elim (Result-cases (recompute_rows now db.fx_rates rows db.expenses)) [
      | inl (e, raised) ↦ absurd (ground arith)
      | inr ((n, t), done) ↦
          let same : t ≡ after.expenses = ground arith in
          let (filled, keeps) = recompute_rows-IsDone now db.fx_rates rows db.expenses t n done in
          subst
            (λ (x : ExpenseTable).
              All (IsDone now db.fx_rates x) all
              × ((j : Uuid) → HasBase (find_row j db.expenses.rows) → HasBase (find_row j x.rows)))
            same (subst (λ ps. All (IsDone now db.fx_rates t) ps) whole filled, keeps)
    ]
