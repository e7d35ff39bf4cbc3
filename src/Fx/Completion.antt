-- ===== src/Fx/Completion.antt =====
-- What a sweep leaves to do: app/services/fx/recompute.py.
pub mod Filling
use mathlib.Core.Option.{some-injective}
use voice_spend.Prelude.{
  ℕ, zero, suc, ◌≤◌, String, ◌≡◌, refl, ap, subst, ◌∙◌, ◌⊎◌, inl, inr, Bool, true, not, ◌&&◌, ltb,
  select, Option, none, some, List, [], ◌∷◌, Result, ok, Result-cases, arith, ◌==◌, Bool-cases,
  Option-cases, length, take, is_some, All,
}
use voice_spend.Prelude.Int.{ℤ}
use voice_spend.Decimal.{Decimal, ArithmeticError, finite, to_numeric}
use voice_spend.Models.{Uuid, Instant, User, Expense, ExpenseTable, FxRate, Db, date_of}
use voice_spend.Sync.Upsert.{find_row}
use voice_spend.Sync.Upsert.Rows.{find_row-put_row, find_row-id}
use voice_spend.Fx.Sweep.{kept_row, recompute_amount_base-kept}
use voice_spend.Fx.Convert.{convert}
use voice_spend.Fx.Recompute.{
  Pending, user_with, is_pending, insert_by_age, pending, rebased, set_amount_base, recompute_row,
  recompute_rows, RecomputeResult, batch_size, recompute_amount_base,
}
use voice_spend.Fx.Completion.Filling.{HasBase, IsDone, recompute_amount_base-pending}

-- Whether a row has no base amount and is not deleted, and is the user's where one is given.
abbrev pub unfilled : Option Uuid → Expense → Bool
unfilled none e = not (is_some e.amount_base) && not (is_some e.deleted_at)
unfilled (some id) e = not (is_some e.amount_base) && not (is_some e.deleted_at) && e.user_id == id

is_pending-unfilled :
    (user_id : Option Uuid) (e : Expense) → is_pending user_id e ≡ unfilled user_id e
unfolding is_pending
is_pending-unfilled none e = refl
is_pending-unfilled (some id) e = refl

abbrev pending_of : Expense → User → Pending
pending_of e u = record {
  id = e.id;
  amount_original = e.amount_original;
  currency_original = e.currency_original;
  spent_at = e.spent_at;
  created_at = e.created_at;
  base_currency = u.base_currency;
}

length-insert_by_age :
    (p : Pending) (qs : List Pending) → length (insert_by_age p qs) ≡ suc (length qs)
unfolding insert_by_age
length-insert_by_age p [] = refl
length-insert_by_age p (q ∷ qs) = ground (arith, length-insert_by_age p qs)

length-pending :
    (user_id : Option Uuid) (users : List User) (rows : List Expense)
    → length (pending user_id users rows) ≤ length (select (unfilled user_id) rows)
unfolding pending
length-pending user_id users [] = omega arith
length-pending user_id users (e ∷ es) =
    let rest = length-pending user_id users es in
    let same = is_pending-unfilled user_id e in
    elim (Option-cases (user_with e.user_id users)) [
      | inl missing ↦ rw (missing, pending, length) (ground (arith, rest))
      | inr (u, found) ↦
          rw (found, pending, length)
            (ground
              (arith, rest, same, length-insert_by_age (pending_of e u) (pending user_id users es)))
    ]

module _ (Q : Pending → Type 0) where
  All-insert_by_age :
      (p : Pending) (qs : List Pending) → All Q (insert_by_age p qs) → Q p × All Q qs
  unfolding insert_by_age
  All-insert_by_age p [] h = h
  All-insert_by_age p (q ∷ qs) h = elim (Bool-cases (ltb q.created_at p.created_at)) [
    | inl older ↦
        let h' = rw (older, insert_by_age) at h in
        let (own, rest) = All-insert_by_age p qs h'.1 in (own, (h'.0, rest))
    | inr newer ↦ rw (newer, insert_by_age) at h
  ]

  All-pending_rest :
      (user_id : Option Uuid) (users : List User) (x : Expense) (xs : List Expense)
      → All Q (pending user_id users (x ∷ xs))
      → All Q (pending user_id users xs)
  unfolding pending
  All-pending_rest user_id users x xs h = elim (Option-cases (user_with x.user_id users)) [
    | inl missing ↦ rw (missing, pending) at h
    | inr (u, found) ↦ elim (Bool-cases (is_pending user_id x)) [
      | inl hit ↦
          (All-insert_by_age (pending_of x u) (pending user_id users xs)
            (rw (found, hit, pending) at h)).1
      | inr miss ↦ rw (found, miss, pending) at h
    ]
  ]

  -- What holds of all rows of the query holds of the row of an unfilled expense and its user.
  All-pending :
      (user_id : Option Uuid) (users : List User) (rows : List Expense) (j : Uuid) (e : Expense)
      (u : User)
      → find_row j rows ≡ some e
      → unfilled user_id e ≡ true
      → user_with e.user_id users ≡ some u
      → All Q (pending user_id users rows)
      → Q (pending_of e u)
  unfolding pending find_row
  All-pending user_id users [] j e u stored open_row owner h = cc stored
  All-pending user_id users (x ∷ xs) j e u stored open_row owner h = elim (Bool-cases (x.id == j)) [
    | inl same ↦
        let here : x ≡ e = some-injective _ _ (rw (same, find_row) at stored) in
        let hit : is_pending user_id x ≡ true =
          is_pending-unfilled user_id x ∙ ap (unfilled user_id) here ∙ open_row in
        let found : user_with x.user_id users ≡ some u =
          ap (λ (y : Expense). user_with y.user_id users) here ∙ owner in
        subst (λ (y : Expense). Q (pending_of y u)) here
          (All-insert_by_age (pending_of x u) (pending user_id users xs)
            (rw (found, hit, pending) at h)).0
    | inr other ↦
        All-pending user_id users xs j e u (rw (other, find_row) at stored) open_row owner
          (All-pending_rest user_id users x xs h)
  ]

-- A row that is stored and has a base amount.
abbrev pub IsFilled : Option Expense → Type 0
IsFilled none = ⊥
IsFilled (some e) = is_some e.amount_base ≡ true

HasBase-IsFilled :
    (before after : Option Expense) (e : Expense)
    → kept_row after ≡ kept_row before
    → before ≡ some e
    → HasBase after
    → IsFilled after
unfolding kept_row
HasBase-IsFilled before none e kept stored has = absurd (let k = kept ∙ ap kept_row stored in cc k)
HasBase-IsFilled before (some x) e kept stored has = has

-- A sweep that succeeds, with a batch for as many rows as have no base amount and are not deleted, of
-- the given user or of all, leaves nothing of theirs that it could fill: where such a row and its
-- user are stored, the row under its id then has a base amount, or the conversion of its amount from
-- its currency to the user's base currency on its day has no value. No row that had a base amount
-- has lost it.
pub recompute_amount_base-IsDone :
    (default : ℕ) (now : Instant) (user_id : Option Uuid) (limit : Option ℕ) (db after : Db)
    (result : RecomputeResult)
    → length (select (unfilled user_id) db.expenses.rows) ≤ batch_size default limit
    → recompute_amount_base default now user_id limit db ≡ ok (result, after)
    → ((j : Uuid) (e : Expense) (u : User)
        → find_row j db.expenses.rows ≡ some e
        → unfilled user_id e ≡ true
        → user_with e.user_id db.users ≡ some u
        → IsFilled (find_row j after.expenses.rows)
          ⊎ (convert db.fx_rates
                (finite e.amount_original 4)
                e.currency_original
                u.base_currency
                (date_of e.spent_at)
              ≡ ok none))
      × ((j : Uuid)
          → IsFilled (find_row j db.expenses.rows)
          → IsFilled (find_row j after.expenses.rows))
recompute_amount_base-IsDone default now user_id limit db after result room h =
    let few = length-pending user_id db.users db.expenses.rows in
    let (done, keeps) =
      recompute_amount_base-pending default now user_id limit db after result (omega arith) h in
    let (sized, counted, kept) =
      recompute_amount_base-kept default now user_id limit db after result h in
    (
      λ j e u stored open_row owner.
          elim (All-pending (IsDone now db.fx_rates after.expenses) user_id db.users
            db.expenses.rows j e u stored open_row owner done) [
              | inl has ↦ inl (
                  HasBase-IsFilled (find_row j db.expenses.rows) (find_row j after.expenses.rows) e
                    (kept j) stored
                    (subst (λ k. HasBase (find_row k after.expenses.rows))
                      (find_row-id j db.expenses.rows e stored) has))
              | inr missing ↦ inr missing
            ],
      λ j filled. elim (Option-cases (find_row j db.expenses.rows)) [
        | inl absent ↦ absurd (subst IsFilled absent filled)
        | inr (e, stored) ↦
            HasBase-IsFilled (find_row j db.expenses.rows) (find_row j after.expenses.rows) e
              (kept j) stored (keeps j (rw stored (subst IsFilled stored filled)))
      ],
    )
