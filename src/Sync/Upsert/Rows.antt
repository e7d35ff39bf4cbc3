-- ===== src/Sync/Upsert/Rows.antt =====
-- Looking a row up after a write (`find_row` and `put_row` of Sync/Upsert), and what the statement
-- makes of one proposed row.
use voice_spend.Prelude.{
  ℕ, ◌+◌, ◌≡◌, refl, Option, none, some, List, [], ◌∷◌, arith, ltb, ◌==◌, if◌then◌else◌, length,
}
use voice_spend.Models.{Uuid, Instant, Expense, ExpenseTable}
use voice_spend.Sync.Upsert.{
  Proposed, inserted_row, updated_row, find_row, put_row, upsert_found, upsert_row,
}

pub find_row-id :
    (j : Uuid) (rows : List Expense) (e : Expense) → find_row j rows ≡ some e → e.id ≡ j
unfolding find_row
find_row-id j [] e h = cc
find_row-id j (x ∷ xs) e h = ground (arith, find_row-id j xs e)

pub find_row-put_row :
    (j : Uuid) (e : Expense) (rows : List Expense)
    → find_row j (put_row e rows) ≡ (if e.id == j then some e else find_row j rows)
unfolding find_row put_row
find_row-put_row j e [] = refl
find_row-put_row j e (x ∷ xs) = ground (arith, find_row-put_row j e xs)

-- The row that is stored under the id of a proposed row once the statement is past it.
unfoldable pub settled : Instant → Uuid → ℕ → Proposed → Option Expense → Expense
settled now user_id seq r none = inserted_row now user_id seq r
settled now user_id seq r (some old) =
    if ltb old.client_rev r.client_rev then updated_row (seq + 1) old r else old

pub inserted_row-id :
    (now : Instant) (u : Uuid) (seq : ℕ) (r : Proposed) → (inserted_row now u seq r).id ≡ r.id
unfolding inserted_row
inserted_row-id now u seq r = refl

pub updated_row-id :
    (now : Instant) (seq : ℕ) (old : Expense) (r : Proposed) → (updated_row seq old r).id ≡ old.id
unfolding updated_row
updated_row-id now seq old r = refl

find_row-upsert_found :
    (now : Instant) (u : Uuid) (r : Proposed) (t : ExpenseTable) (j : Uuid) (o : Option Expense)
    → find_row r.id t.rows ≡ o
    → find_row j (upsert_found now u r t o).0.rows
      ≡ (if r.id == j then some (settled now u t.next_seq r o) else find_row j t.rows)
unfolding upsert_found settled
find_row-upsert_found now u r t j none h = ground (
  arith,
  find_row-put_row j (inserted_row now u t.next_seq r) t.rows,
  inserted_row-id now u t.next_seq r,
)
find_row-upsert_found now u r t j (some old) h = ground (
  arith,
  find_row-put_row j (updated_row (t.next_seq + 1) old r) t.rows,
  updated_row-id now (t.next_seq + 1) old r,
  find_row-id r.id t.rows old h,
)

-- Every lookup after the statement has passed one proposed row.
pub find_row-upsert_row :
    (now : Instant) (u : Uuid) (r : Proposed) (t : ExpenseTable) (j : Uuid)
    → find_row j (upsert_row now u r t).0.rows ≡ (
        if r.id == j
        then some (settled now u t.next_seq r (find_row r.id t.rows))
        else find_row j t.rows)
unfolding upsert_row
find_row-upsert_row now u r t j = find_row-upsert_found now u r t j (find_row r.id t.rows) refl

pub length-put_row :
    (e : Expense) (rows : List Expense)
    → length (put_row e rows)
      ≡ elim (find_row e.id rows) [ none ↦ length rows + 1 | some _ ↦ length rows ]
unfolding find_row put_row
length-put_row e [] = omega arith
length-put_row e (x ∷ xs) = ground (arith, length-put_row e xs)
