-- ===== src/Sync/Pull/Order.antt =====
-- The rows that a pull reads (`rows_after` of Sync/Pull): exactly the user's rows past the cursor, in
-- ascending order of server_seq.
use voice_spend.Prelude.{
  ℕ, ◌<◌, ◌≡◌, refl, inl, inr, false, ◌&&◌, Option, none, some, List, [], ◌∷◌, arith, ltb, ◌==◌,
  if◌then◌else◌, Bool-cases, elem, Distinct,
}
use voice_spend.Models.{Uuid, Expense}
use voice_spend.Sync.Upsert.{find_row}
use voice_spend.Sync.Upsert.Sequence.{row_ids, row_seqs}
use voice_spend.Sync.Pull.{insert_by_seq, rows_after}

-- Ascending numbers, all past the cursor.
abbrev pub IsAscending : ℕ → List Expense → Type 0
IsAscending since [] = Unit
IsAscending since (e ∷ es) = (since < e.server_seq) × IsAscending e.server_seq es

insert_by_seq-IsAscending :
    (e : Expense) (xs : List Expense) (since : ℕ)
    → since < e.server_seq
    → elem e.server_seq (row_seqs xs) ≡ false
    → IsAscending since xs
    → IsAscending since (insert_by_seq e xs)
unfolding insert_by_seq
insert_by_seq-IsAscending e [] since lt n h = (lt, tt)
insert_by_seq-IsAscending e (x ∷ xs) since lt n h =
    elim (Bool-cases (ltb e.server_seq x.server_seq)) [
      | inl before ↦ rw before (lt, (ground arith, h.1))
      | inr after ↦
          rw after
            (h.0, insert_by_seq-IsAscending e xs x.server_seq (ground arith) (ground arith) h.1)
    ]

elem-insert_by_seq :
    (e : Expense) (xs : List Expense) (s : ℕ)
    → elem s (row_seqs (insert_by_seq e xs)) ≡ elem s (row_seqs (e ∷ xs))
unfolding insert_by_seq
elem-insert_by_seq e [] s = refl
elem-insert_by_seq e (x ∷ xs) s = ground (arith, elem-insert_by_seq e xs s)

elem-rows_after :
    (u : Uuid) (since : ℕ) (rows : List Expense) (s : ℕ)
    → elem s (row_seqs rows) ≡ false
    → elem s (row_seqs (rows_after u since rows)) ≡ false
unfolding rows_after
elem-rows_after u since [] s h = refl
elem-rows_after u since (e ∷ es) s h =
    ground (arith, elem-rows_after u since es s, elem-insert_by_seq e (rows_after u since es) s)

-- Where no two rows share a number, the rows that are read ascend strictly.
pub rows_after-IsAscending :
    (u : Uuid) (since : ℕ) (rows : List Expense)
    → Distinct (row_seqs rows)
    → IsAscending since (rows_after u since rows)
unfolding rows_after
rows_after-IsAscending u since [] d = tt
rows_after-IsAscending u since (e ∷ es) d =
    elim (Bool-cases (e.user_id == u && ltb since e.server_seq)) [
      | inr skipped ↦ rw skipped (rows_after-IsAscending u since es d.1)
      | inl read ↦ rw read (
          insert_by_seq-IsAscending e (rows_after u since es) since (ground arith)
            (elem-rows_after u since es e.server_seq d.0) (rows_after-IsAscending u since es d.1))
    ]

find_row-insert_by_seq :
    (e : Expense) (xs : List Expense) (j : Uuid)
    → find_row e.id xs ≡ none
    → find_row j (insert_by_seq e xs) ≡ (if e.id == j then some e else find_row j xs)
unfolding insert_by_seq find_row
find_row-insert_by_seq e [] j n = refl
find_row-insert_by_seq e (x ∷ xs) j n = ground (arith, find_row-insert_by_seq e xs j)

-- Whether a pull reads a row.
abbrev pub kept : Uuid → ℕ → Option Expense → Option Expense
kept u since none = none
kept u since (some e) = if e.user_id == u && ltb since e.server_seq then some e else none

find_row-none :
    (rows : List Expense) (j : Uuid) → elem j (row_ids rows) ≡ false → find_row j rows ≡ none
unfolding find_row
find_row-none [] j h = refl
find_row-none (x ∷ xs) j h = ground (arith, find_row-none xs j)

-- Where ids differ, a pull reads under each id the row of that id, if it is the user's and past the
-- cursor, and nothing otherwise.
pub find_row-rows_after :
    (u : Uuid) (since : ℕ) (rows : List Expense) (j : Uuid)
    → Distinct (row_ids rows)
    → find_row j (rows_after u since rows) ≡ kept u since (find_row j rows)
unfolding rows_after find_row
find_row-rows_after u since [] j d = refl
find_row-rows_after u since (e ∷ es) j d =
    let rest = rows_after u since es in
    let absent = find_row-none es e.id d.0 in
    ground (
      arith,
      absent,
      find_row-rows_after u since es j d.1,
      find_row-rows_after u since es e.id d.1,
      find_row-insert_by_seq e rest j,
    )
