-- ===== src/Sync/Overlap.antt =====
-- Two transactions of push_sync (app/api/v1/sync.py) that overlap, and a pull between their commits. As
-- PostgreSQL documents it: a statement under READ COMMITTED reads the committed rows, `nextval` takes
-- its number at once and for good, and other transactions see what is written only after the commit.
-- The table is that of the committed rows.
use voice_spend.Prelude.{
  ℕ, ◌+◌, ◌≤◌, ◌≡◌, ◌≢◌, refl, ap, false, Option, none, some, List, [], ◌∷◌, arith, Distinct,
  ==_iff,
}
use voice_spend.Models.{Uuid, Instant, Expense, ExpenseTable}
use voice_spend.Sync.Upsert.{
  Proposed, inserted_row, find_row, put_row, Returned, upsert_found, upsert_row,
}
use voice_spend.Sync.Upsert.Rows.{find_row-put_row, inserted_row-id}
use voice_spend.Sync.Upsert.Sequence.{
  IsSequenced, put_row-Distinct_ids, row_ids, put_row-IsSequenced,
}
use voice_spend.Sync.Pull.{rows_after, page}
use voice_spend.Sync.Pull.Order.{find_row-rows_after}
use voice_spend.Sync.Pull.Pages.{page_exhausts}

abbrev row_under : Uuid → List Expense → List Expense
row_under id rows = elim (find_row id rows) [ none ↦ [] | some e ↦ e ∷ [] ]

abbrev written : Option Returned → Uuid → List Expense → List Expense
written none id rows = []
written (some out) id rows = row_under id rows

-- The statement of an open transaction: the rows that it writes, and the table with the sequence moved on.
unfoldable pub execute : Instant → Uuid → Proposed → ExpenseTable → List Expense × ExpenseTable
execute now user_id r t =
    let (after, out) = upsert_row now user_id r t in
    (written out r.id after.rows, record t { next_seq = after.next_seq })

unfoldable pub commit : List Expense → ExpenseTable → ExpenseTable
commit [] t = t
commit (e ∷ es) t = commit es (record t { rows = put_row e t.rows })

-- The table between the commits of two transactions, of which the first to run commits last, and the
-- table after both.
abbrev pub overlapped :
    Instant → Instant → Uuid → Proposed → Proposed → ExpenseTable → ExpenseTable × ExpenseTable
overlapped now now' user_id r r' t =
    let (first, t₁) = execute now user_id r t in
    let (second, t₂) = execute now' user_id r' t₁ in
    let between = commit second t₂ in (between, commit first between)

-- A record with a new id is written as one row under the next number.
execute-inserted :
    (now : Instant) (u : Uuid) (r : Proposed) (t : ExpenseTable)
    → find_row r.id t.rows ≡ none
    → execute now u r t
      ≡ (inserted_row now u t.next_seq r ∷ [], record t { next_seq = t.next_seq + 1 })
unfolding execute upsert_row upsert_found
execute-inserted now u r t absent = ground (
  arith,
  find_row-put_row r.id (inserted_row now u t.next_seq r) t.rows,
  inserted_row-id now u t.next_seq r,
  ==_iff r.id r.id,
)

-- Once a pull has left nothing of a table unread, its cursor has reached every number of the user's rows.
cursor-reaches :
    (u : Uuid) (since limit : ℕ) (t : ExpenseTable) (j : Uuid) (e : Expense)
    → IsSequenced t
    → find_row j t.rows ≡ some e
    → e.user_id ≡ u
    → (page u since limit t.rows).has_more ≡ false
    → e.server_seq ≤ (page u since limit t.rows).next_cursor
unfolding find_row
cursor-reaches u since limit t j e s stored own done =
    let cursor = (page u since limit t.rows).next_cursor in
    let (_, _, exhausted) = page_exhausts u since limit t.rows s.distinct_seqs in
    let nothing : find_row j (rows_after u cursor t.rows) ≡ none =
      ap (find_row j) (exhausted done) in
    ground (arith, nothing, find_row-rows_after u cursor t.rows j s.distinct_ids, stored)

-- A pull from the cursor on reads a row in no table of different ids that holds it as it is.
abbrev pub IsPassed : Uuid → ℕ → Expense → Type 0
IsPassed u cursor e =
    (rows : List Expense)
    → Distinct (row_ids rows)
    → find_row e.id rows ≡ some e
    → find_row e.id (rows_after u cursor rows) ≡ none

-- A row whose number the cursor has passed is not read from it, whatever else the table holds.
passed-missed :
    (u : Uuid) (cursor : ℕ) (e : Expense) (j : Uuid) (rows : List Expense)
    → e.server_seq ≤ cursor
    → Distinct (row_ids rows)
    → find_row j rows ≡ some e
    → find_row j (rows_after u cursor rows) ≡ none
passed-missed u cursor e j rows late d stored =
    ground (arith, stored, find_row-rows_after u cursor rows j d)

-- A row that is committed with a number that the cursor has passed is not read from it.
late_row-missed :
    (u : Uuid) (cursor : ℕ) (e : Expense) (t : ExpenseTable)
    → IsSequenced t
    → e.server_seq ≤ cursor
    → (find_row e.id (put_row e t.rows) ≡ some e)
      × (find_row e.id (rows_after u cursor (put_row e t.rows)) ≡ none)
      × IsPassed u cursor e
late_row-missed u cursor e t s late =
    let stored : find_row e.id (put_row e t.rows) ≡ some e =
      ground (arith, find_row-put_row e.id e t.rows, ==_iff e.id e.id) in
    (
      stored,
      passed-missed u cursor e e.id (put_row e t.rows) late
          (put_row-Distinct_ids e t.rows s.distinct_ids) stored,
      λ rows d kept. passed-missed u cursor e e.id rows late d kept,
    )

-- The table between the two commits, and what the second commit adds to it.
between-missed :
    (now now' : Instant) (u : Uuid) (r r' : Proposed) (t : ExpenseTable) (since limit : ℕ)
    → IsSequenced t
    → let row = inserted_row now u t.next_seq r in
      let row' = inserted_row now' u (t.next_seq + 1) r' in
      let between : ExpenseTable = record {
        rows = put_row row' t.rows;
        next_seq = t.next_seq + 2;
      } in
      let p = page u since limit between.rows in
      p.has_more ≡ false
      → (find_row r.id (put_row row between.rows) ≡ some row)
        × (find_row r.id (rows_after u p.next_cursor (put_row row between.rows)) ≡ none)
        × IsPassed u p.next_cursor row
unfolding inserted_row
between-missed now now' u r r' t since limit s done =
    let row = inserted_row now u t.next_seq r in
    let row' = inserted_row now' u (t.next_seq + 1) r' in
    let between : ExpenseTable = record { rows = put_row row' t.rows; next_seq = t.next_seq + 2 } in
    let s' = put_row-IsSequenced row' t (t.next_seq + 2) s (omega arith) (omega arith) in
    let stored' : find_row r'.id between.rows ≡ some row' =
      ground (arith, find_row-put_row r'.id row' t.rows, ==_iff r'.id r'.id) in
    let reached = cursor-reaches u since limit between r'.id row' s' stored' refl done in
    late_row-missed u (page u since limit between.rows).next_cursor row between s' (omega arith)

-- Two pushes of new records of one user overlap: the first has run its statement when the second runs
-- its own and commits. Their ids differ, as PostgreSQL would let the second wait otherwise. A device
-- then pulls until nothing is left, and the first commits. Its row is stored, and a pull from
-- the device's cursor on does not read it, then and in every later table of different ids in which
-- that row stands as it was written.
pub overlap-missed :
    (now now' : Instant) (u : Uuid) (r r' : Proposed) (t : ExpenseTable) (since limit : ℕ)
    → IsSequenced t
    → find_row r.id t.rows ≡ none
    → find_row r'.id t.rows ≡ none
    → r'.id ≢ r.id
    → (page u since limit (overlapped now now' u r r' t).0.rows).has_more ≡ false
    → let cursor = (page u since limit (overlapped now now' u r r' t).0.rows).next_cursor in
      let after = (overlapped now now' u r r' t).1 in
      (find_row r.id after.rows ≡ some (inserted_row now u t.next_seq r))
      × (find_row r.id (rows_after u cursor after.rows) ≡ none)
      × IsPassed u cursor (inserted_row now u t.next_seq r)
unfolding commit
overlap-missed now now' u r r' t since limit s absent absent' differ done =
    let first = execute-inserted now u r t absent in
    let second = execute-inserted now' u r' (record t { next_seq = t.next_seq + 1 }) absent' in
    rw (first, second) (between-missed now now' u r r' t since limit s (rw (first, second) at done))
