-- ===== src/Sync/Upsert/Results.antt =====
-- The rows that the statement returns: they name exactly the proposed rows that were taken, with the
-- numbers stored for them, and `xmax = 0` marks exactly the rows by which the table has grown.
use voice_spend.Prelude.{
  ℕ, ◌+◌, ◌≡◌, refl, ap, Bool, true, false, Option, none, some, List, [], ◌∷◌, arith, ltb, ◌==◌,
  if◌then◌else◌, length, ok, All, elem, Distinct, subst, sym,
}
use voice_spend.Models.{Uuid, Instant, Expense, ExpenseTable}
use voice_spend.Sync.Upsert.{
  Proposed, inserted_row, updated_row, find_row, upsert_found, upsert_row, upsert_rows, Returned,
  returned_ids, returned_rows, applied_seq, new_count,
}
use voice_spend.Sync.Upsert.Rows.{
  settled, find_row-upsert_row, length-put_row, find_row-id, inserted_row-id, updated_row-id,
}
use voice_spend.Sync.Upsert.Replay.{upsert_rows_cons, ok_pair}
use voice_spend.Sync.Upsert.Success.{ids, find_row-upsert_rows}

-- Whether the statement takes a proposed row: its id is new, or its revision is greater.
unfoldable pub is_newer : Option Expense → Proposed → Bool
is_newer none r = true
is_newer (some old) r = ltb old.client_rev r.client_rev

abbrev pub seq_of : Option Expense → Option ℕ
seq_of none = none
seq_of (some e) = some e.server_seq

returned_other :
    (now : Instant) (u : Uuid) (r : Proposed) (t : ExpenseTable) (rest : List Returned) (j : Uuid)
    → (r.id == j) ≡ false
    → applied_seq (returned_rows (upsert_row now u r t).1 rest) j ≡ applied_seq rest j
unfolding upsert_row upsert_found applied_seq
returned_other now u r t rest j ne = ground arith

-- An id that no row proposes is not returned.
pub applied_seq-none :
    (now : Instant) (u : Uuid) (w : List Uuid) (rs : List Proposed) (t t' : ExpenseTable)
    (outs : List Returned) (j : Uuid)
    → upsert_rows now u w rs t ≡ ok (t', outs)
    → elem j (ids rs) ≡ false
    → applied_seq outs j ≡ none
unfolding upsert_rows applied_seq
applied_seq-none now u w [] t t' outs j h n =
    ap (λ (x : List Returned). applied_seq x j) (sym (ok_pair h).1)
applied_seq-none now u w (r ∷ rs) t t' outs j h n =
    let (t₁, out) = upsert_row now u r t in
    let (rest, e, o) = upsert_rows_cons now u w r rs t h in
    rw o (
      ground (
        arith,
        returned_other now u r t rest j,
        applied_seq-none now u (returned_ids out w) rs t₁ t' rest j e,
      ))

returned_self :
    (now : Instant) (u : Uuid) (r : Proposed) (t : ExpenseTable) (o : Option Expense)
    (rest : List Returned)
    → applied_seq rest r.id ≡ none
    → applied_seq (returned_rows (upsert_found now u r t o).1 rest) r.id
      ≡ (if is_newer o r then seq_of (some (settled now u t.next_seq r o)) else none)
unfolding upsert_found applied_seq settled inserted_row updated_row is_newer
returned_self now u r t none rest h = ground arith
returned_self now u r t (some old) rest h = ground arith

-- What is returned for a proposed row: its stored number if it was taken, nothing otherwise.
abbrev pub IsReported : ExpenseTable → ExpenseTable → List Returned → Proposed → Type 0
IsReported t t' outs r =
    applied_seq outs r.id
    ≡ (if is_newer (find_row r.id t.rows) r then seq_of (find_row r.id t'.rows) else none)

IsReported-before :
    (now : Instant) (u : Uuid) (r : Proposed) (t t' : ExpenseTable) (rest : List Returned)
    (rs : List Proposed)
    → elem r.id (ids rs) ≡ false
    → All (IsReported (upsert_row now u r t).0 t' rest) rs
    → All (IsReported t t' (returned_rows (upsert_row now u r t).1 rest)) rs
IsReported-before now u r t t' rest [] n h = tt
IsReported-before now u r t t' rest (x ∷ xs) n h = (
  ground (arith, h.0, returned_other now u r t rest x.id, find_row-upsert_row now u r t x.id),
  IsReported-before now u r t t' rest xs (ground arith) h.1,
)

upsert_row_self :
    (now : Instant) (u : Uuid) (r : Proposed) (t : ExpenseTable) (rest : List Returned)
    → applied_seq rest r.id ≡ none
    → applied_seq (returned_rows (upsert_row now u r t).1 rest) r.id ≡ (
        if is_newer (find_row r.id t.rows) r
        then seq_of (find_row r.id (upsert_row now u r t).0.rows)
        else none)
unfolding upsert_row
upsert_row_self now u r t rest h = ground (
  arith,
  returned_self now u r t (find_row r.id t.rows) rest h,
  find_row-upsert_row now u r t r.id,
)

pub upsert_rows-IsReported :
    (now : Instant) (u : Uuid) (w : List Uuid) (rs : List Proposed) (t t' : ExpenseTable)
    (outs : List Returned)
    → upsert_rows now u w rs t ≡ ok (t', outs)
    → Distinct (ids rs)
    → All (IsReported t t' outs) rs
upsert_rows-IsReported now u w [] t t' outs h d = tt
upsert_rows-IsReported now u w (r ∷ rs) t t' outs h d =
    let (t₁, out) = upsert_row now u r t in
    let w₁ = returned_ids out w in
    let (rest, e, o) = upsert_rows_cons now u w r rs t h in
    subst (λ (xs : List Returned). All (IsReported t t' xs) (r ∷ rs)) (sym o)
      (
        ground (
          arith,
          upsert_row_self now u r t rest (applied_seq-none now u w₁ rs t₁ t' rest r.id e d.0),
          find_row-upsert_rows now u w₁ rs t₁ t' rest r.id e d.0,
        ),
        IsReported-before now u r t t' rest rs d.0
            (upsert_rows-IsReported now u w₁ rs t₁ t' rest e d.1),
      )

length-upsert_found :
    (now : Instant) (u : Uuid) (r : Proposed) (t : ExpenseTable) (o : Option Expense)
    (rest : List Returned)
    → find_row r.id t.rows ≡ o
    → length (upsert_found now u r t o).0.rows + new_count rest
      ≡ length t.rows + new_count (returned_rows (upsert_found now u r t o).1 rest)
unfolding upsert_found new_count
length-upsert_found now u r t none rest h = ground (
  arith,
  length-put_row (inserted_row now u t.next_seq r) t.rows,
  inserted_row-id now u t.next_seq r,
)
length-upsert_found now u r t (some old) rest h = ground (
  arith,
  length-put_row (updated_row (t.next_seq + 1) old r) t.rows,
  updated_row-id now (t.next_seq + 1) old r,
  find_row-id r.id t.rows old h,
)

length-upsert_row :
    (now : Instant) (u : Uuid) (r : Proposed) (t : ExpenseTable) (rest : List Returned)
    → length (upsert_row now u r t).0.rows + new_count rest
      ≡ length t.rows + new_count (returned_rows (upsert_row now u r t).1 rest)
unfolding upsert_row
length-upsert_row now u r t rest = length-upsert_found now u r t (find_row r.id t.rows) rest refl

-- The table grows by the rows that are returned as inserted.
pub length-upsert_rows :
    (now : Instant) (u : Uuid) (w : List Uuid) (rs : List Proposed) (t t' : ExpenseTable)
    (outs : List Returned)
    → upsert_rows now u w rs t ≡ ok (t', outs)
    → length t'.rows ≡ length t.rows + new_count outs
unfolding upsert_rows new_count
length-upsert_rows now u w [] t t' outs h = let (p, q) = ok_pair h in rw (← p, ← q) (omega arith)
length-upsert_rows now u w (r ∷ rs) t t' outs h =
    let (t₁, out) = upsert_row now u r t in
    let (rest, e, o) = upsert_rows_cons now u w r rs t h in
    rw o (
      omega (
        arith,
        length-upsert_rows now u (returned_ids out w) rs t₁ t' rest e,
        length-upsert_row now u r t rest,
      ))
