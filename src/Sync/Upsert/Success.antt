-- ===== src/Sync/Upsert/Success.antt =====
-- The statement over rows with different ids: it does not raise, it leaves every other id alone, and
-- each proposed row meets the row that was stored before the statement.
use voice_spend.Prelude.{
  ℕ, ◌≤◌, ◌≡◌, refl, ap, false, some, List, [], ◌∷◌, arith, ◌==◌, map, ok, All, elem, Distinct, sym,
}
use voice_spend.Models.{Uuid, Instant, ExpenseTable}
use voice_spend.Sync.Upsert.{
  Proposed, find_row, upsert_found, upsert_row, upsert_rows, Returned, returned_ids, returned_rows,
}
use voice_spend.Sync.Upsert.Rows.{settled, find_row-upsert_row}
use voice_spend.Sync.Upsert.Replay.{upsert_rows_cons, ok_pair}

abbrev pub ids : List Proposed → List Uuid
ids = map (λ r. r.id)

-- None of the rows has an id among those written.
abbrev IsFresh : List Uuid → List Proposed → Type 0
IsFresh w = All (λ r. elem r.id w ≡ false)

returned_ids-upsert_row :
    (now : Instant) (u : Uuid) (r : Proposed) (t : ExpenseTable) (w : List Uuid) (j : Uuid)
    → (r.id == j) ≡ false
    → elem j w ≡ false
    → elem j (returned_ids (upsert_row now u r t).1 w) ≡ false
unfolding upsert_row upsert_found
returned_ids-upsert_row now u r t w j ne h = ground arith

IsFresh-returned_ids :
    (now : Instant) (u : Uuid) (r : Proposed) (t : ExpenseTable) (w : List Uuid)
    (rs : List Proposed)
    → elem r.id (ids rs) ≡ false
    → IsFresh w rs
    → IsFresh (returned_ids (upsert_row now u r t).1 w) rs
IsFresh-returned_ids now u r t w [] d f = tt
IsFresh-returned_ids now u r t w (x ∷ xs) d f = (
  returned_ids-upsert_row now u r t w x.id (ground arith) f.0,
  IsFresh-returned_ids now u r t w xs (ground arith) f.1,
)

upsert_rows_succeeds :
    (now : Instant) (u : Uuid) (w : List Uuid) (rs : List Proposed) (t : ExpenseTable)
    → Distinct (ids rs)
    → IsFresh w rs
    → (out : ExpenseTable × List Returned) × (upsert_rows now u w rs t ≡ ok out)
unfolding upsert_rows
upsert_rows_succeeds now u w [] t d f = ((t, []), refl)
upsert_rows_succeeds now u w (r ∷ rs) t d f =
    let (t₁, out) = upsert_row now u r t in
    let (rest, e) =
      upsert_rows_succeeds now u (returned_ids out w) rs t₁ d.1
        (IsFresh-returned_ids now u r t w rs d.0 f.1) in
    ((rest.0, returned_rows out rest.1), rw (f.0, e))

IsFresh-of_empty : (rs : List Proposed) → IsFresh [] rs
IsFresh-of_empty [] = tt
IsFresh-of_empty (r ∷ rs) = (refl, IsFresh-of_empty rs)

-- Rows with different ids are all taken: the statement raises no cardinality violation.
pub upsert_rows-ok :
    (now : Instant) (u : Uuid) (rs : List Proposed) (t : ExpenseTable)
    → Distinct (ids rs)
    → (out : ExpenseTable × List Returned) × (upsert_rows now u [] rs t ≡ ok out)
upsert_rows-ok now u rs t d = upsert_rows_succeeds now u [] rs t d (IsFresh-of_empty rs)

-- An id that no row proposes is looked up as before.
pub find_row-upsert_rows :
    (now : Instant) (u : Uuid) (w : List Uuid) (rs : List Proposed) (t t' : ExpenseTable)
    (outs : List Returned) (j : Uuid)
    → upsert_rows now u w rs t ≡ ok (t', outs)
    → elem j (ids rs) ≡ false
    → find_row j t'.rows ≡ find_row j t.rows
unfolding upsert_rows
find_row-upsert_rows now u w [] t t' outs j h n =
    ap (λ (x : ExpenseTable). find_row j x.rows) (sym (ok_pair h).0)
find_row-upsert_rows now u w (r ∷ rs) t t' outs j h n =
    let (t₁, out) = upsert_row now u r t in
    let (rest, e, _) = upsert_rows_cons now u w r rs t h in
    ground (
      arith,
      find_row-upsert_rows now u (returned_ids out w) rs t₁ t' rest j e,
      find_row-upsert_row now u r t j,
    )

-- What the statement did to one proposed row: under its id stands `settled` of the row that was
-- there before the statement, with a number of the sequence from its start on.
abbrev pub IsSettled : Instant → Uuid → ExpenseTable → ExpenseTable → Proposed → Type 0
IsSettled now u t t' r =
    (seq : ℕ) × (t.next_seq ≤ seq)
    × (find_row r.id t'.rows ≡ some (settled now u seq r (find_row r.id t.rows)))

upsert_row-next_seq-le :
    (now : Instant) (u : Uuid) (r : Proposed) (t : ExpenseTable)
    → t.next_seq ≤ (upsert_row now u r t).0.next_seq
unfolding upsert_row upsert_found
upsert_row-next_seq-le now u r t = ground arith

IsSettled-before :
    (now : Instant) (u : Uuid) (r : Proposed) (t t' : ExpenseTable) (rs : List Proposed)
    → elem r.id (ids rs) ≡ false
    → All (IsSettled now u (upsert_row now u r t).0 t') rs
    → All (IsSettled now u t t') rs
IsSettled-before now u r t t' [] n h = tt
IsSettled-before now u r t t' (x ∷ xs) n h = (
  (
    h.0.0,
    omega (arith, upsert_row-next_seq-le now u r t, h.0.1),
    ground (arith, h.0.2, find_row-upsert_row now u r t x.id),
  ),
  IsSettled-before now u r t t' xs (ground arith) h.1,
)

pub upsert_rows-IsSettled :
    (now : Instant) (u : Uuid) (w : List Uuid) (rs : List Proposed) (t t' : ExpenseTable)
    (outs : List Returned)
    → upsert_rows now u w rs t ≡ ok (t', outs)
    → Distinct (ids rs)
    → All (IsSettled now u t t') rs
upsert_rows-IsSettled now u w [] t t' outs h d = tt
upsert_rows-IsSettled now u w (r ∷ rs) t t' outs h d =
    let (t₁, out) = upsert_row now u r t in
    let (rest, e, _) = upsert_rows_cons now u w r rs t h in
    (
      (
        t.next_seq,
        omega arith,
        ground (
          arith,
          find_row-upsert_rows now u (returned_ids out w) rs t₁ t' rest r.id e d.0,
          find_row-upsert_row now u r t r.id,
        ),
      ),
      IsSettled-before now u r t t' rs d.0
          (upsert_rows-IsSettled now u (returned_ids out w) rs t₁ t' rest e d.1),
    )
