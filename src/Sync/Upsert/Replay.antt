-- ===== src/Sync/Upsert/Replay.antt =====
-- The bulk statement as a whole: it never goes back a revision, it leaves every proposed row at its
-- own revision or a later one, and it does nothing to rows that are there already.
use voice_spend.Prelude.{
  ℕ, ◌+◌, ◌≤◌, ◌≡◌, refl, sym, subst, inl, inr, Bool, true, false, Option, none, some, List, [],
  ◌∷◌, arith, ◌==◌, if◌then◌else◌, Bool-cases, Option-cases, length, Result, ok, err, All, elem,
  ==_iff,
}
use voice_spend.Models.{Uuid, Instant, Expense, ExpenseTable}
use voice_spend.Http.{DbError, cardinality_violation}
use voice_spend.Sync.Upsert.{
  Proposed, inserted_row, updated_row, find_row, upsert_found, upsert_row, upsert_rows, Returned,
  returned_ids, returned_rows, Upserted, collect,
}
use voice_spend.Sync.Upsert.Rows.{settled, find_row-upsert_row}

-- The row is stored, at revision `rev` or later.
abbrev pub AtLeast : ℕ → Option Expense → Type 0
AtLeast rev none = ⊥
AtLeast rev (some e) = rev ≤ e.client_rev

abbrev pub rev_of : Option Expense → ℕ
rev_of none = 0
rev_of (some e) = e.client_rev

pub settled-AtLeast :
    (now : Instant) (u : Uuid) (seq : ℕ) (r : Proposed) (o : Option Expense)
    → AtLeast r.client_rev (some (settled now u seq r o))
unfolding settled inserted_row updated_row
settled-AtLeast now u seq r none = omega arith
settled-AtLeast now u seq r (some old) = ground arith

settled_keeps :
    (now : Instant) (u : Uuid) (seq : ℕ) (r : Proposed) (o : Option Expense) (rev : ℕ)
    → AtLeast rev o
    → AtLeast rev (some (settled now u seq r o))
unfolding settled inserted_row updated_row
settled_keeps now u seq r none rev h = absurd h
settled_keeps now u seq r (some old) rev h = ground arith

-- One proposed row leaves its id at its revision or a later one.
pub upsert_row-AtLeast :
    (now : Instant) (u : Uuid) (r : Proposed) (t : ExpenseTable)
    → AtLeast r.client_rev (find_row r.id (upsert_row now u r t).0.rows)
upsert_row-AtLeast now u r t =
    rw (find_row-upsert_row now u r t r.id, (==_iff r.id r.id).1 refl)
      (settled-AtLeast now u t.next_seq r (find_row r.id t.rows))

-- No id goes back a revision, or goes away.
pub upsert_row_keeps :
    (now : Instant) (u : Uuid) (r : Proposed) (t : ExpenseTable) (j : Uuid) (rev : ℕ)
    → AtLeast rev (find_row j t.rows)
    → AtLeast rev (find_row j (upsert_row now u r t).0.rows)
upsert_row_keeps now u r t j rev h = elim (Bool-cases (r.id == j)) [
  | inl same ↦
      rw (find_row-upsert_row now u r t j, same)
        (settled_keeps now u t.next_seq r (find_row r.id t.rows) rev
          (rw ((==_iff r.id j).0 same) h))
  | inr other ↦ rw (find_row-upsert_row now u r t j, other) h
]

pub ok_pair :
    {E A B : Type 0} {a c : A} {b d : B}
    → ◌≡◌ {A = Result E (A × B)} (ok (a, b)) (ok (c, d))
    → (a ≡ c) × (b ≡ d)
ok_pair h = (cc, cc)

collect-eq-ok :
    (b : Bool) (e : DbError) (out : Option Returned) (rest : Upserted) (t' : ExpenseTable)
    (outs : List Returned)
    → (if b then err e else collect out rest) ≡ ok (t', outs)
    → (xs : List Returned) × (rest ≡ ok (t', xs)) × (outs ≡ returned_rows out xs)
collect-eq-ok true e out rest t' outs h = cc
collect-eq-ok false e out (err d) t' outs h = cc
collect-eq-ok false e out (ok (t₁, xs)) t' outs h = let (p, q) = ok_pair h in (xs, rw p, sym q)

-- The run of the statement over the rest of a batch, taken apart.
pub upsert_rows_cons :
    (now : Instant) (u : Uuid) (w : List Uuid) (r : Proposed) (rs : List Proposed)
    (t : ExpenseTable) {t' : ExpenseTable} {outs : List Returned}
    → upsert_rows now u w (r ∷ rs) t ≡ ok (t', outs)
    → let (t₁, out) = upsert_row now u r t in
      (rest : List Returned) × (upsert_rows now u (returned_ids out w) rs t₁ ≡ ok (t', rest))
      × (outs ≡ returned_rows out rest)
unfolding upsert_rows
upsert_rows_cons now u w r rs t {t'} {outs} h =
    let (t₁, out) = upsert_row now u r t in
    collect-eq-ok (elem r.id w) cardinality_violation out
      (upsert_rows now u (returned_ids out w) rs t₁) t' outs h

pub upsert_rows_keeps :
    (now : Instant) (u : Uuid) (w : List Uuid) (rs : List Proposed) (t t' : ExpenseTable)
    (outs : List Returned) (j : Uuid) (rev : ℕ)
    → upsert_rows now u w rs t ≡ ok (t', outs)
    → AtLeast rev (find_row j t.rows)
    → AtLeast rev (find_row j t'.rows)
unfolding upsert_rows
upsert_rows_keeps now u w [] t t' outs j rev h a =
    subst (λ (x : ExpenseTable). AtLeast rev (find_row j x.rows)) (ok_pair h).0 a
upsert_rows_keeps now u w (r ∷ rs) t t' outs j rev h a =
    let (t₁, out) = upsert_row now u r t in
    let (rest, e, _) = upsert_rows_cons now u w r rs t h in
    upsert_rows_keeps now u (returned_ids out w) rs t₁ t' rest j rev e
      (upsert_row_keeps now u r t j rev a)

abbrev pub IsCovered : List Expense → List Proposed → Type 0
IsCovered rows = All (λ r. AtLeast r.client_rev (find_row r.id rows))

-- After the statement every proposed row is stored at its revision or a later one.
pub upsert_rows-IsCovered :
    (now : Instant) (u : Uuid) (w : List Uuid) (rs : List Proposed) (t t' : ExpenseTable)
    (outs : List Returned)
    → upsert_rows now u w rs t ≡ ok (t', outs)
    → IsCovered t'.rows rs
upsert_rows-IsCovered now u w [] t t' outs h = tt
upsert_rows-IsCovered now u w (r ∷ rs) t t' outs h =
    let (t₁, out) = upsert_row now u r t in
    let (rest, e, _) = upsert_rows_cons now u w r rs t h in
    (
      upsert_rows_keeps now u (returned_ids out w) rs t₁ t' rest r.id r.client_rev e
          (upsert_row-AtLeast now u r t),
      upsert_rows-IsCovered now u (returned_ids out w) rs t₁ t' rest e,
    )

-- A row that is covered is passed over: nothing is written, and one sequence value is used.
pub upsert_row_covered :
    (now : Instant) (u : Uuid) (r : Proposed) (t : ExpenseTable)
    → AtLeast r.client_rev (find_row r.id t.rows)
    → upsert_row now u r t ≡ (record t { next_seq = t.next_seq + 1 }, none)
unfolding upsert_row upsert_found
upsert_row_covered now u r t h = elim (Option-cases (find_row r.id t.rows)) [
  | inl new ↦ absurd (rw new at h)
  | inr (old, found) ↦ ground arith
]

-- Replaying rows that are covered changes no row and returns none.
pub upsert_rows_covered :
    (now : Instant) (u : Uuid) (rs : List Proposed) (t : ExpenseTable)
    → IsCovered t.rows rs
    → upsert_rows now u [] rs t ≡ ok (record t { next_seq = t.next_seq + length rs }, [])
unfolding upsert_rows
upsert_rows_covered now u [] t h = ground arith
upsert_rows_covered now u (r ∷ rs) t h =
    let e = upsert_row_covered now u r t h.0 in
    let next = record t { next_seq = t.next_seq + 1 } in
    rw (e, upsert_rows_covered now u rs next h.1) (ground arith)
