-- ===== src/Sync/Upsert/Sequence.antt =====
-- The sync sequence: stored numbers lie below the next value, no two rows share one, and every row
-- that the statement writes gets a number that no row had before.
use voice_spend.Prelude.{
  ℕ, ◌+◌, ◌≤◌, ◌<◌, ◌≡◌, refl, ◌⊎◌, inl, inr, false, Option, none, some, List, [], ◌∷◌, arith, ltb,
  ◌==◌, Bool-cases, map, ok, All, elem, Distinct, subst,
}
use voice_spend.Models.{Uuid, Instant, Expense, ExpenseTable}
use voice_spend.Sync.Upsert.{
  Proposed, inserted_row, updated_row, find_row, put_row, upsert_found, upsert_row, upsert_rows,
  Returned, returned_ids,
}
use voice_spend.Sync.Upsert.Replay.{upsert_rows_cons, ok_pair}

abbrev pub row_ids : List Expense → List Uuid
row_ids = map (λ e. e.id)

abbrev pub row_seqs : List Expense → List ℕ
row_seqs = map (λ e. e.server_seq)

-- The primary key, and the state of the sequence.
pub record IsSequenced (t : ExpenseTable) : Type 0 where
  pub below : All (λ e. e.server_seq < t.next_seq) t.rows
  pub distinct_ids : Distinct (row_ids t.rows)
  pub distinct_seqs : Distinct (row_seqs t.rows)

pub below_mono :
    (rows : List Expense) (n m : ℕ)
    → n ≤ m
    → All (λ e. e.server_seq < n) rows
    → All (λ e. e.server_seq < m) rows
below_mono [] n m le h = tt
below_mono (e ∷ es) n m le h = (omega arith, below_mono es n m le h.1)

put_row-below :
    (e : Expense) (rows : List Expense) (n : ℕ)
    → e.server_seq < n
    → All (λ x. x.server_seq < n) rows
    → All (λ x. x.server_seq < n) (put_row e rows)
unfolding put_row
put_row-below e [] n le h = (le, tt)
put_row-below e (x ∷ xs) n le h = ground (arith, put_row-below e xs n le h.1)

elem-row_ids-put_row :
    (e : Expense) (rows : List Expense) (j : Uuid)
    → elem j (row_ids rows) ≡ false
    → (e.id == j) ≡ false
    → elem j (row_ids (put_row e rows)) ≡ false
unfolding put_row
elem-row_ids-put_row e [] j h ne = ground arith
elem-row_ids-put_row e (x ∷ xs) j h ne = ground (arith, elem-row_ids-put_row e xs j)

pub put_row-Distinct_ids :
    (e : Expense) (rows : List Expense)
    → Distinct (row_ids rows)
    → Distinct (row_ids (put_row e rows))
unfolding put_row
put_row-Distinct_ids e [] d = (refl, tt)
put_row-Distinct_ids e (x ∷ xs) d =
    ground (arith, put_row-Distinct_ids e xs d.1, elem-row_ids-put_row e xs x.id d.0)

elem_above :
    (rows : List Expense) (n seq : ℕ)
    → All (λ e. e.server_seq < n) rows
    → n ≤ seq
    → elem seq (row_seqs rows) ≡ false
elem_above [] n seq h le = refl
elem_above (e ∷ es) n seq h le = ground (arith, elem_above es n seq h.1 le)

elem-row_seqs-put_row :
    (e : Expense) (rows : List Expense) (s : ℕ)
    → elem s (row_seqs rows) ≡ false
    → (e.server_seq == s) ≡ false
    → elem s (row_seqs (put_row e rows)) ≡ false
unfolding put_row
elem-row_seqs-put_row e [] s h ne = ground arith
elem-row_seqs-put_row e (x ∷ xs) s h ne = ground (arith, elem-row_seqs-put_row e xs s)

put_row-Distinct_seqs :
    (e : Expense) (rows : List Expense) (n : ℕ)
    → All (λ x. x.server_seq < n) rows
    → n ≤ e.server_seq
    → Distinct (row_seqs rows)
    → Distinct (row_seqs (put_row e rows))
unfolding put_row
put_row-Distinct_seqs e [] n h le d = (refl, tt)
put_row-Distinct_seqs e (x ∷ xs) n h le d = ground (
  arith,
  put_row-Distinct_seqs e xs n h.1 le d.1,
  elem-row_seqs-put_row e xs x.server_seq d.0,
  elem_above xs n e.server_seq h.1 le,
)

-- Writing a row with a number from the sequence's end keeps the invariant.
pub put_row-IsSequenced :
    (e : Expense) (t : ExpenseTable) (next : ℕ)
    → IsSequenced t
    → t.next_seq ≤ e.server_seq
    → e.server_seq < next
    → IsSequenced (record { rows = put_row e t.rows; next_seq = next })
put_row-IsSequenced e t next s le lt = record {
  below = put_row-below e t.rows next lt (below_mono t.rows t.next_seq next (omega arith) s.below);
  distinct_ids = put_row-Distinct_ids e t.rows s.distinct_ids;
  distinct_seqs = put_row-Distinct_seqs e t.rows t.next_seq s.below le s.distinct_seqs;
}

upsert_found-IsSequenced :
    (now : Instant) (u : Uuid) (r : Proposed) (t : ExpenseTable) (o : Option Expense)
    → IsSequenced t
    → IsSequenced (upsert_found now u r t o).0
unfolding upsert_found inserted_row updated_row
upsert_found-IsSequenced now u r t none s =
    put_row-IsSequenced (inserted_row now u t.next_seq r) t (t.next_seq + 1) s (omega arith)
      (omega arith)
upsert_found-IsSequenced now u r t (some old) s =
    elim (Bool-cases (ltb old.client_rev r.client_rev)) [
      | inl newer ↦ rw newer (
          put_row-IsSequenced (updated_row (t.next_seq + 1) old r) t (t.next_seq + 2) s
            (omega arith) (omega arith))
      | inr stale ↦ rw stale (record {
        below = below_mono t.rows t.next_seq (t.next_seq + 1) (omega arith) s.below;
        distinct_ids = s.distinct_ids;
        distinct_seqs = s.distinct_seqs;
      })
    ]

pub upsert_rows-IsSequenced :
    (now : Instant) (u : Uuid) (w : List Uuid) (rs : List Proposed) (t t' : ExpenseTable)
    (outs : List Returned)
    → upsert_rows now u w rs t ≡ ok (t', outs)
    → IsSequenced t
    → IsSequenced t'
unfolding upsert_rows upsert_row
upsert_rows-IsSequenced now u w [] t t' outs h s =
    subst (λ (x : ExpenseTable). IsSequenced x) (ok_pair h).0 s
upsert_rows-IsSequenced now u w (r ∷ rs) t t' outs h s =
    let (t₁, out) = upsert_row now u r t in
    let (rest, e, _) = upsert_rows_cons now u w r rs t h in
    upsert_rows-IsSequenced now u (returned_ids out w) rs t₁ t' rest e
      (upsert_found-IsSequenced now u r t (find_row r.id t.rows) s)

-- The sequence never falls.
pub upsert_row-next_seq :
    (now : Instant) (u : Uuid) (r : Proposed) (t : ExpenseTable)
    → t.next_seq < (upsert_row now u r t).0.next_seq
unfolding upsert_row upsert_found
upsert_row-next_seq now u r t = ground arith

-- After the statement each row is as it was, or has a number past every earlier one.
abbrev pub IsFreshOrSame : ExpenseTable → Option Expense → Option Expense → Type 0
IsFreshOrSame t old none = old ≡ none
IsFreshOrSame t old (some e) = (old ≡ some e) ⊎ (t.next_seq ≤ e.server_seq)
