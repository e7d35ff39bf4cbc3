-- ===== src/System/Reset.antt =====
-- The reset of a user's base amounts, as an advance of the table: app/services/fx/recompute.py.
use voice_spend.Prelude.{
  ℕ, ◌+◌, ◌≤◌, ◌<◌, ◌≡◌, refl, ap, sym, subst, inl, inr, false, ◌&&◌, Option, none, some, List, [],
  ◌∷◌, arith, ◌==◌, Bool-cases, is_some, All, Distinct, elem,
}
use voice_spend.Models.{Uuid, Instant, Expense, Db}
use voice_spend.Sync.Upsert.{find_row}
use voice_spend.Sync.Upsert.Sequence.{row_ids, row_seqs, below_mono}
use voice_spend.Fx.Recompute.{rebased, null_rows, null_amount_base_for_user}
use voice_spend.System.Advance.{IsMove, Advances}

IsMove-widen : (l m h : ℕ) (a b : Option Expense) → l ≤ m → IsMove m h a b → IsMove l h a b
IsMove-widen l m h a none le p = p
IsMove-widen l m h a (some b) le (inl same) = inl same
IsMove-widen l m h a (some b) le (inr (s, low, high)) = inr (s, omega arith, high)

elem-row_seqs_below :
    (rows : List Expense) (n s : ℕ)
    → All (λ e. e.server_seq < n) rows
    → n ≤ s
    → elem s (row_seqs rows) ≡ false
elem-row_seqs_below [] n s below le = refl
elem-row_seqs_below (e ∷ es) n s below le = ground (arith, elem-row_seqs_below es n s below.1)

module _ (now : Instant) (user_id : Uuid) where
  null_rows-le : (rows : List Expense) (seq : ℕ) → seq ≤ (null_rows now user_id rows seq).2
  unfolding null_rows
  null_rows-le [] seq = omega arith
  null_rows-le (e ∷ es) seq = ground (arith, null_rows-le es (seq + 1), null_rows-le es seq)

  pub null_rows-row_ids :
      (rows : List Expense) (seq : ℕ) → row_ids (null_rows now user_id rows seq).1 ≡ row_ids rows
  unfolding null_rows rebased
  null_rows-row_ids [] seq = refl
  null_rows-row_ids (e ∷ es) seq =
      elim (Bool-cases (e.user_id == user_id && is_some e.amount_base)) [
        | inl hit ↦ rw (hit, null_rows) (ap (λ ids. e.id ∷ ids) (null_rows-row_ids es (seq + 1)))
        | inr miss ↦ rw (miss, null_rows) (ap (λ ids. e.id ∷ ids) (null_rows-row_ids es seq))
      ]

  null_rows-IsMove :
      (rows : List Expense) (seq : ℕ) (j : Uuid)
      → let (n, after, last) = null_rows now user_id rows seq in
        IsMove seq last (find_row j rows) (find_row j after)
  unfolding null_rows rebased find_row
  null_rows-IsMove [] seq j = refl
  null_rows-IsMove (e ∷ es) seq j =
      elim (Bool-cases (e.user_id == user_id && is_some e.amount_base)) [
        | inl hit ↦ elim (Bool-cases (e.id == j)) [
          | inl same ↦
              rw (hit, null_rows, same)
                (inr (
                  (refl, omega arith),
                  omega arith,
                  let le = null_rows-le es (seq + 1) in omega arith,
                ))
          | inr other ↦
              rw (hit, null_rows, other)
                (IsMove-widen seq (seq + 1) (null_rows now user_id es (seq + 1)).2 (find_row j es)
                  (find_row j (null_rows now user_id es (seq + 1)).1) (omega arith)
                  (null_rows-IsMove es (seq + 1) j))
        ]
        | inr miss ↦ elim (Bool-cases (e.id == j)) [
          | inl same ↦ rw (miss, null_rows, same) (inl refl)
          | inr other ↦ rw (miss, null_rows, other) (null_rows-IsMove es seq j)
        ]
      ]

  null_rows-below :
      (rows : List Expense) (seq : ℕ)
      → All (λ e. e.server_seq < seq) rows
      → let (n, after, last) = null_rows now user_id rows seq in
        All (λ e. e.server_seq < last) after
  unfolding null_rows rebased
  null_rows-below [] seq below = tt
  null_rows-below (e ∷ es) seq below =
      elim (Bool-cases (e.user_id == user_id && is_some e.amount_base)) [
        | inl hit ↦
            let le = null_rows-le es (seq + 1) in
            rw (hit, null_rows)
              (
                omega arith,
                null_rows-below es (seq + 1) (below_mono es seq (seq + 1) (omega arith) below.1),
              )
        | inr miss ↦
            let le = null_rows-le es seq in
            let head : e.server_seq < seq = below.0 in
            rw (miss, null_rows) (omega arith, null_rows-below es seq below.1)
      ]

  null_rows-fresh :
      (rows : List Expense) (seq s : ℕ)
      → elem s (row_seqs rows) ≡ false
      → s < seq
      → elem s (row_seqs (null_rows now user_id rows seq).1) ≡ false
  unfolding null_rows rebased
  null_rows-fresh [] seq s absent lt = refl
  null_rows-fresh (e ∷ es) seq s absent lt =
      elim (Bool-cases (e.user_id == user_id && is_some e.amount_base)) [
        | inl hit ↦ rw (hit, null_rows) (ground (arith, null_rows-fresh es (seq + 1) s))
        | inr miss ↦ rw (miss, null_rows) (ground (arith, null_rows-fresh es seq s))
      ]

  null_rows-Distinct :
      (rows : List Expense) (seq : ℕ)
      → All (λ e. e.server_seq < seq) rows
      → Distinct (row_seqs rows)
      → Distinct (row_seqs (null_rows now user_id rows seq).1)
  unfolding null_rows rebased
  null_rows-Distinct [] seq below d = tt
  null_rows-Distinct (e ∷ es) seq below d =
      elim (Bool-cases (e.user_id == user_id && is_some e.amount_base)) [
        | inl hit ↦
            rw (hit, null_rows)
              (
                null_rows-fresh es (seq + 1) seq
                    (elem-row_seqs_below es seq seq below.1 (omega arith)) (omega arith),
                null_rows-Distinct es (seq + 1) (below_mono es seq (seq + 1) (omega arith) below.1)
                    d.1,
              )
        | inr miss ↦
            rw (miss, null_rows)
              (
                null_rows-fresh es seq e.server_seq d.0 below.0,
                null_rows-Distinct es seq below.1 d.1,
              )
      ]

  pub null_amount_base_for_user-Advances :
      (db : Db) → Advances db.expenses (null_amount_base_for_user now user_id db).1.expenses
  unfolding null_amount_base_for_user
  null_amount_base_for_user-Advances db =
      let rows = db.expenses.rows in
      let seq = db.expenses.next_seq in
      record {
        next = null_rows-le rows seq;
        moves = null_rows-IsMove rows seq;
        sequenced = λ s. record {
          below = null_rows-below rows seq s.below;
          distinct_ids = subst Distinct (sym (null_rows-row_ids rows seq)) s.distinct_ids;
          distinct_seqs = null_rows-Distinct rows seq s.below s.distinct_seqs;
        };
      }
