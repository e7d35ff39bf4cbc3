-- ===== src/Sync/Pull/Pages.antt =====
-- Paging: a page and the pull from its cursor make up the pull from the cursor before.
use voice_spend.Prelude.{
  ℕ, zero, suc, ◌≤◌, ◌≡◌, refl, ap, sym, ◌∙◌, false, List, [], ◌∷◌, ◌++◌, arith, ltb, ◌==◌,
  if◌then◌else◌, Distinct, length, take,
}
use voice_spend.Models.{Uuid, Expense}
use voice_spend.Sync.Upsert.Sequence.{row_seqs}
use voice_spend.Sync.Pull.{insert_by_seq, rows_after, last_seq, page}
use voice_spend.Sync.Pull.Order.{IsAscending, rows_after-IsAscending}

above : ℕ → List Expense → List Expense
above c [] = []
above c (e ∷ es) = let rest = above c es in if ltb c e.server_seq then e ∷ rest else rest

above-insert_by_seq :
    (c : ℕ) (e : Expense) (xs : List Expense)
    → above c (insert_by_seq e xs)
      ≡ (if ltb c e.server_seq then insert_by_seq e (above c xs) else above c xs)
unfolding above insert_by_seq
above-insert_by_seq c e [] = ground arith
above-insert_by_seq c e (x ∷ xs) = ground (arith, above-insert_by_seq c e xs)

-- A later cursor reads what is past it of what an earlier one reads.
rows_after-above :
    (u : Uuid) (since c : ℕ) (rows : List Expense)
    → since ≤ c
    → above c (rows_after u since rows) ≡ rows_after u c rows
unfolding above rows_after
rows_after-above u since c [] h = refl
rows_after-above u since c (e ∷ es) h =
    ground (arith, rows_after-above u since c es h, above-insert_by_seq c e (rows_after u since es))

drop : ℕ → List Expense → List Expense
drop zero xs = xs
drop (suc n) [] = []
drop (suc n) (x ∷ xs) = drop n xs

above_all : (since c : ℕ) (xs : List Expense) → c ≤ since → IsAscending since xs → above c xs ≡ xs
unfolding above
above_all since c [] h a = refl
above_all since c (x ∷ xs) h a = ground (arith, above_all x.server_seq c xs (omega arith) a.1)

last_seq-le :
    (since n : ℕ) (xs : List Expense) → IsAscending since xs → since ≤ last_seq since (take n xs)
unfolding last_seq
last_seq-le since zero xs a = omega arith
last_seq-le since (suc n) [] a = omega arith
last_seq-le since (suc n) (x ∷ xs) a = omega (arith, last_seq-le x.server_seq n xs a.1)

above-last_seq :
    (since n : ℕ) (xs : List Expense)
    → IsAscending since xs
    → above (last_seq since (take n xs)) xs ≡ drop n xs
unfolding above last_seq drop
above-last_seq since zero xs a = above_all since since xs (omega arith) a
above-last_seq since (suc n) [] a = refl
above-last_seq since (suc n) (x ∷ xs) a =
    ground (arith, above-last_seq x.server_seq n xs a.1, last_seq-le x.server_seq n xs a.1)

take-append-drop : (n : ℕ) (xs : List Expense) → take n xs ++ drop n xs ≡ xs
unfolding drop
take-append-drop zero xs = refl
take-append-drop (suc n) [] = refl
take-append-drop (suc n) (x ∷ xs) = ap (◌∷◌ x) (take-append-drop n xs)

drop-short : (n : ℕ) (xs : List Expense) → (length (take n xs) == n) ≡ false → drop n xs ≡ []
unfolding drop
drop-short zero xs h = ground arith
drop-short (suc n) [] h = refl
drop-short (suc n) (x ∷ xs) h = drop-short n xs (ground arith)

-- In a table where no two rows share a server_seq: the records of a page, followed by what is read
-- from the page's cursor on, are what is read from `since` on, so that a client that follows the
-- cursors gets each row once and misses none; and when `has_more` is false nothing is left.
pub page_exhausts :
    (u : Uuid) (since limit : ℕ) (rows : List Expense)
    → Distinct (row_seqs rows)
    → let p = page u since limit rows in
      (p.records ++ rows_after u p.next_cursor rows ≡ rows_after u since rows)
      × (since ≤ p.next_cursor)
      × (p.has_more ≡ false → rows_after u p.next_cursor rows ≡ [])
unfolding page
page_exhausts u since limit rows d =
    let xs = rows_after u since rows in
    let a = rows_after-IsAscending u since rows d in
    let later = last_seq-le since limit xs a in
    let rest =
      sym (rows_after-above u since (last_seq since (take limit xs)) rows later)
      ∙ above-last_seq since limit xs a in
    (
      ap (λ (ys : List Expense). take limit xs ++ ys) rest ∙ take-append-drop limit xs,
      later,
      λ short. rest ∙ drop-short limit xs short,
    )
