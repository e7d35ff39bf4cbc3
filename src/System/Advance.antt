-- ===== src/System/Advance.antt =====
-- How the table of expenses may move on: no row is lost, changes owner or goes back a revision, and
-- a row that is written has a number that the sequence gave meanwhile.
use voice_spend.Prelude.{
  ℕ, ◌≤◌, ◌<◌, ◌≡◌, refl, sym, subst, ◌∙◌, ◌⊎◌, inl, inr, Option, none, some, arith, ◌==◌, ==_iff,
  Bool-cases,
}
use voice_spend.Models.{Uuid, Expense, ExpenseTable}
use voice_spend.Sync.Upsert.{find_row, put_row}
use voice_spend.Sync.Upsert.Rows.{find_row-put_row}
use voice_spend.Sync.Upsert.Sequence.{IsSequenced, below_mono, put_row-IsSequenced}

-- The row `b` may stand where `a` stood.
abbrev pub IsSuccessor : Option Expense → Expense → Type 0
IsSuccessor none b = Unit
IsSuccessor (some a) b = (b.user_id ≡ a.user_id) × (a.client_rev ≤ b.client_rev)

-- What one id shows before and after, between two values of the sequence.
abbrev pub IsMove : ℕ → ℕ → Option Expense → Option Expense → Type 0
IsMove low high before none = before ≡ none
IsMove low high before (some b) =
    (before ≡ some b) ⊎ (IsSuccessor before b × (low ≤ b.server_seq) × (b.server_seq < high))

pub record Advances (t : ExpenseTable) (t' : ExpenseTable) : Type 0 where
  pub next : t.next_seq ≤ t'.next_seq
  pub moves : (j : Uuid) → IsMove t.next_seq t'.next_seq (find_row j t.rows) (find_row j t'.rows)
  pub sequenced : IsSequenced t → IsSequenced t'

IsMove-refl : (low high : ℕ) (o : Option Expense) → IsMove low high o o
IsMove-refl low high none = refl
IsMove-refl low high (some a) = inl refl

pub Advances-refl : (t : ExpenseTable) → Advances t t
Advances-refl t = record {
  next = omega arith;
  moves = λ j. IsMove-refl t.next_seq t.next_seq (find_row j t.rows);
  sequenced = λ s. s;
}

IsSuccessor-trans :
    (a : Option Expense) (b c : Expense)
    → IsSuccessor a b
    → IsSuccessor (some b) c
    → IsSuccessor a c
IsSuccessor-trans none b c p q = tt
IsSuccessor-trans (some a) b c p q = (q.0 ∙ p.0, omega arith)

IsMove-trans :
    (l m h : ℕ) (a b c : Option Expense)
    → l ≤ m
    → m ≤ h
    → IsMove l m a b
    → IsMove m h b c
    → IsMove l h a c
IsMove-trans l m h a none none lm mh p q = p
IsMove-trans l m h a (some b) none lm mh p q = cc
IsMove-trans l m h a none (some c) lm mh p (inl q) = cc
IsMove-trans l m h a none (some c) lm mh p (inr (s, low, high)) = inr (rw p tt, omega arith, high)
IsMove-trans l m h a (some b) (some c) lm mh (inl p) (inl q) = inl (p ∙ q)
IsMove-trans l m h a (some b) (some c) lm mh (inl p) (inr (s, low, high)) =
    inr (rw p s, omega arith, high)
IsMove-trans l m h a (some b) (some c) lm mh (inr (s, low, high)) (inl q) =
    subst (λ (o : Option Expense). IsMove l h a o) q (inr (s, low, omega arith))
IsMove-trans l m h a (some b) (some c) lm mh (inr (s, low, high)) (inr (s', low', high')) =
    inr (IsSuccessor-trans a b c s s', omega arith, high')

pub Advances-trans : {t u v : ExpenseTable} → Advances t u → Advances u v → Advances t v
Advances-trans {t} {u} {v} p q = record {
  next = let x = p.next in let y = q.next in omega arith;
  moves = λ j.
      IsMove-trans t.next_seq u.next_seq v.next_seq (find_row j t.rows) (find_row j u.rows)
        (find_row j v.rows) p.next q.next (p.moves j) (q.moves j);
  sequenced = λ s. q.sequenced (p.sequenced s);
}

-- A table with the sequence moved on, and one with a row written under a number of its own.
pub Advances-skip :
    (t : ExpenseTable) (n : ℕ) → t.next_seq ≤ n → Advances t (record t { next_seq = n })
Advances-skip t n le = record {
  next = le;
  moves = λ j. IsMove-refl t.next_seq n (find_row j t.rows);
  sequenced = λ s. record {
    below = below_mono t.rows t.next_seq n le s.below;
    distinct_ids = s.distinct_ids;
    distinct_seqs = s.distinct_seqs;
  };
}

pub Advances-put_row :
    (t : ExpenseTable) (e : Expense) (n : ℕ)
    → IsSuccessor (find_row e.id t.rows) e
    → t.next_seq ≤ e.server_seq
    → e.server_seq < n
    → Advances t (record { rows = put_row e t.rows; next_seq = n })
Advances-put_row t e n succ low high = record {
  next = omega arith;
  moves = λ j.
      subst (λ (o : Option Expense). IsMove t.next_seq n (find_row j t.rows) o)
        (sym (find_row-put_row j e t.rows))
        (elim (Bool-cases (e.id == j)) [
          | inl same ↦ rw (same) (
              inr (
                subst (λ k. IsSuccessor (find_row k t.rows) e) ((==_iff e.id j).0 same) succ,
                low,
                high,
              ))
          | inr other ↦ rw (other) (IsMove-refl t.next_seq n (find_row j t.rows))
        ]);
  sequenced = λ s. put_row-IsSequenced e t n s low high;
}
