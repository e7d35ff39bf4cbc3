-- ===== src/Sync/Upsert/Merge.antt =====
-- Last writer wins: devices that push their revisions of one expense in either order end with the
-- same client columns; and an amount in the base currency survives only as long as what it was
-- computed from.
use mathlib.Core.Option.{some-injective}
use voice_spend.Prelude.{
  ℕ, ◌+◌, ◌≤◌, String, ◌≡◌, ◌≢◌, refl, ap, subst, ◌⊎◌, inl, inr, false, Option, none, some, List,
  [], ◌∷◌, arith, ok, ltb, ◌==◌, eq_iff, if◌then◌else◌, All, Bool-cases, eqb_refl,
}
use voice_spend.Prelude.Int.{ℤ, eq_ℤ_iff}
use voice_spend.Models.{Uuid, Instant, Expense, ExpenseTable}
use voice_spend.Sync.Upsert.{
  Proposed, inserted_row, updated_row, amount_base_is_stale, find_row, put_row, upsert_found,
  upsert_row, upsert_rows, Returned, returned_ids,
}
use voice_spend.Sync.Upsert.Rows.{settled, find_row-upsert_row}
use voice_spend.Sync.Upsert.Replay.{upsert_rows_cons, ok_pair}

-- The columns that the client writes on every edit (_CLIENT_UPDATE_COLUMNS).
pub record ClientView : Type 0 where
  pub amount_original : ℤ
  pub currency_original : String
  pub category : Option String
  pub payment_method : Option String
  pub merchant : Option String
  pub note : Option String
  pub spent_at : Instant
  pub client_rev : ℕ
  pub raw_transcript : Option String
  pub deleted_at : Option Instant

abbrev pub client_view : Expense → ClientView
client_view e = record {
  amount_original = e.amount_original;
  currency_original = e.currency_original;
  category = e.category;
  payment_method = e.payment_method;
  merchant = e.merchant;
  note = e.note;
  spent_at = e.spent_at;
  client_rev = e.client_rev;
  raw_transcript = e.raw_transcript;
  deleted_at = e.deleted_at;
}

abbrev pub proposed_view : Proposed → ClientView
proposed_view r = record {
  amount_original = r.amount_original;
  currency_original = r.currency_original;
  category = r.category;
  payment_method = r.payment_method;
  merchant = r.merchant;
  note = r.note;
  spent_at = r.spent_at;
  client_rev = r.client_rev;
  raw_transcript = r.raw_transcript;
  deleted_at = r.deleted_at;
}

abbrev pub view_of : Option Expense → Option ClientView
view_of none = none
view_of (some e) = some (client_view e)

-- The later revision of a stored view and a proposed one.
unfoldable pub later : Option ClientView → ClientView → ClientView
later none r = r
later (some old) r = if ltb old.client_rev r.client_rev then r else old

pub view-settled :
    (now : Instant) (u : Uuid) (seq : ℕ) (r : Proposed) (o : Option Expense)
    → client_view (settled now u seq r o) ≡ later (view_of o) (proposed_view r)
unfolding settled inserted_row updated_row later
view-settled now u seq r none = refl
view-settled now u seq r (some old) = ground arith

view-upsert_row :
    (now : Instant) (u : Uuid) (r : Proposed) (t : ExpenseTable)
    → view_of (find_row r.id (upsert_row now u r t).0.rows)
      ≡ some (later (view_of (find_row r.id t.rows)) (proposed_view r))
view-upsert_row now u r t =
    rw (find_row-upsert_row now u r t r.id, eqb_refl r.id)
      (ap some (view-settled now u t.next_seq r (find_row r.id t.rows)))

later_comm :
    (o : Option ClientView) (a b : ClientView)
    → a.client_rev ≢ b.client_rev
    → later (some (later o a)) b ≡ later (some (later o b)) a
unfolding later
later_comm none a b ne = ground arith
later_comm (some x) a b ne = ground arith

-- The greatest revision among a stored one and two proposed ones, which is one of them.
abbrev pub IsGreatest : Option ClientView → ClientView → ClientView → ClientView → Type 0
IsGreatest old a b e =
    (a.client_rev ≤ e.client_rev)
    × (b.client_rev ≤ e.client_rev)
    × ((x : ClientView) → old ≡ some x → x.client_rev ≤ e.client_rev)
    × ((old ≡ some e) ⊎ (e ≡ a) ⊎ (e ≡ b))

later-IsGreatest :
    (old : Option ClientView) (a b : ClientView) → IsGreatest old a b (later (some (later old a)) b)
unfolding later
later-IsGreatest none a b = (ground arith, ground arith, λ x h. ground arith, ground arith)
later-IsGreatest (some y) a b = (
  ground arith,
  ground arith,
  λ x h. let e = some-injective _ _ h in ground (arith, ap (λ (z : ClientView). z.client_rev) e),
  ground arith,
)

-- Two different revisions of one expense, pushed one after the other in either order (by whatever
-- users and at whatever times the server takes them), leave the same client columns under its id:
-- those of the greatest revision among the two and the one stored before, if any.
pub upsert_row-converges :
    (now₁ now₂ now₃ now₄ : Instant) (u₁ u₂ : Uuid) (r s : Proposed) (t : ExpenseTable)
    → s.id ≡ r.id
    → r.client_rev ≢ s.client_rev
    → (e : ClientView) × (view_of
          (find_row r.id (upsert_row now₂ u₂ s (upsert_row now₁ u₁ r t).0).0.rows)
        ≡ some e)
      × (view_of (find_row r.id (upsert_row now₄ u₁ r (upsert_row now₃ u₂ s t).0).0.rows) ≡ some e)
      × IsGreatest (view_of (find_row r.id t.rows)) (proposed_view r) (proposed_view s) e
upsert_row-converges now₁ now₂ now₃ now₄ u₁ u₂ r s t same ne =
    let first = (upsert_row now₁ u₁ r t).0 in
    let second = (upsert_row now₃ u₂ s t).0 in
    let old = view_of (find_row r.id t.rows) in
    (
      later (some (later old (proposed_view r))) (proposed_view s),
      ground (arith, view-upsert_row now₂ u₂ s first, view-upsert_row now₁ u₁ r t),
      ground (
        arith,
        view-upsert_row now₄ u₁ r second,
        view-upsert_row now₃ u₂ s t,
        later_comm old (proposed_view r) (proposed_view s) ne,
      ),
      later-IsGreatest old (proposed_view r) (proposed_view s),
    )

-- `amount_base` is absent, or the conversion of the row's amount, currency and time.
abbrev pub IsBaseOf : (Uuid → ℤ → String → Instant → Option ℤ) → Expense → Type 0
IsBaseOf f e =
    (e.amount_base ≡ none)
    ⊎ (e.amount_base ≡ f e.user_id e.amount_original e.currency_original e.spent_at)

not_stale :
    (old : Expense) (r : Proposed)
    → amount_base_is_stale old r ≡ false
    → (old.amount_original ≡ r.amount_original)
      × (old.currency_original ≡ r.currency_original)
      × (old.spent_at ≡ r.spent_at)
unfolding amount_base_is_stale
not_stale old r h = (
  (eq_ℤ_iff old.amount_original r.amount_original).0 (ground arith),
  (eq_iff old.currency_original r.currency_original).0 (ground arith),
  ground arith,
)

module _ (f : Uuid → ℤ → String → Instant → Option ℤ) where
  updated_row-IsBaseOf :
      (now : Instant) (seq : ℕ) (old : Expense) (r : Proposed)
      → IsBaseOf f old
      → IsBaseOf f (updated_row seq old r)
  unfolding updated_row amount_base_is_stale
  updated_row-IsBaseOf now seq old r h = elim (Bool-cases (amount_base_is_stale old r)) [
    | inl stale ↦ rw stale (inl refl)
    | inr fresh ↦
        let parts = not_stale old r fresh in
        rw fresh (elim h [ inl n ↦ inl n | inr e ↦ inr (cc (parts.0, parts.1, parts.2)) ])
  ]

  put_row-IsBaseOf :
      (e : Expense) (rows : List Expense)
      → IsBaseOf f e
      → All (IsBaseOf f) rows
      → All (IsBaseOf f) (put_row e rows)
  unfolding put_row
  put_row-IsBaseOf e [] h a = (h, tt)
  put_row-IsBaseOf e (x ∷ xs) h a = elim (Bool-cases (x.id == e.id)) [
    | inl same ↦ rw same (h, a.1)
    | inr other ↦ rw other (a.0, put_row-IsBaseOf e xs h a.1)
  ]

  find_row-IsBaseOf :
      (j : Uuid) (rows : List Expense) (e : Expense)
      → All (IsBaseOf f) rows
      → find_row j rows ≡ some e
      → IsBaseOf f e
  unfolding find_row
  find_row-IsBaseOf j [] e a h = cc
  find_row-IsBaseOf j (x ∷ xs) e a h = elim (Bool-cases (x.id == j)) [
    | inl same ↦
        subst (λ (y : Expense). IsBaseOf f y) (some-injective _ _ (rw (same, find_row) at h)) a.0
    | inr other ↦ find_row-IsBaseOf j xs e a.1 (rw (other, find_row) at h)
  ]

  upsert_found-IsBaseOf :
      (now : Instant) (u : Uuid) (r : Proposed) (t : ExpenseTable) (o : Option Expense)
      → find_row r.id t.rows ≡ o
      → All (IsBaseOf f) t.rows
      → All (IsBaseOf f) (upsert_found now u r t o).0.rows
  unfolding upsert_found
  upsert_found-IsBaseOf now u r t none h a =
      put_row-IsBaseOf (inserted_row now u t.next_seq r) t.rows (unfold inserted_row in (inl refl))
        a
  upsert_found-IsBaseOf now u r t (some old) h a =
      elim (Bool-cases (ltb old.client_rev r.client_rev)) [
        | inl newer ↦ rw newer (
            put_row-IsBaseOf (updated_row (t.next_seq + 1) old r) t.rows
              (updated_row-IsBaseOf now (t.next_seq + 1) old r
                (find_row-IsBaseOf r.id t.rows old a h))
              a)
        | inr older ↦ rw older a
      ]

  -- The statement keeps the amounts in the base currency consistent.
  pub upsert_rows-IsBaseOf :
      (now : Instant) (u : Uuid) (w : List Uuid) (rs : List Proposed) (t t' : ExpenseTable)
      (outs : List Returned)
      → upsert_rows now u w rs t ≡ ok (t', outs)
      → All (IsBaseOf f) t.rows
      → All (IsBaseOf f) t'.rows
  unfolding upsert_rows upsert_row
  upsert_rows-IsBaseOf now u w [] t t' outs h a =
      subst (λ (x : ExpenseTable). All (IsBaseOf f) x.rows) (ok_pair h).0 a
  upsert_rows-IsBaseOf now u w (r ∷ rs) t t' outs h a =
      let (t₁, out) = upsert_row now u r t in
      let (rest, e, _) = upsert_rows_cons now u w r rs t h in
      upsert_rows-IsBaseOf now u (returned_ids out w) rs t₁ t' rest e
        (upsert_found-IsBaseOf now u r t (find_row r.id t.rows) refl a)
