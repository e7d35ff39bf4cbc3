-- ===== src/Fx/Tasks/Denomination.antt =====
-- In which currency a base amount stands after a change of the base currency and a sweep:
-- app/worker/tasks/fx.py and app/services/fx/recompute.py.
use voice_spend.Prelude.{
  ℕ, zero, suc, ◌+◌, String, ◌≡◌, refl, ap, sym, subst, ◌∙◌, ◌⊎◌, inl, inr, Bool, true, false, ◌&&◌,
  Option, none, some, List, [], ◌∷◌, Result, ok, Result-cases, arith, ltb, ◌==◌, ==_iff, Bool-cases,
  Option-cases, is_some, All, All-map, elem, Distinct, take,
}
use mathlib.Core.Option.{some-injective}
use voice_spend.Prelude.Int.{ℤ}
use voice_spend.Decimal.{finite, to_numeric}
use voice_spend.Models.{Uuid, Instant, User, Expense, ExpenseTable, FxRate, Db, date_of}
use voice_spend.Http.{Failure}
use voice_spend.Sync.Upsert.{find_row, put_row}
use voice_spend.Sync.Upsert.Sequence.{row_ids}
use voice_spend.Fx.Convert.{convert}
use voice_spend.Fx.Recompute.{
  Pending, user_with, is_pending, insert_by_age, pending, rebased, set_amount_base, recompute_row,
  recompute_rows, RecomputeResult, batch_size, recompute_amount_base, null_rows,
  null_amount_base_for_user,
}
use voice_spend.Fx.Sweep.{kept, kept_row, recompute_row-kept}
use voice_spend.System.Reset.{null_rows-row_ids}
use voice_spend.Fx.Tasks.{
  Message, Worker, run_recompute, enqueue_recompute_for_user, handle_base_currency_changed,
}

owner_kept :
    (a b : Option Expense) (e : Expense)
    → kept_row a ≡ kept_row b
    → a ≡ some e
    → (x : Expense) × (b ≡ some x) × (x.user_id ≡ e.user_id)
unfolding kept_row kept
owner_kept a none e h found = let h' = rw found at h in cc h'
owner_kept a (some x) e h found =
    let h' = rw found at h in
    (x, refl, ap (λ (y : Expense). y.user_id) (some-injective _ _ (sym h')))

All-take : {A : Type 0} (P : A → Type 0) (n : ℕ) (xs : List A) → All P xs → All P (take n xs)
All-take P zero xs h = tt
All-take P (suc n) [] h = tt
All-take P (suc n) (x ∷ xs) h = (h.0, All-take P n xs h.1)

-- The rows of one user, whose base currency is `code`.
module _ (user_id : Uuid) (code : String) where
  -- A row of the user has no base amount, or one in the base currency.
  abbrev pub IsDenominated : Expense → Type 0
  IsDenominated e = e.user_id ≡ user_id → (e.amount_base ≡ none) ⊎ (e.currency_base ≡ some code)

  null_rows-IsDenominated :
      (now : Instant) (rows : List Expense) (seq : ℕ)
      → All IsDenominated (null_rows now user_id rows seq).1
  unfolding null_rows rebased
  null_rows-IsDenominated now [] seq = tt
  null_rows-IsDenominated now (e ∷ es) seq =
      elim (Bool-cases (e.user_id == user_id && is_some e.amount_base)) [
        | inl hit ↦
            rw (hit, null_rows) ((λ mine. inl refl), null_rows-IsDenominated now es (seq + 1))
        | inr miss ↦
            rw (miss, null_rows) ((λ mine. inl (ground arith)), null_rows-IsDenominated now es seq)
      ]

  -- What is stored under the id of a pending row is the user's only if the row's currency is the user's.
  abbrev IsQuoted : List Expense → Pending → Type 0
  IsQuoted rows p =
      (e : Expense) → find_row p.id rows ≡ some e → e.user_id ≡ user_id → p.base_currency ≡ code

  abbrev IsPriced : List Expense → Pending → Type 0
  IsPriced rows p = (elem p.id (row_ids rows) ≡ true) × IsQuoted rows p

  insert_by_age-All :
      (P : Pending → Type 0) (p : Pending) (ps : List Pending)
      → P p
      → All P ps
      → All P (insert_by_age p ps)
  unfolding insert_by_age
  insert_by_age-All P p [] h hs = (h, tt)
  insert_by_age-All P p (q ∷ qs) h hs = elim (Bool-cases (ltb q.created_at p.created_at)) [
    | inl older ↦ rw (older) (hs.0, insert_by_age-All P p qs h hs.1)
    | inr newer ↦ rw (newer) (h, hs)
  ]

  IsPriced-cons :
      (e : Expense) (es : List Expense) (ps : List Pending)
      → elem e.id (row_ids es) ≡ false
      → All (IsPriced es) ps
      → All (IsPriced (e ∷ es)) ps
  unfolding find_row
  IsPriced-cons e es [] fresh hs = tt
  IsPriced-cons e es (p ∷ ps) fresh ((there, priced), hs) =
      ((ground arith, λ x found mine. priced x (ground arith) mine), IsPriced-cons e es ps fresh hs)

  find_row-first : (e x : Expense) (es : List Expense) → find_row e.id (e ∷ es) ≡ some x → e ≡ x
  unfolding find_row
  find_row-first e x es h = ground (arith, ==_iff e.id e.id)

  pending-IsPriced :
      (who : Option Uuid) (users : List User) (u : User) (rows : List Expense)
      → user_with user_id users ≡ some u
      → u.base_currency ≡ code
      → Distinct (row_ids rows)
      → All (IsPriced rows) (pending who users rows)
  unfolding pending find_row
  pending-IsPriced who users u [] owner base d = tt
  pending-IsPriced who users u (e ∷ es) owner base d =
      let rest =
        IsPriced-cons e es (pending who users es) d.0
          (pending-IsPriced who users u es owner base d.1) in
      elim (Option-cases (user_with e.user_id users)) [
        | inl missing ↦ rw (missing, pending) rest
        | inr (v, found) ↦ elim (Bool-cases (is_pending who e)) [
          | inr settled ↦ rw (found, pending, settled) rest
          | inl open_row ↦
              rw (found, pending, open_row)
                (insert_by_age-All (IsPriced (e ∷ es)) _ (pending who users es)
                  (
                    ground arith,
                    λ x same mine.
                        let own =
                          ap (λ (y : Expense). y.user_id) (find_row-first e x es same) ∙ mine in
                        let who_owns = sym found ∙ ap (λ k. user_with k users) own ∙ owner in
                        ap (λ (y : User). y.base_currency) (some-injective _ _ who_owns) ∙ base,
                  )
                  rest)
        ]
      ]

  put_row-IsDenominated :
      (e : Expense) (rows : List Expense)
      → IsDenominated e
      → All IsDenominated rows
      → All IsDenominated (put_row e rows)
  unfolding put_row
  put_row-IsDenominated e [] h a = (h, tt)
  put_row-IsDenominated e (x ∷ xs) h a = elim (Bool-cases (x.id == e.id)) [
    | inl same ↦ rw same (h, a.1)
    | inr other ↦ rw other (a.0, put_row-IsDenominated e xs h a.1)
  ]

  set_amount_base-IsDenominated :
      (now : Instant) (p : Pending) (amount : ℤ) (t : ExpenseTable)
      → IsQuoted t.rows p
      → All IsDenominated t.rows
      → All IsDenominated (set_amount_base now p.id amount p.base_currency t).rows
  unfolding set_amount_base rebased
  set_amount_base-IsDenominated now p amount t priced a =
      elim (Option-cases (find_row p.id t.rows)) [
        | inl missing ↦ rw (set_amount_base, missing) a
        | inr (e, found) ↦
            rw (set_amount_base, found)
              (put_row-IsDenominated (rebased now (some amount) (some p.base_currency) t.next_seq e)
                t.rows (λ mine. inr (ap some (priced e found mine))) a)
      ]

  recompute_row-IsDenominated :
      (now : Instant) (rates : List FxRate) (p : Pending) (t after : ExpenseTable) (filled : Bool)
      → recompute_row now rates p t ≡ ok (filled, after)
      → IsQuoted t.rows p
      → All IsDenominated t.rows
      → All IsDenominated after.rows
  unfolding recompute_row
  recompute_row-IsDenominated now rates p t after filled h priced a =
      let answer =
        convert rates (finite p.amount_original 4) p.currency_original p.base_currency
          (date_of p.spent_at) in
      elim (Result-cases answer) [
        | inl (e, raised) ↦ absurd (ground arith)
        | inr (found, answered) ↦ elim (Option-cases found) [
          | inl missing ↦
              let same : t ≡ after = ground arith in
              subst (λ (x : ExpenseTable). All IsDenominated x.rows) same a
          | inr (amount, known) ↦ elim (Option-cases (to_numeric 18 4 amount)) [
            | inl over ↦ absurd (ground arith)
            | inr (units, fits) ↦
                let same : set_amount_base now p.id units p.base_currency t ≡ after =
                  ground arith in
                subst (λ (x : ExpenseTable). All IsDenominated x.rows) same
                  (set_amount_base-IsDenominated now p units t priced a)
          ]
        ]
      ]

  IsQuoted-kept :
      (before after : List Expense) (ps : List Pending)
      → ((j : Uuid) → kept_row (find_row j after) ≡ kept_row (find_row j before))
      → All (IsQuoted before) ps
      → All (IsQuoted after) ps
  IsQuoted-kept before after [] keeps hs = tt
  IsQuoted-kept before after (p ∷ ps) keeps (h, hs) = (
    λ e found mine.
        let (x, there, same) =
          owner_kept (find_row p.id after) (find_row p.id before) e (keeps p.id) found in
        h x there (same ∙ mine),
    IsQuoted-kept before after ps keeps hs,
  )

  recompute_rows-IsDenominated :
      (now : Instant) (rates : List FxRate) (ps : List Pending) (t after : ExpenseTable) (n : ℕ)
      → recompute_rows now rates ps t ≡ ok (n, after)
      → All (IsQuoted t.rows) ps
      → All IsDenominated t.rows
      → All IsDenominated after.rows
  unfolding recompute_rows
  recompute_rows-IsDenominated now rates [] t after n h qs a =
      let same : t ≡ after = cc in subst (λ (x : ExpenseTable). All IsDenominated x.rows) same a
  recompute_rows-IsDenominated now rates (p ∷ ps) t after n h (q, qs) a =
      elim (Result-cases (recompute_row now rates p t)) [
        | inl (e, raised) ↦ absurd (ground arith)
        | inr ((filled, t₁), first) ↦ elim (Result-cases (recompute_rows now rates ps t₁)) [
          | inl (e, raised) ↦ absurd (ground arith)
          | inr ((m, t₂), rest) ↦
              let same : t₂ ≡ after = ground arith in
              subst (λ (x : ExpenseTable). All IsDenominated x.rows) same
                (recompute_rows-IsDenominated now rates ps t₁ t₂ m rest
                  (IsQuoted-kept t.rows t₁.rows ps
                    (recompute_row-kept now rates p t t₁ filled first) qs)
                  (recompute_row-IsDenominated now rates p t t₁ filled first q a))
        ]
      ]

  recompute_amount_base-IsDenominated :
      (batch : ℕ) (now : Instant) (who : Option Uuid) (limit : Option ℕ) (db after : Db)
      (result : RecomputeResult) (u : User)
      → recompute_amount_base batch now who limit db ≡ ok (result, after)
      → user_with user_id db.users ≡ some u
      → u.base_currency ≡ code
      → Distinct (row_ids db.expenses.rows)
      → All IsDenominated db.expenses.rows
      → All IsDenominated after.expenses.rows
  unfolding recompute_amount_base
  recompute_amount_base-IsDenominated batch now who limit db after result u h owner base d a =
      let all = pending who db.users db.expenses.rows in
      let priced = pending-IsPriced who db.users u db.expenses.rows owner base d in
      let rows = take (batch_size batch limit) all in
      elim (Result-cases (recompute_rows now db.fx_rates rows db.expenses)) [
        | inl (e, raised) ↦ absurd (ground arith)
        | inr ((n, t), done) ↦
            let same : t ≡ after.expenses = ground arith in
            subst (λ (x : ExpenseTable). All IsDenominated x.rows) same
              (recompute_rows-IsDenominated now db.fx_rates rows db.expenses t n done
                (All-take (IsQuoted db.expenses.rows) (batch_size batch limit) all (
                  All-map (IsPriced db.expenses.rows) (IsQuoted db.expenses.rows) (λ p q. q.1) all
                    priced))
                a)
      ]

  run_recompute-IsDenominated :
      (batch : ℕ) (now : Instant) (m : Message) (w w' : Worker) (r : Result Failure RecomputeResult)
      (u : User)
      → run_recompute batch now m w ≡ (r, w')
      → user_with user_id w.db.users ≡ some u
      → u.base_currency ≡ code
      → Distinct (row_ids w.db.expenses.rows)
      → All IsDenominated w.db.expenses.rows
      → All IsDenominated w'.db.expenses.rows
  unfolding run_recompute
  run_recompute-IsDenominated batch now m w w' r u h owner base d a =
      elim (Result-cases (recompute_amount_base batch now m.user_id m.limit w.db)) [
        | inl (e, raised) ↦
            let same : w ≡ w' = ground arith in
            subst (λ (x : Worker). All IsDenominated x.db.expenses.rows) same a
        | inr ((result, db), done) ↦
            let same : record w { db = db } ≡ w' = ground arith in
            subst (λ (x : Worker). All IsDenominated x.db.expenses.rows) same
              (recompute_amount_base-IsDenominated batch now m.user_id m.limit w.db db result u done
                owner base d a)
      ]

-- After the handling of a change of a user's base currency, and after any sweep that a worker runs
-- then, whether it succeeds or fails, no row of the user has a base amount in another currency than
-- the new one. Ids differ, and the user is stored with the new currency.
pub handle_base_currency_changed-IsDenominated :
    (batch : ℕ) (now later : Instant) (m : Message) (w w' : Worker)
    (r : Result Failure RecomputeResult) (u : User) (user_id : Uuid)
    → user_with user_id w.db.users ≡ some u
    → Distinct (row_ids w.db.expenses.rows)
    → run_recompute batch later m (handle_base_currency_changed now user_id w).1 ≡ (r, w')
    → All
        (IsDenominated user_id u.base_currency)
        (handle_base_currency_changed now user_id w).1.db.expenses.rows
      × All (IsDenominated user_id u.base_currency) w'.db.expenses.rows
unfolding handle_base_currency_changed enqueue_recompute_for_user null_amount_base_for_user
handle_base_currency_changed-IsDenominated batch now later m w w' r u user_id owner d h =
    let rows = w.db.expenses.rows in
    let seq = w.db.expenses.next_seq in
    let code = u.base_currency in
    let a = null_rows-IsDenominated user_id code now rows seq in
    (
      a,
      run_recompute-IsDenominated user_id code batch later m
          (handle_base_currency_changed now user_id w).1 w' r u h owner refl
          (subst Distinct (sym (null_rows-row_ids now user_id rows seq)) d) a,
    )
