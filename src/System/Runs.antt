-- ===== src/System/Runs.antt =====
-- Runs of the server: what every sequence of pushes, webhook calls, sign-ins, rate ingestions, sweeps
-- and resets keeps of the table of expenses, and what a pull reads afterwards.
use voice_spend.Prelude.{
  ℕ, ◌≤◌, ◌<◌, String, ◌≡◌, ◌≢◌, ap, sym, subst, ◌∙◌, inl, inr, Option, none, some, List, [],
  Result, ok, err, arith, ltb, length, Bool-cases, Option-cases, Result-cases,
}
use voice_spend.Models.{Uuid, Expense, ExpenseTable, User, Db}
use voice_spend.Http.{Failure, World, Env}
use voice_spend.Sync.Validate.{Pydantic, Raw}
use voice_spend.Sync.Batch.{Batch, empty_batch, read_records}
use voice_spend.Sync.Push.{
  SyncPushResponse, max_push_batch_size, write_records, push_response, push_batch, push_sync,
}
use voice_spend.Sync.Push.Inversion.{checked, push_batch-eq-ok}
use voice_spend.Sync.Upsert.{find_row}
use voice_spend.Sync.Upsert.Sequence.{IsSequenced}
use voice_spend.Sync.Pull.{rows_after}
use voice_spend.Sync.Pull.Order.{find_row-rows_after}
use voice_spend.Webhook.Frame.{revenuecat_webhook-Touches}
use voice_spend.Auth.{AuthUser, find_identity, has_email, provision, get_current_db_user}
use voice_spend.System.{Step, Reach, push, webhook, identify, ingest, sweep, reset, here, next}
use voice_spend.System.Advance.{IsMove, Advances, Advances-refl, Advances-trans}
use voice_spend.System.Writes.{upsert_rows-Advances, recompute_amount_base-Advances}
use voice_spend.System.Reset.{null_amount_base_for_user-Advances}

Advances-to : (t t' : ExpenseTable) → t' ≡ t → Advances t t'
Advances-to t t' same = subst (λ (x : ExpenseTable). Advances t x) (sym same) (Advances-refl t)

push_batch-Advances :
    (quota : ℕ) (env : Env) (user : User) (b : Batch) (w w' : World)
    (r : Result Failure SyncPushResponse)
    → push_batch quota env user b w ≡ (r, w')
    → Advances w.db.expenses w'.db.expenses
unfolding push_batch push_response
push_batch-Advances quota env user b w w' (err e) run =
    elim (Result-cases (write_records env user.id (checked user b w).valid w.db)) [
      | inl (e', failed) ↦
          let same : w ≡ w' = ground arith in
          Advances-to w.db.expenses w'.db.expenses (ap (λ (x : World). x.db.expenses) (sym same))
      | inr (written, done) ↦ absurd (ground arith)
    ]
push_batch-Advances quota env user b w w' (ok resp) run =
    let (written, x, after, _) = push_batch-eq-ok quota env user b w run in
    rw after (
      upsert_rows-Advances env.now user.id [] x.vs w.db.expenses written.db.expenses
        written.returned x.upserted)

users_only :
    (env : Env) (auth : AuthUser) (db db' : Db) (r : Result Failure User)
    → get_current_db_user env auth db db ≡ (r, db')
    → db'.expenses ≡ db.expenses
unfolding get_current_db_user provision
users_only env auth db db' r h = elim (Option-cases (find_identity auth.id db.users)) [
  | inr (user, found) ↦ ground arith
  | inl missing ↦ elim (Bool-cases (has_email auth.email db.users)) [
    | inl taken ↦ ground arith
    | inr free ↦ ground arith
  ]
]

module _ (py : Pydantic) where
  push_sync-Advances :
      (quota : ℕ) (env : Env) (user : User) (records : List (Raw py)) (w w' : World)
      (r : Result Failure SyncPushResponse)
      → push_sync py quota env user records w ≡ (r, w')
      → Advances w.db.expenses w'.db.expenses
  unfolding push_sync
  push_sync-Advances quota env user records w w' r run =
      elim (Bool-cases (ltb max_push_batch_size (length records))) [
        | inl large ↦
            let run' = rw (large, push_sync) at run in
            let same : w ≡ w' = cc run' in
            Advances-to w.db.expenses w'.db.expenses (ap (λ (x : World). x.db.expenses) (sym same))
        | inr fits ↦
            push_batch-Advances quota env user (read_records py records empty_batch) w w' r
              (rw (fits, push_sync) at run)
      ]

  Step-Advances : (w w' : World) → Step py w w' → Advances w.db.expenses w'.db.expenses
  Step-Advances w w' (push quota env user records r run) =
      push_sync-Advances quota env user records w w' r run
  Step-Advances w w' (webhook expected env authorization event r run) =
      let t = revenuecat_webhook-Touches py.python expected env authorization event w in
      let after = ap (λ (p : Result Failure String × World). p.1.db.expenses) run in
      Advances-to w.db.expenses w'.db.expenses (sym after ∙ ap (λ (d : Db). d.expenses) t.rest)
  Step-Advances w w' (identify env auth r db run same) =
      Advances-to w.db.expenses w'.db.expenses
        (ap (λ (x : World). x.db.expenses) same ∙ users_only env auth w.db db r run)
  Step-Advances w w' (ingest now draw provider values date result rates run same) =
      Advances-to w.db.expenses w'.db.expenses (ap (λ (x : World). x.db.expenses) same)
  Step-Advances w w' (sweep batch now user_id limit result db run same) =
      subst (λ (x : World). Advances w.db.expenses x.db.expenses) (sym same)
        (recompute_amount_base-Advances batch now user_id limit w.db db result run)
  Step-Advances w w' (reset now user_id same) =
      subst (λ (x : World). Advances w.db.expenses x.db.expenses) (sym same)
        (null_amount_base_for_user-Advances now user_id w.db)

  Reach-Advances : (w w' : World) → Reach py w w' → Advances w.db.expenses w'.db.expenses
  Reach-Advances w w' here = Advances-refl w.db.expenses
  Reach-Advances w w'' (next {w'} run step) =
      Advances-trans (Reach-Advances w w' run) (Step-Advances w' w'' step)

-- What was stored under an id is still stored, for the same owner, at its revision or a later one.
abbrev pub Survives : Option Expense → Option Expense → Type 0
Survives none after = Unit
Survives (some old) none = ⊥
Survives (some old) (some new) = (new.user_id ≡ old.user_id) × (old.client_rev ≤ new.client_rev)

IsMove-Survives : (l h : ℕ) (a b : Option Expense) → IsMove l h a b → Survives a b
IsMove-Survives l h none b m = tt
IsMove-Survives l h (some x) none m = cc
IsMove-Survives l h (some x) (some y) (inl same) = (ground arith, ground arith)
IsMove-Survives l h (some x) (some y) (inr (s, low, high)) = s

late_or_same :
    (l h : ℕ) (a : Option Expense) (e : Expense)
    → IsMove l h a (some e)
    → a ≢ some e
    → l ≤ e.server_seq
late_or_same l h a e (inl same) changed = absurd (changed same)
late_or_same l h a e (inr (s, low, high)) changed = low

Advances-delivered :
    (t t' : ExpenseTable) (j : Uuid) (e : Expense) (since : ℕ)
    → Advances t t'
    → IsSequenced t
    → find_row j t'.rows ≡ some e
    → find_row j t.rows ≢ some e
    → since < t.next_seq
    → find_row j (rows_after e.user_id since t'.rows) ≡ some e
Advances-delivered t t' j e since a s stored changed early =
    let move =
      subst (λ (o : Option Expense). IsMove t.next_seq t'.next_seq (find_row j t.rows) o) stored
        (a.moves j) in
    let late = late_or_same t.next_seq t'.next_seq (find_row j t.rows) e move changed in
    let s' = a.sequenced s in
    ground (arith, find_row-rows_after e.user_id since t'.rows j s'.distinct_ids)

module _ (py : Pydantic) where
  -- However the server has run, by pushes, webhook calls, sign-ins, rate ingestions, sweeps and resets
  -- in any order, each answered or failed as its step says: a table of expenses whose ids differ and
  -- whose numbers differ and lie below the sequence's next value has become such a table; what was
  -- stored under an id is still stored, for the same owner and at its revision or a later one; and
  -- every row that was added or changed meanwhile is read by a pull of its owner from any cursor below
  -- the value that the sequence had at the start.
  pub Reach-delivered :
      (w w' : World)
      → Reach py w w'
      → IsSequenced w.db.expenses
      → IsSequenced w'.db.expenses
        × ((j : Uuid) → Survives (find_row j w.db.expenses.rows) (find_row j w'.db.expenses.rows))
        × ((j : Uuid) (e : Expense) (since : ℕ)
            → find_row j w'.db.expenses.rows ≡ some e
            → find_row j w.db.expenses.rows ≢ some e
            → since < w.db.expenses.next_seq
            → find_row j (rows_after e.user_id since w'.db.expenses.rows) ≡ some e)
  Reach-delivered w w' run s =
      let a = Reach-Advances py w w' run in
      let t = w.db.expenses in
      let t' = w'.db.expenses in
      (
        a.sequenced s,
        λ j.
            IsMove-Survives t.next_seq t'.next_seq (find_row j t.rows) (find_row j t'.rows)
              (a.moves j),
        λ j e since. Advances-delivered t t' j e since a s,
      )
