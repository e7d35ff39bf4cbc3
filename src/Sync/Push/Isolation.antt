-- ===== src/Sync/Push/Isolation.antt =====
-- A push never reaches another user's rows, and does nothing when it fails.
use voice_spend.Prelude.{
  ℕ, ◌≡◌, ◌≢◌, refl, ap, sym, ◌∙◌, inl, inr, false, Option, none, some, List, arith, All-elem, elem,
  ok, err, Bool-cases, Result, ltb, length,
}
use voice_spend.Models.{Uuid, Expense, User}
use voice_spend.Http.{Env, World, Failure}
use voice_spend.Sync.Validate.{Pydantic, Raw}
use voice_spend.Sync.Upsert.{find_row}
use voice_spend.Sync.Batch.{Batch, is_foreign, empty_batch, read_records}
use voice_spend.Sync.Batch.WellFormed.{record_ids}
use voice_spend.Sync.Push.{
  SyncPushResponse, push_response, push_batch, push_sync, max_push_batch_size,
}
use voice_spend.Sync.Push.Inversion.{checked, push_batch-eq-ok}
use voice_spend.Sync.Push.Shape.{checked-own, Wrote-others}

not-is_foreign :
    (u : Uuid) (o : Option Expense) (e : Expense)
    → o ≡ some e
    → e.user_id ≢ u
    → is_foreign u o ≢ false
unfolding is_foreign
not-is_foreign u none e h ne = λ f. cc
not-is_foreign u (some x) e h ne = λ f. ne (ground arith)

-- A push that raises leaves the whole state as it was.
push_batch-err :
    (quota : ℕ) (env : Env) (user : User) (b : Batch) (w : World) (e : Failure)
    → (push_batch quota env user b w).0 ≡ err e
    → (push_batch quota env user b w).1 ≡ w
unfolding push_batch push_response
push_batch-err quota env user b w e h = ground arith

push_batch-foreign :
    (quota : ℕ) (env : Env) (user : User) (b : Batch) (w : World) (j : Uuid) (e : Expense)
    (r : Result Failure SyncPushResponse) (w' : World)
    → push_batch quota env user b w ≡ (r, w')
    → find_row j w.db.expenses.rows ≡ some e
    → e.user_id ≢ user.id
    → find_row j w'.db.expenses.rows ≡ some e
push_batch-foreign quota env user b w j e (err x) w' run found other =
    let same =
      push_batch-err quota env user b w x
        (ap (λ (p : Result Failure SyncPushResponse × World). p.0) run) in
    let e₁ : w' ≡ w = sym (ap (λ (p : Result Failure SyncPushResponse × World). p.1) run) ∙ same in
    rw e₁ found
push_batch-foreign quota env user b w j e (ok resp) w' run found other =
    let (written, x, after, _) = push_batch-eq-ok quota env user b w run in
    elim (Bool-cases (elem j (record_ids (checked user b w).valid))) [
      | inl named ↦ absurd (
          not-is_foreign user.id (find_row j w.db.expenses.rows) e found other (
            All-elem (λ i. is_foreign user.id (find_row i w.db.expenses.rows) ≡ false)
              (record_ids (checked user b w).valid) j (checked-own user b w) named))
      | inr apart ↦
          rw after
            (Wrote-others env user.id (checked user b w).valid w.db written x j apart ∙ found)
    ]

module _ (py : Pydantic) where
  -- A row of another user reads the same after a push as before it, whatever the push contains and
  -- however it ends.
  pub push_sync-foreign :
      (quota : ℕ) (env : Env) (user : User) (records : List (Raw py)) (w : World) (j : Uuid)
      (e : Expense)
      → find_row j w.db.expenses.rows ≡ some e
      → e.user_id ≢ user.id
      → find_row j (push_sync py quota env user records w).1.db.expenses.rows ≡ some e
  unfolding push_sync
  push_sync-foreign quota env user records w j e found other =
      let b = read_records py records empty_batch in
      let (r, w') = push_batch quota env user b w in
      elim (Bool-cases (ltb max_push_batch_size (length records))) [
        | inl large ↦ rw large found
        | inr fits ↦ rw fits (push_batch-foreign quota env user b w j e r w' refl found other)
      ]
