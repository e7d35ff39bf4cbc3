-- ===== src/Sync/Push/Staleness.antt =====
-- The amounts in the base currency after a push.
use voice_spend.Prelude.{
  ◌≡◌, ℕ, String, inl, inr, Option, List, ok, All, ltb, length, Bool-cases, [],
}
use voice_spend.Prelude.Int.{ℤ}
use voice_spend.Models.{Uuid, Instant, User}
use voice_spend.Http.{Env, World}
use voice_spend.Sync.Validate.{Pydantic, Raw}
use voice_spend.Sync.Upsert.Merge.{IsBaseOf, upsert_rows-IsBaseOf}
use voice_spend.Sync.Batch.{Batch, empty_batch, read_records}
use voice_spend.Sync.Push.{SyncPushResponse, push_batch, push_sync, max_push_batch_size}
use voice_spend.Sync.Push.Inversion.{push_batch-eq-ok}

push_batch-IsBaseOf :
    (f : Uuid → ℤ → String → Instant → Option ℤ) (quota : ℕ) (env : Env) (user : User) (b : Batch)
    (w : World) {resp : SyncPushResponse} {w' : World}
    → push_batch quota env user b w ≡ (ok resp, w')
    → All (IsBaseOf f) w.db.expenses.rows
    → All (IsBaseOf f) w'.db.expenses.rows
push_batch-IsBaseOf f quota env user b w run a =
    let (written, x, after, _) = push_batch-eq-ok quota env user b w run in
    rw after (
      upsert_rows-IsBaseOf f env.now user.id [] x.vs w.db.expenses written.db.expenses
        written.returned x.upserted a)

module _ (py : Pydantic) where
  -- For any conversion that depends on a row's user, amount, currency and time: if in every row
  -- `amount_base` is absent or the conversion of the row, then so it is after a push that is
  -- answered.
  pub push_sync-IsBaseOf :
      (f : Uuid → ℤ → String → Instant → Option ℤ) (quota : ℕ) (env : Env) (user : User)
      (records : List (Raw py)) (w w' : World) (resp : SyncPushResponse)
      → push_sync py quota env user records w ≡ (ok resp, w')
      → All (IsBaseOf f) w.db.expenses.rows
      → All (IsBaseOf f) w'.db.expenses.rows
  unfolding push_sync
  push_sync-IsBaseOf f quota env user records w w' resp run a =
      elim (Bool-cases (ltb max_push_batch_size (length records))) [
        | inl large ↦ let run' = rw (large, push_sync) at run in cc run'
        | inr fits ↦
            push_batch-IsBaseOf f quota env user (read_records py records empty_batch) w
              (rw (fits, push_sync) at run) a
      ]
