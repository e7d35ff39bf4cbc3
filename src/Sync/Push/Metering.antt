-- ===== src/Sync/Push/Metering.antt =====
-- The usage counters after a push.
use voice_spend.Prelude.{
  ℕ, ◌+◌, String, ◌≡◌, inl, inr, ◌&&◌, List, [], none, ok, arith, ltb, length, ◌==◌, str_eq,
  if◌then◌else◌, Bool-cases,
}
use voice_spend.Models.{Uuid, User}
use voice_spend.Http.{Env, World}
use voice_spend.Metering.Usage.{current_period, get_usage_count}
use voice_spend.Metering.Usage.Counts.{get_usage_count-increment_usage}
use voice_spend.Sync.Validate.{Pydantic, Raw}
use voice_spend.Sync.Upsert.{new_count}
use voice_spend.Sync.Upsert.Results.{length-upsert_rows}
use voice_spend.Sync.Batch.{Batch, empty_batch, read_records}
use voice_spend.Sync.Push.{SyncPushResponse, push_batch, push_sync, max_push_batch_size}
use voice_spend.Sync.Push.Inversion.{push_batch-eq-ok}

push_batch_meters :
    (quota : ℕ) (env : Env) (user : User) (b : Batch) (w : World) {resp : SyncPushResponse}
    {w' : World} (v : Uuid) (q : String)
    → push_batch quota env user b w ≡ (ok resp, w')
    → get_usage_count w'.db.counters v q
        + (if user.id == v && str_eq (current_period env none) q
            then length w.db.expenses.rows
            else 0)
      ≡ get_usage_count w.db.counters v q
        + (if user.id == v && str_eq (current_period env none) q
            then length w'.db.expenses.rows
            else 0)
push_batch_meters quota env user b w {resp} {w'} v q run =
    let (written, x, after, _) = push_batch-eq-ok quota env user b w run in
    let grown =
      length-upsert_rows env.now user.id [] x.vs w.db.expenses written.db.expenses written.returned
        x.upserted in
    let counts =
      get_usage_count-increment_usage env user.id v (current_period env none) q
        (new_count written.returned) w.db.counters written.db.counters x.counted in
    rw after (ground (arith, grown, counts))

module _ (py : Pydantic) where
  -- A push that is answered raises the counter of its user, for the server's current period, by
  -- exactly the number of rows by which `expenses` has grown, and leaves every other counter as it
  -- was.
  pub push_sync-meters :
      (quota : ℕ) (env : Env) (user : User) (records : List (Raw py)) (w w' : World)
      (resp : SyncPushResponse) (v : Uuid) (q : String)
      → push_sync py quota env user records w ≡ (ok resp, w')
      → get_usage_count w'.db.counters v q
          + (if user.id == v && str_eq (current_period env none) q
              then length w.db.expenses.rows
              else 0)
        ≡ get_usage_count w.db.counters v q
          + (if user.id == v && str_eq (current_period env none) q
              then length w'.db.expenses.rows
              else 0)
  unfolding push_sync
  push_sync-meters quota env user records w w' resp v q run =
      elim (Bool-cases (ltb max_push_batch_size (length records))) [
        | inl large ↦ let run' = rw (large, push_sync) at run in cc run'
        | inr fits ↦
            push_batch_meters quota env user (read_records py records empty_batch) w v q
              (rw (fits, push_sync) at run)
      ]
