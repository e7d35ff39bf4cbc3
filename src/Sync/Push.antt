-- ===== src/Sync/Push.antt =====
-- POST /api/v1/sync: `push_sync` of app/api/v1/sync.py, with the schemas of its request and its
-- response (app/schemas/sync.py). An exception before the commit leaves the database as it was.
pub mod Inversion
pub mod Shape
pub mod Isolation
pub mod Replay
pub mod Metering
pub mod Reasons
pub mod Results
pub mod Answers
pub mod Quota
pub mod Delivery
pub mod Duplicates
pub mod Merges
pub mod Staleness
use Prim.Native.Nat.{max}
use voice_spend.Prelude.{
  ℕ, zero, suc, ◌+◌, String, Bool, true, false, Option, none, some, List, [], ◌∷◌, ◌++◌, map,
  Result, ok, err, ◌>>=◌, ltb, ◌==◌, length, if◌then◌else◌,
}
use voice_spend.Prelude.Dict.{Dict, get, values}
use voice_spend.Models.{Uuid, Expense, ExpenseTable, User, UsageCounter, Db}
use voice_spend.Http.{
  DbError, Failure, invalid_request, database, Metric, record_sync_push_result,
  record_sync_push_new, World, emit, Env,
}
use voice_spend.Metering.Usage.{current_period, increment_usage}
use voice_spend.Metering.Signal.{EntitlementSignal, build_entitlement_signal}
use voice_spend.Sync.Validate.{Pydantic, ExpenseSyncIn, Raw}
use voice_spend.Sync.Upsert.{Returned, upsert, applied_seq, new_count}
use voice_spend.Sync.Batch.{Batch, empty_batch, read_records, Checked, check_records}

pub data SyncRecordStatus : Type 0 where
  applied stale_ignored rejected : SyncRecordStatus

abbrev pub status_value : SyncRecordStatus → String
status_value applied = "applied"
status_value stale_ignored = "stale_ignored"
status_value rejected = "rejected"

pub record SyncPushResult : Type 0 where
  pub id : Uuid
  pub status : SyncRecordStatus
  pub reason : Option String
  pub server_seq : Option ℕ

pub record SyncPushResponse : Type 0 where
  pub results : List SyncPushResult
  pub server_high_water : ℕ
  pub entitlement : EntitlementSignal

abbrev pub max_push_batch_size : ℕ
max_push_batch_size = 500

-- _high_water: the greatest server_seq of the user's rows, 0 if there is none
unfoldable pub high_water : Uuid → List Expense → ℕ
high_water user_id [] = 0
high_water user_id (e ∷ es) =
    let rest = high_water user_id es in if e.user_id == user_id then max e.server_seq rest else rest

-- The answer for one id of `order`.
unfoldable pub result_for : Dict String → List Returned → Uuid → SyncPushResult
result_for rejects returned id = elim (get rejects id) [
  | some reason ↦ record { id = id; status = rejected; reason = some reason; server_seq = none }
  | none ↦ elim (applied_seq returned id) [
    | some seq ↦ record { id = id; status = applied; reason = none; server_seq = some seq }
    | none ↦ record { id = id; status = stale_ignored; reason = none; server_seq = none }
  ]
]

abbrev same_status : SyncRecordStatus → SyncRecordStatus → Bool
same_status applied applied = true
same_status stale_ignored stale_ignored = true
same_status rejected rejected = true
same_status _ _ = false

-- result_counts: the number of results of each status, in the order of first appearance
unfoldable pub count_status :
    SyncRecordStatus → List (SyncRecordStatus × ℕ) → List (SyncRecordStatus × ℕ)
count_status s [] = (s, 1) ∷ []
count_status s ((t, n) ∷ counts) =
    let rest = count_status s counts in
    if same_status t s then (t, n + 1) ∷ counts else (t, n) ∷ rest

unfoldable pub result_counts :
    List SyncPushResult → List (SyncRecordStatus × ℕ) → List (SyncRecordStatus × ℕ)
result_counts [] counts = counts
result_counts (r ∷ rs) counts = result_counts rs (count_status r.status counts)

unfoldable pub count_metrics : List (SyncRecordStatus × ℕ) → List Metric
count_metrics [] = []
count_metrics ((s, n) ∷ counts) = record_sync_push_result (status_value s) n ++ count_metrics counts

-- The statements up to the commit: the upsert, and the counter of the period for the new rows.
pub record Written : Type 0 where
  pub db : Db
  pub returned : List Returned

unfoldable pub write_usage : Env → Uuid → Db → ExpenseTable × List Returned → Result DbError Written
write_usage env user_id db (t, returned) = do
  counters ← increment_usage env user_id (current_period env none) (new_count returned) db.counters
  ok (record { db = record db { expenses = t; counters = counters }; returned = returned })

unfoldable pub write_records : Env → Uuid → List ExpenseSyncIn → Db → Result DbError Written
write_records env user_id [] db = ok (record { db = db; returned = [] })
write_records env user_id (r ∷ rs) db = do
  written ← upsert env.now user_id (r ∷ rs) db.expenses
  write_usage env user_id db written

-- The response, from the state after the commit.
unfoldable pub push_answer : ℕ → Env → User → Dict String → List Uuid → Written → SyncPushResponse
push_answer quota env user rejects order written = record {
  results = map (result_for rejects written.returned) order;
  server_high_water = high_water user.id written.db.expenses.rows;
  entitlement = build_entitlement_signal quota env written.db user;
}

unfoldable pub push_response :
    ℕ
    → Env
    → User
    → Dict String
    → List Uuid
    → Written
    → World
    → Result Failure SyncPushResponse × World
push_response quota env user rejects order written w =
    let answer = push_answer quota env user rejects order written in
    (
      ok answer,
      emit
          (count_metrics (result_counts answer.results [])
            ++ record_sync_push_new (new_count written.returned))
          (record w { db = written.db }),
    )

unfoldable pub push_batch : ℕ → Env → User → Batch → World → Result Failure SyncPushResponse × World
push_batch quota env user b w =
    let c = check_records user.id w.db.devices w.db.expenses.rows (values b.parsed) b.rejects in
    elim (write_records env user.id c.valid w.db) [
      | err e ↦ (err (database e), w)
      | ok written ↦ push_response quota env user c.rejects b.order written w
    ]

module _ (py : Pydantic) where
  -- push_sync, with `quota` for settings.FREE_MONTHLY_LOG_QUOTA
  unfoldable pub push_sync :
      ℕ → Env → User → List (Raw py) → World → Result Failure SyncPushResponse × World
  push_sync quota env user records w =
      if ltb max_push_batch_size (length records)
      then (err invalid_request, w)
      else push_batch quota env user (read_records py records empty_batch) w
