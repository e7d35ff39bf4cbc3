-- ===== src/Fx/Tasks.antt =====
-- The Celery tasks: app/worker/tasks/fx.py, and the FX metrics of app/core/metrics.py. A task runs to
-- its end against the database, and what it enqueues stands in a queue of messages. Celery's retry is
-- an outcome: it runs the task again while it has retries left.
pub mod Denomination
use voice_spend.Prelude.{
  ℕ, zero, suc, String, Bool, Option, none, some, List, [], ◌∷◌, ◌++◌, map, Result, ok, err, ◌>>=◌,
  str_eq, if◌then◌else◌,
}
use voice_spend.Models.{Uuid, Instant, Date, FxRate, Db}
use voice_spend.Http.{
  Failure, value_error, Metric, fx_ingest_succeeded, fx_ingest_failures, Env, Python,
}
use voice_spend.Fx.Rates.{Values, IngestResult, FxProvider, ingest_snapshot, backfill_range}
use voice_spend.Fx.Recompute.{RecomputeResult, recompute_amount_base, null_amount_base_for_user}

-- recompute_amount_base.delay(user_id, limit)
pub record Message : Type 0 where
  pub user_id : Option Uuid
  pub limit : Option ℕ

pub record Worker : Type 0 where
  pub db : Db
  pub queue : List Message
  pub metrics : List Metric

-- How a task ends: with what it returns, or asking for a retry.
pub data TaskEnd (A : Type 0) : Type 0 where
  returned : A → TaskEnd A
  retry : Failure → TaskEnd A

-- _ingest_daily_async, where `fetched` is what fetch_latest returns or raises
unfoldable pub ingest_daily :
    Python
    → Instant
    → (ℕ → Uuid)
    → FxProvider
    → Result Failure Values
    → Date
    → Db
    → Result Failure (IngestResult × List FxRate)
ingest_daily py now draw provider fetched today db =
    fetched >>= λ values. ingest_snapshot py now draw provider values today db.fx_rates

-- ingest_daily_fx: a failure is counted and retried, a success chains a sweep of all users
unfoldable pub ingest_daily_fx :
    Python
    → Instant
    → (ℕ → Uuid)
    → FxProvider
    → Result Failure Values
    → Date
    → Worker
    → TaskEnd IngestResult × Worker
ingest_daily_fx py now draw provider fetched today w =
    elim (ingest_daily py now draw provider fetched today w.db) [
      | err e ↦ (retry e, record w { metrics = w.metrics ++ fx_ingest_failures ∷ [] })
      | ok (result, rates) ↦ (
        returned result,
        record {
          db = record w.db { fx_rates = rates };
          queue = w.queue ++ record { user_id = none; limit = none } ∷ [];
          metrics = w.metrics ++ fx_ingest_succeeded ∷ [];
        },
      )
    ]

abbrev written_row : IngestResult → Date × ℕ
written_row r = (r.rate_date, r.currencies_written)

abbrev written_rows : Result Failure (List IngestResult) → Result Failure (List (Date × ℕ))
written_rows (ok results) = ok (map written_row results)
written_rows (err e) = err e

-- backfill_fx_range, with date.fromisoformat as an argument
unfoldable pub backfill_fx_range :
    Python
    → Instant
    → (Date → ℕ → Uuid)
    → FxProvider
    → (String → Option Date)
    → String
    → String
    → Worker
    → Result Failure (List (Date × ℕ)) × Worker
backfill_fx_range py now draw provider date_of_iso start_iso end_iso w =
    elim (date_of_iso start_iso) [
      | none ↦ (err value_error, w)
      | some start ↦ elim (date_of_iso end_iso) [
        | none ↦ (err value_error, w)
        | some end ↦
            let (results, rates) = backfill_range py now draw provider start end w.db.fx_rates in
            (written_rows results, record w { db = record w.db { fx_rates = rates } })
      ]
    ]

-- The task recompute_amount_base, for a message of the queue. A failure leaves the database.
unfoldable pub run_recompute :
    ℕ → Instant → Message → Worker → Result Failure RecomputeResult × Worker
run_recompute batch now m w = elim (recompute_amount_base batch now m.user_id m.limit w.db) [
  | err e ↦ (err e, w)
  | ok (result, db) ↦ (ok result, record w { db = db })
]

-- enqueue_recompute_for_user
unfoldable pub enqueue_recompute_for_user : Uuid → Worker → Worker
enqueue_recompute_for_user user_id w = record w {
  queue = w.queue ++ record { user_id = some user_id; limit = none } ∷ [];
}

-- handle_base_currency_changed: the rows that lost their base amount
unfoldable pub handle_base_currency_changed : Instant → Uuid → Worker → ℕ × Worker
handle_base_currency_changed now user_id w =
    let (count, db) = null_amount_base_for_user now user_id w.db in
    (count, enqueue_recompute_for_user user_id (record w { db = db }))
