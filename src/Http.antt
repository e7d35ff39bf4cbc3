-- ===== src/Http.antt =====
-- What a request may raise, the counters that a handler increments (app/core/metrics.py), the
-- state that a handler works on, and what a request reads of its surroundings.
use voice_spend.Prelude.{
  ℕ, zero, suc, String, Bool, ◌&&◌, Option, List, [], ◌∷◌, ◌++◌, Result, ok, err, str_eq,
  if◌then◌else◌,
}
use voice_spend.Prelude.Int.{ℤ}
use voice_spend.Decimal.{ArithmeticError}
use voice_spend.Models.{Uuid, Instant, Db}

-- The statements that the database refuses: a number or a text that its column cannot hold, and an
-- ON CONFLICT DO UPDATE that would reach one row twice.
pub data DbError : Type 0 where
  out_of_range cardinality_violation value_too_long : DbError

-- `http` is a raised HTTPException, `invalid_request` the 422 for a body or parameter that fails
-- its declared constraints, and the others escape the handler and become a 500; `uncaught` is any
-- exception of a library that the program does not name.
pub data Failure : Type 0 where
  http : ℕ → String → Failure
  retry_after : ℕ → Failure
  invalid_request : Failure
  type_error : Failure
  uncaught : String → Failure
  no_result_found : Failure
  value_error : Failure
  database : DbError → Failure
  arithmetic : ArithmeticError → Failure

pub data Metric : Type 0 where
  sync_push_records : String → ℕ → Metric
  sync_push_new : ℕ → Metric
  webhook_events : String → String → Metric
  rate_limited : String → Metric
  rate_limiter_redis_errors : Metric
  parse_requests : String → String → String → Metric
  parse_latency : String → String → Metric
  parse_llm_cost : String → String → ℕ → Metric
  parse_tokens : String → String → String → ℕ → Metric
  http_request_duration : String → String → ℕ → Metric
  fx_ingest_succeeded : Metric
  fx_ingest_failures : Metric

-- record_sync_push_result: nothing for a count of zero
unfoldable pub record_sync_push_result : String → ℕ → List Metric
record_sync_push_result result zero = []
record_sync_push_result result (suc n) = sync_push_records result (suc n) ∷ []

-- record_sync_push_new: nothing for a count of zero
unfoldable pub record_sync_push_new : ℕ → List Metric
record_sync_push_new zero = []
record_sync_push_new (suc n) = sync_push_new (suc n) ∷ []

pub record World : Type 0 where
  pub db : Db
  pub metrics : List Metric

unfoldable pub emit : List Metric → World → World
emit ms w = record w { metrics = w.metrics ++ ms }

-- The transaction's clock, `strftime("%Y-%m")`, and the UUID that a `uuid4()` call draws.
pub record Env : Type 0 where
  pub now : Instant
  pub strftime_year_month : Instant → String
  pub uuid4 : Uuid

-- A `datetime`: the microseconds that its clock shows, and the seconds by which that clock is ahead
-- of UTC, where it says so.
pub record DateTime : Type 0 where
  pub wall : ℕ
  pub tzinfo : Option ℤ

-- Python's own operations on texts and times, of which the program uses the results: methods of
-- `str`, `str(n)`, `sorted` on texts, `UUID(text)` and `datetime.fromisoformat(text)` (`none` where they raise
-- ValueError), and `datetime.fromtimestamp(ms / 1000, tz=UTC)` (`none` where it raises).
-- `hmac.compare_digest` raises TypeError on a text that is not ASCII, and otherwise answers whether
-- the texts are equal.
pub record Python : Type 0 where
  pub upper : String → String
  pub lower : String → String
  pub strip : String → String
  pub casefold : String → String
  pub is_alpha : String → Bool
  pub str_of_int : ℕ → String
  pub is_ascii : String → Bool
  pub sorted : List String → List String
  pub uuid : String → Option Uuid
  pub from_timestamp_ms : ℤ → Option Instant
  pub fromisoformat : String → Option DateTime

unfoldable pub compare_digest : Python → String → String → Result Failure Bool
compare_digest py a b = if py.is_ascii a && py.is_ascii b then ok (str_eq a b) else err type_error
