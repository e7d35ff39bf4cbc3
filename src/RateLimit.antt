-- ===== src/RateLimit.antt =====
-- The per-device limiter of /parse and /transcribe: app/services/ratelimit/limiter.py and
-- app/services/ratelimit/dependency.py. Redis is the list of its live and lapsed counters; the
-- script runs as one step at a millisecond of the server's clock.
pub mod Windows
pub mod Admission
pub mod Retry
use voice_spend.Prelude.{
  ℕ, ◌+◌, ◌-◌, ◌*◌, ◌/◌, String, Bool, true, false, ◌&&◌, ◌||◌, Option, none, some, List, [], ◌∷◌,
  Result, ok, err, ltb, ◌==◌, str_eq, if◌then◌else◌,
}
use voice_spend.Models.{Uuid, Device, User}
use voice_spend.Http.{
  Failure, http, retry_after, Metric, rate_limited, rate_limiter_redis_errors, World, emit, Python,
}
use voice_spend.Sync.Batch.{owns_device}

-- The part of a key behind `rl:parse:`: `device:{id}` or `user:{id}`, and the window's seconds.
pub data Scope : Type 0 where
  device : Uuid → Scope
  user : Uuid → Scope

abbrev pub same_scope : Scope → Scope → Bool
same_scope (device a) (device b) = a == b
same_scope (user a) (user b) = a == b
same_scope _ _ = false

-- A counter, and the millisecond at which it lapses.
pub record Counter : Type 0 where
  pub scope : Scope
  pub window : ℕ
  pub count : ℕ
  pub expires : ℕ

abbrev pub Redis : Type 0
Redis = List Counter

abbrev pub is_key : Scope → ℕ → Counter → Bool
is_key scope window c = same_scope c.scope scope && c.window == window

-- The live counter of a key.
unfoldable pub live : ℕ → Scope → ℕ → Redis → Option Counter
live now scope window [] = none
live now scope window (c ∷ cs) =
    let rest = live now scope window cs in
    if is_key scope window c then if ltb now c.expires then some c else none else rest

unfoldable pub store_counter : Counter → Redis → Redis
store_counter c [] = c ∷ []
store_counter c (x ∷ xs) =
    let rest = store_counter c xs in if is_key c.scope c.window x then c ∷ xs else x ∷ rest

-- INCR, PEXPIRE where the counter is new, PTTL.
unfoldable pub incremented : ℕ → Scope → ℕ → Option Counter → Counter
incremented now scope window none = record {
  scope = scope;
  window = window;
  count = 1;
  expires = now + window * 1000;
}
incremented now scope window (some c) = record c { count = c.count + 1 }

-- hit: the counter after the increment, and the milliseconds that it has left
unfoldable pub hit : ℕ → Scope → ℕ → Redis → (ℕ × ℕ) × Redis
hit now scope window redis =
    let c = incremented now scope window (live now scope window redis) in
    ((c.count, c.expires - now), store_counter c redis)

-- _resolve_scope, with the X-Device-Id header
unfoldable pub resolve_scope : Python → Option String → User → List Device → Scope
resolve_scope py none u devices = user u.id
resolve_scope py (some raw) u devices = if str_eq raw "" then user u.id else elim (py.uuid raw) [
  | none ↦ user u.id
  | some id ↦ if owns_device u.id devices id then device id else user u.id
]

pub record Limits : Type 0 where
  pub per_minute : ℕ
  pub per_day : ℕ
  pub fail_open : Bool

abbrev pub minute : ℕ
minute = 60

abbrev pub day : ℕ
day = 86400

-- max(1, (ttl_ms + 999) // 1000)
unfoldable pub retry_seconds : ℕ → ℕ
retry_seconds ttl = let seconds = (ttl + 999) / 1000 in if ltb 1 seconds then seconds else 1

-- The loop over the decisions: the first window that is over its limit refuses.
unfoldable pub decide : String → List (ℕ × ℕ × ℕ) → Result Failure (Unit {0}) × List Metric
decide endpoint [] = (ok tt, [])
decide endpoint ((count, ttl, limit) ∷ decisions) =
    let rest = decide endpoint decisions in
    if ltb limit count
    then (err (retry_after (retry_seconds ttl)), rate_limited endpoint ∷ [])
    else rest

-- A RedisError at either call: the request passes or is refused, as the setting says.
unfoldable pub redis_failed : Limits → Result Failure (Unit {0}) × List Metric
redis_failed limits = (
  if limits.fail_open then ok tt else err (http 503 "rate limiter temporarily unavailable"),
  rate_limiter_redis_errors ∷ [],
)

-- enforce_parse_rate_limit. The two flags say whether each call of Redis is answered.
unfoldable pub enforce :
    Limits
    → ℕ
    → Bool
    → Bool
    → Scope
    → String
    → Redis
    → (Result Failure (Unit {0}) × List Metric) × Redis
enforce limits now first second scope endpoint redis =
    let ((count, ttl), redis₁) = hit now scope minute redis in
    let ((count_day, ttl_day), redis₂) = hit now scope day redis₁ in
    if first
    then if second
      then (
        decide endpoint
            ((count, ttl, limits.per_minute) ∷ (count_day, ttl_day, limits.per_day) ∷ []),
        redis₂,
      )
      else (redis_failed limits, redis₁)
    else (redis_failed limits, redis)
