-- ===== src/Metering/Usage.antt =====
-- app/services/metering/usage.py: one counter for each user and period, on `usage_counters`.
pub mod Counts
use voice_spend.Prelude.{
  ℕ, zero, suc, ◌+◌, ◌^◌, String, Bool, true, false, ◌&&◌, Option, none, some, List, [], ◌∷◌,
  Result, ok, err, ltb, ◌==◌, str_eq, or_else, if◌then◌else◌,
}
use voice_spend.Models.{Uuid, Instant, UsageCounter}
use voice_spend.Http.{DbError, out_of_range, Env}

-- current_period(now)
unfoldable pub current_period : Env → Option Instant → String
current_period env now = env.strftime_year_month (or_else now env.now)

abbrev is_counter_of : Uuid → String → UsageCounter → Bool
is_counter_of user_id period c = c.user_id == user_id && str_eq c.period period

-- get_usage_count: 0 where there is no counter
unfoldable pub get_usage_count : List UsageCounter → Uuid → String → ℕ
get_usage_count [] user_id period = 0
get_usage_count (c ∷ cs) user_id period =
    let rest = get_usage_count cs user_id period in
    if is_counter_of user_id period c then c.log_count else rest

-- INSERT ... ON CONFLICT (user_id, period) DO UPDATE SET log_count = log_count + n
unfoldable pub add_count : Env → Uuid → String → ℕ → List UsageCounter → List UsageCounter
add_count env user_id period n [] =
    record {
      id = env.uuid4;
      user_id = user_id;
      period = period;
      log_count = n;
      created_at = env.now;
      updated_at = env.now;
    }
    ∷ []
add_count env user_id period n (c ∷ cs) =
    let rest = add_count env user_id period n cs in
    if is_counter_of user_id period c
    then record c { log_count = c.log_count + n; updated_at = env.now } ∷ cs
    else c ∷ rest

-- increment_usage: nothing for n = 0; log_count is an INTEGER, and a sum past its range aborts
unfoldable pub increment_usage :
    Env → Uuid → String → ℕ → List UsageCounter → Result DbError (List UsageCounter)
increment_usage env user_id period zero counters = ok counters
increment_usage env user_id period (suc n) counters =
    if ltb (get_usage_count counters user_id period + suc n) (2 ^ 31)
    then ok (add_count env user_id period (suc n) counters)
    else err out_of_range
