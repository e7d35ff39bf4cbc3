-- ===== src/Metering/Signal/Quota.antt =====
-- When the signal says that a user is over the quota: app/services/metering/signal.py.
use voice_spend.Prelude.{ℕ, ◌≤◌, ◌≡◌, true, false, none, arith, ◌↔◌}
use voice_spend.Models.{User, Db}
use voice_spend.Http.{Env}
use voice_spend.Metering.Usage.{current_period, get_usage_count}
use voice_spend.Metering.Signal.{resolve_entitlement, build_entitlement_signal}

-- A user is over the quota exactly without access to the paid tier and with a count of the current
-- period that has reached the quota.
pub over_quota_iff :
    (quota : ℕ) (env : Env) (db : Db) (user : User)
    → ((build_entitlement_signal quota env db user).over_quota ≡ true) ↔ (
        ((resolve_entitlement env db.entitlements user).is_pro ≡ false)
        × (quota ≤ get_usage_count db.counters user.id (current_period env none)))
unfolding build_entitlement_signal
over_quota_iff quota env db user = ground arith
