-- ===== src/Metering/Signal.antt =====
-- The effective entitlement of a user, and the `entitlement` block of the responses.
pub mod Quota
use voice_spend.Prelude.{
  ℕ, String, Bool, true, false, ◌&&◌, Option, none, some, List, [], ◌∷◌, ltb, leb, ◌==◌,
  if◌then◌else◌,
}
use voice_spend.Models.{
  Uuid, Instant, Tier, free, pro, EntitlementStatus, active, expired, in_grace, cancelled, User,
  Entitlement, Db,
}
use voice_spend.Http.{Env}
use voice_spend.Metering.Usage.{current_period, get_usage_count}

-- select(Entitlement).where(Entitlement.user_id == user_id): user_id is unique
unfoldable pub find_entitlement : Uuid → List Entitlement → Option Entitlement
find_entitlement user_id [] = none
find_entitlement user_id (e ∷ es) =
    let rest = find_entitlement user_id es in if e.user_id == user_id then some e else rest

-- _ACCESS_RETAINING_STATUSES
unfoldable pub retains_access : EntitlementStatus → Bool
retains_access active = true
retains_access in_grace = true
retains_access cancelled = true
retains_access expired = false

abbrev is_pro_tier : Tier → Bool
is_pro_tier pro = true
is_pro_tier free = false

pub record EffectiveEntitlement : Type 0 where
  pub tier : Tier
  pub status : EntitlementStatus
  pub is_pro : Bool

abbrev period_not_lapsed : Instant → Option Instant → Bool
period_not_lapsed now none = true
period_not_lapsed now (some end) = ltb now end

unfoldable pub effective : Instant → Option Entitlement → EffectiveEntitlement
effective now none = record { tier = free; status = active; is_pro = false }
effective now (some e) = record {
  tier = e.tier;
  status = e.status;
  is_pro =
      is_pro_tier e.tier && retains_access e.status && period_not_lapsed now e.current_period_end;
}

unfoldable pub resolve_entitlement : Env → List Entitlement → User → EffectiveEntitlement
resolve_entitlement env entitlements user =
    effective env.now (find_entitlement user.id entitlements)

pub record EntitlementSignal : Type 0 where
  pub tier : Tier
  pub status : EntitlementStatus
  pub period : String
  pub used : ℕ
  pub quota : Option ℕ
  pub over_quota : Bool

-- build_entitlement_signal, with `quota` for settings.FREE_MONTHLY_LOG_QUOTA
unfoldable pub build_entitlement_signal : ℕ → Env → Db → User → EntitlementSignal
build_entitlement_signal quota env db user =
    let e = resolve_entitlement env db.entitlements user in
    let period = current_period env none in
    let used = get_usage_count db.counters user.id period in
    if e.is_pro
    then record {
      tier = e.tier;
      status = e.status;
      period = period;
      used = used;
      quota = none;
      over_quota = false;
    }
    else record {
      tier = e.tier;
      status = e.status;
      period = period;
      used = used;
      quota = some quota;
      over_quota = leb quota used;
    }
