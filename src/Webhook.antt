-- ===== src/Webhook.antt =====
-- POST /api/v1/webhooks/revenuecat: app/api/v1/webhooks.py, with the payload of
-- app/schemas/webhook.py. A run that raises commits nothing, so that the event may be sent again.
pub mod Order
pub mod Redelivery
pub mod Access
pub mod Frame
use voice_spend.Prelude.{
  ℕ, ◌+◌, ◌<◌, ◌^◌, String, Bool, true, false, not, ◌&&◌, ◌||◌, Option, none, some, List, [], ◌∷◌,
  ◌++◌, Result, ok, err, ◌>>=◌, ltb, ◌==◌, str_eq, is_some, or_else, if◌then◌else◌,
}
use voice_spend.Prelude.Int.{ℤ, pos, negsuc, abs, ltb_ℤ}
use voice_spend.Models.{
  Uuid, Instant, Tier, free, pro, EntitlementStatus, active, expired, in_grace, cancelled, Store,
  app_store, play_store, stripe, User, Entitlement, ProcessedWebhookEvent, Db,
}
use voice_spend.Http.{
  Failure, http, value_error, database, out_of_range, Metric, webhook_events, World, emit, Env,
  Python, compare_digest,
}
use voice_spend.Metering.Signal.{find_entitlement}

pub record RevenueCatEvent : Type 0 where
  pub id : String
  pub event_type : String
  pub app_user_id : String
  pub event_timestamp_ms : ℤ
  pub product_id : Option String
  pub store : Option String
  pub expiration_at_ms : Option ℤ

-- _EVENT_STATE
unfoldable pub event_state : String → Option (Tier × EntitlementStatus)
event_state t =
    if str_eq t "INITIAL_PURCHASE"
    then some (pro, active)
    else if str_eq t "RENEWAL"
    then some (pro, active)
    else if str_eq t "PRODUCT_CHANGE"
    then some (pro, active)
    else if str_eq t "UNCANCELLATION"
    then some (pro, active)
    else if str_eq t "CANCELLATION"
    then some (pro, cancelled)
    else if str_eq t "BILLING_ISSUE"
    then some (pro, in_grace)
    else if str_eq t "EXPIRATION"
    then some (free, expired)
    else none

-- _STORE_MAP
unfoldable pub store_map : String → Option Store
store_map s =
    if str_eq s "APP_STORE"
    then some app_store
    else if str_eq s "MAC_APP_STORE"
    then some app_store
    else if str_eq s "PLAY_STORE"
    then some play_store
    else if str_eq s "STRIPE"
    then some stripe
    else none

-- _verify_auth, with `expected` for settings.REVENUECAT_WEBHOOK_AUTH
unfoldable pub verify_auth : Python → String → Option String → Result Failure (Unit {0})
verify_auth py expected none = err (http 401 "invalid webhook credentials")
verify_auth py expected (some authorization) =
    if str_eq expected ""
    then err (http 401 "invalid webhook credentials")
    else compare_digest py authorization expected >>= λ same.
        if same then ok tt else err (http 401 "invalid webhook credentials")

unfoldable pub resolve_store : Python → Option String → Option Store
resolve_store py none = none
resolve_store py (some raw) = store_map (py.upper raw)

unfoldable pub resolve_period_end : Python → Option ℤ → Result Failure (Option Instant)
resolve_period_end py none = ok none
resolve_period_end py (some ms) = elim (py.from_timestamp_ms ms) [
  | none ↦ err value_error
  | some t ↦ ok (some t)
]

-- A value of the event, or where it has none the stored one.
abbrev pub carried {ℓ} : {A : Type ℓ} → Option A → Option A → Option A
carried none old = old
carried (some new) old = some new

-- The row that the statement of `_apply_entitlement_transition` makes: an insert, or the update of
-- the stored row, which keeps the columns that the event carries no value for.
unfoldable pub transition :
    Env
    → Uuid
    → RevenueCatEvent
    → Option Store
    → Option Instant
    → Tier × EntitlementStatus
    → Option Entitlement
    → Entitlement
transition env user_id event store period_end (tier, status) none = record {
  id = env.uuid4;
  user_id = user_id;
  tier = tier;
  status = status;
  product_id = event.product_id;
  store = store;
  revenuecat_app_user_id = some event.app_user_id;
  current_period_end = period_end;
  last_event_ts_ms = some event.event_timestamp_ms;
  created_at = env.now;
  updated_at = env.now;
}
transition env user_id event store period_end (tier, status) (some old) = record old {
  tier = tier;
  status = status;
  product_id = carried event.product_id old.product_id;
  store = carried store old.store;
  revenuecat_app_user_id = some event.app_user_id;
  current_period_end = carried period_end old.current_period_end;
  last_event_ts_ms = some event.event_timestamp_ms;
  updated_at = env.now;
}

-- ON CONFLICT (user_id): the row put in the place of the user's row.
unfoldable pub put_entitlement : Entitlement → List Entitlement → List Entitlement
put_entitlement e [] = e ∷ []
put_entitlement e (x ∷ xs) =
    let rest = put_entitlement e xs in if x.user_id == e.user_id then e ∷ xs else x ∷ rest

-- last_event_ts_ms is a BIGINT
abbrev pub fits_bigint : ℤ → Bool
fits_bigint (pos n) = ltb n (2 ^ 63)
fits_bigint (negsuc n) = ltb n (2 ^ 63)

-- The statement of `_apply_entitlement_transition`.
unfoldable pub store_transition :
    Python → Env → Uuid → RevenueCatEvent → Tier × EntitlementStatus → Db → Option Instant → Db
store_transition py env user_id event state db period_end = record db {
  entitlements =
      put_entitlement
        (transition env user_id event (resolve_store py event.store) period_end state
          (find_entitlement user_id db.entitlements))
        db.entitlements;
}

unfoldable pub apply_entitlement_transition :
    Python → Env → Uuid → RevenueCatEvent → Tier × EntitlementStatus → Db → Result Failure Db
apply_entitlement_transition py env user_id event state db =
    resolve_period_end py event.expiration_at_ms >>= λ period_end.
    if fits_bigint event.event_timestamp_ms
    then ok (store_transition py env user_id event state db period_end)
    else err (database out_of_range)

unfoldable pub is_recorded : String → List ProcessedWebhookEvent → Bool
is_recorded id [] = false
is_recorded id (e ∷ es) = let rest = is_recorded id es in str_eq e.event_id id || rest

unfoldable pub has_user : Uuid → List User → Bool
has_user id [] = false
has_user id (u ∷ us) = let rest = has_user id us in u.id == id || rest

-- The event is older than the last one that changed the row.
unfoldable pub is_stale : ℤ → Option Entitlement → Bool
is_stale ts none = false
is_stale ts (some e) = elim e.last_event_ts_ms [ none ↦ false | some last ↦ ltb_ℤ ts last ]

-- The outcome for the metric, the status of the response, and the database to commit.
pub record Handled : Type 0 where
  pub outcome : String
  pub status : String
  pub db : Db

-- The part of the handler past the audit row, for an event of a known user.
unfoldable pub handle_user_event :
    Python → Env → Uuid → RevenueCatEvent → Db → Result Failure Handled
handle_user_event py env user_id event db =
    if is_stale event.event_timestamp_ms (find_entitlement user_id db.entitlements)
    then ok (record { outcome = "stale"; status = "ignored_stale_event"; db = db })
    else elim (event_state event.event_type) [
      | none ↦
          ok (record { outcome = "unmatched"; status = "ignored_unhandled_event_type"; db = db })
      | some state ↦ apply_entitlement_transition py env user_id event state db >>= λ db'.
          ok (record { outcome = "applied"; status = "processed"; db = db' })
    ]

unfoldable pub handle_recorded : Python → Env → RevenueCatEvent → Db → Result Failure Handled
handle_recorded py env event db = elim (py.uuid event.app_user_id) [
  | none ↦ ok (record { outcome = "unmatched"; status = "ignored_unmapped_user"; db = db })
  | some user_id ↦
      if has_user user_id db.users
      then handle_user_event py env user_id event db
      else ok (record { outcome = "unmatched"; status = "ignored_unmapped_user"; db = db })
]

-- INSERT INTO processed_webhook_events ... ON CONFLICT DO NOTHING, and what follows.
unfoldable pub record_event : Env → RevenueCatEvent → Db → Db
record_event env event db = record db {
  events =
      db.events
      ++ record { event_id = event.id; event_type = event.event_type; received_at = env.now } ∷ [];
}

unfoldable pub handle_event : Python → Env → RevenueCatEvent → Db → Result Failure Handled
handle_event py env event db =
    if is_recorded event.id db.events
    then ok (record { outcome = "duplicate"; status = "already_processed"; db = db })
    else handle_recorded py env event (record_event env event db)

unfoldable pub answer :
    RevenueCatEvent → World → Result Failure Handled → Result Failure String × World
answer event w (err e) = (err e, w)
answer event w (ok h) =
    (ok h.status, emit (webhook_events event.event_type h.outcome ∷ []) (record w { db = h.db }))

unfoldable pub revenuecat_webhook :
    Python → String → Env → Option String → RevenueCatEvent → World → Result Failure String × World
revenuecat_webhook py expected env authorization event w =
    answer event w (verify_auth py expected authorization >>= λ _. handle_event py env event w.db)
