-- ===== src/Tests/Webhooks.antt =====
-- POST /api/v1/webhooks/revenuecat on concrete events (app/api/v1/webhooks.py).
use voice_spend.Prelude.{ℕ, ◌<◌, ◌≡◌, ◌≢◌, ◌↔◌, refl, true, String, Option, none, some, [], ◌∷◌, ok}
use voice_spend.Prelude.Int.{pos}
use voice_spend.Models.{
  Instant, Tier, EntitlementStatus, Entitlement, app_store, pro, free, expired, active,
}
use voice_spend.Http.{World, compare_digest, emit}
use voice_spend.Metering.Signal.{find_entitlement, resolve_entitlement}
use voice_spend.Webhook.{
  RevenueCatEvent, event_state, store_map, verify_auth, resolve_store, resolve_period_end,
  transition, put_entitlement, store_transition, apply_entitlement_transition, is_recorded,
  has_user, is_stale, Handled, handle_user_event, handle_recorded, record_event, handle_event,
  answer, revenuecat_webhook,
}
use voice_spend.Webhook.Frame.{Touches, revenuecat_webhook-Touches}
use voice_spend.Webhook.Order.{access, latest, handle_user_event-converges}
use voice_spend.Webhook.Redelivery.{revenuecat_webhook-redelivered}
use voice_spend.Webhook.Access.{revenuecat_webhook-access}
use voice_spend.Tests.Data.{small_python, alice, start, today, tomorrow}

abbrev purchase : RevenueCatEvent
purchase = record {
  id = "e1";
  event_type = "INITIAL_PURCHASE";
  app_user_id = "alice";
  event_timestamp_ms = pos 10;
  product_id = some "monthly";
  store = some "APP_STORE";
  expiration_at_ms = some (pos 90);
}

abbrev expiration : RevenueCatEvent
expiration = record purchase {
  id = "e2";
  event_type = "EXPIRATION";
  event_timestamp_ms = pos 20;
  expiration_at_ms = none;
}

purchase_answered :
    (w : World) × (revenuecat_webhook small_python "secret" today (some "secret") purchase start
      ≡ (ok "processed", w))
unfolding revenuecat_webhook answer handle_event handle_recorded record_event handle_user_event
    is_stale has_user is_recorded apply_entitlement_transition store_transition put_entitlement
    transition resolve_period_end resolve_store verify_auth store_map event_state compare_digest
    emit find_entitlement
purchase_answered = (_, refl)

revenuecat_webhook-redelivered_example :
    ((revenuecat_webhook small_python "secret" tomorrow
        (some "secret")
        purchase
        purchase_answered.0).0
      ≡ ok "already_processed")
    × ((revenuecat_webhook small_python "secret" tomorrow
          (some "secret")
          purchase
          purchase_answered.0).1.db
        ≡ purchase_answered.0.db)
revenuecat_webhook-redelivered_example =
    revenuecat_webhook-redelivered small_python "secret" today tomorrow (some "secret") purchase
      start purchase_answered.0 "processed" purchase_answered.1

revenuecat_webhook-Touches_example :
    Touches
      (some 1)
      start.db
      (revenuecat_webhook small_python "secret" today (some "secret") purchase start).1.db
revenuecat_webhook-Touches_example =
    revenuecat_webhook-Touches small_python "secret" today (some "secret") purchase start

purchase_known : event_state "INITIAL_PURCHASE" ≡ some (pro, active)
unfolding event_state
purchase_known = refl

expiration_known : event_state "EXPIRATION" ≡ some (free, expired)
unfolding event_state
expiration_known = refl

abbrev stored : Tier → EntitlementStatus → Option Instant → ℕ → Entitlement
stored tier status end last = record {
  id = 700;
  user_id = 1;
  tier = tier;
  status = status;
  product_id = some "monthly";
  store = some app_store;
  revenuecat_app_user_id = some "alice";
  current_period_end = end;
  last_event_ts_ms = some (pos last);
  created_at = 5000;
  updated_at = 5000;
}

abbrev outcome_with : String → String → Entitlement → Handled
outcome_with outcome status e = record {
  outcome = outcome;
  status = status;
  db = record start.db { entitlements = e ∷ [] };
}

abbrev purchased : Handled
purchased = outcome_with "applied" "processed" (stored pro active (some 90000) 10)

abbrev purchased_expired : Handled
purchased_expired = outcome_with "applied" "processed" (stored free expired (some 90000) 20)

abbrev expired_first : Handled
expired_first = outcome_with "applied" "processed" (stored free expired none 20)

abbrev expired_purchased : Handled
expired_purchased = outcome_with "stale" "ignored_stale_event" (stored free expired none 20)

runs :
    (handle_user_event small_python today 1 purchase start.db ≡ ok purchased)
    × (handle_user_event small_python today 1 expiration purchased.db ≡ ok purchased_expired)
    × (handle_user_event small_python today 1 expiration start.db ≡ ok expired_first)
    × (handle_user_event small_python today 1 purchase expired_first.db ≡ ok expired_purchased)
unfolding handle_user_event is_stale apply_entitlement_transition store_transition put_entitlement
    transition resolve_period_end resolve_store store_map event_state find_entitlement
runs = (refl, refl, refl, refl)

handle_user_event-converges_example :
    (access (find_entitlement 1 purchased_expired.db.entitlements)
      ≡ latest (access (find_entitlement 1 start.db.entitlements)) (pos 20) (free, expired))
    × (access (find_entitlement 1 expired_purchased.db.entitlements)
        ≡ latest (access (find_entitlement 1 start.db.entitlements)) (pos 20) (free, expired))
handle_user_event-converges_example =
    handle_user_event-converges small_python today today today today 1 purchase expiration
      (pro, active) (free, expired) start.db purchased purchased_expired expired_first
      expired_purchased purchase_known expiration_known refl runs.0 runs.1 runs.2 runs.3

purchase_ends : resolve_period_end small_python purchase.expiration_at_ms ≡ ok (some 90000)
unfolding resolve_period_end
purchase_ends = refl

revenuecat_webhook-access_example :
    ((resolve_entitlement tomorrow purchase_answered.0.db.entitlements alice).is_pro ≡ true)
    ↔ ((purchase.event_type ≢ "EXPIRATION") × (9000 < 90000))
revenuecat_webhook-access_example =
    revenuecat_webhook-access small_python "secret" today tomorrow (some "secret") purchase start
      purchase_answered.0 alice 90000 refl purchase_ends purchase_answered.1
