-- ===== src/Webhook/Access.antt =====
-- From a webhook event to the access of its user: app/api/v1/webhooks.py with
-- app/services/entitlements/resolver.py.
use voice_spend.Prelude.{
  ◌<◌, String, ◌≡◌, ◌≢◌, refl, ap, sym, subst, ◌∙◌, ◌↔◌, inl, inr, true, false, Option, none, some,
  ok, ok-injective, arith, ==_iff, str_eq, eq_iff, Bool-cases, Option-cases, Result-cases,
}
use voice_spend.Models.{Uuid, Instant, Tier, free, pro, EntitlementStatus, User, Entitlement, Db}
use voice_spend.Http.{World, emit, Env, Python}
use voice_spend.Metering.Signal.{find_entitlement, retains_access, effective, resolve_entitlement}
use voice_spend.Webhook.{
  RevenueCatEvent, event_state, resolve_period_end, resolve_store, transition, put_entitlement,
  store_transition, apply_entitlement_transition, fits_bigint, is_stale, is_recorded, has_user,
  record_event, Handled, handle_user_event, handle_recorded, handle_event, answer, verify_auth,
  revenuecat_webhook,
}
use voice_spend.Webhook.Frame.{find_entitlement-put, transition-user}

-- Two texts that the test tells apart.
texts_differ : (a b : String) → str_eq a b ≡ false → a ≢ b
texts_differ a b differ same = ground (arith, eq_iff a b)

event_state_iff :
    (t : String) (tier : Tier) (status : EntitlementStatus)
    → event_state t ≡ some (tier, status)
    → ((tier ≡ pro) × (retains_access status ≡ true)) ↔ (t ≢ "EXPIRATION")
unfolding event_state retains_access
event_state_iff t tier status h = ground (
  arith,
  eq_iff t "EXPIRATION",
  eq_iff t "INITIAL_PURCHASE",
  eq_iff t "RENEWAL",
  eq_iff t "PRODUCT_CHANGE",
  eq_iff t "UNCANCELLATION",
  eq_iff t "CANCELLATION",
  eq_iff t "BILLING_ISSUE",
  texts_differ "EXPIRATION" "INITIAL_PURCHASE" refl,
  texts_differ "EXPIRATION" "RENEWAL" refl,
  texts_differ "EXPIRATION" "PRODUCT_CHANGE" refl,
  texts_differ "EXPIRATION" "UNCANCELLATION" refl,
  texts_differ "EXPIRATION" "CANCELLATION" refl,
  texts_differ "EXPIRATION" "BILLING_ISSUE" refl,
)

-- What is stored of a processed event.
abbrev Stored : Python → Env → Uuid → RevenueCatEvent → Db → Db → Type 0
Stored py env u event db db' =
    (state : Tier × EntitlementStatus) × (end : Option Instant) × (event_state event.event_type
      ≡ some state)
    × (resolve_period_end py event.expiration_at_ms ≡ ok end)
    × (db' ≡ store_transition py env u event state db end)

handle_user_event-Stored :
    (py : Python) (env : Env) (u : Uuid) (event : RevenueCatEvent) (db : Db) (x : Handled)
    → handle_user_event py env u event db ≡ ok x
    → x.status ≡ "processed"
    → Stored py env u event db x.db
unfolding handle_user_event apply_entitlement_transition
handle_user_event-Stored py env u event db x h done =
    elim (Bool-cases (is_stale event.event_timestamp_ms (find_entitlement u db.entitlements))) [
      | inl stale ↦
          let same =
            ap (λ (y : Handled). y.status) (ok-injective (rw (stale, handle_user_event) at h)) in
          absurd (texts_differ "ignored_stale_event" "processed" refl (same ∙ done))
      | inr fresh ↦
          let h₁ = rw (fresh, handle_user_event) at h in
          elim (Option-cases (event_state event.event_type)) [
            | inl other ↦
                let same =
                  ap (λ (y : Handled). y.status)
                    (ok-injective (rw (other, handle_user_event) at h₁)) in
                absurd (texts_differ "ignored_unhandled_event_type" "processed" refl (same ∙ done))
            | inr (state, handled) ↦
                elim (Result-cases (resolve_period_end py event.expiration_at_ms)) [
                  | inl (e, failed) ↦
                      let h₂ = rw (handled, failed, handle_user_event) at h₁ in cc h₂
                  | inr (end, resolved) ↦ elim (Bool-cases (fits_bigint event.event_timestamp_ms)) [
                    | inr large ↦
                        let h₂ = rw (handled, resolved, large, handle_user_event) at h₁ in cc h₂
                    | inl fits ↦
                        let h₂ = rw (handled, resolved, fits, handle_user_event) at h₁ in
                        (
                          state,
                          end,
                          handled,
                          resolved,
                          ap (λ (y : Handled). y.db) (sym (ok-injective h₂)),
                        )
                  ]
                ]
          ]
    ]

handle_event-Stored :
    (py : Python) (env : Env) (u : Uuid) (event : RevenueCatEvent) (db : Db) (x : Handled)
    → py.uuid event.app_user_id ≡ some u
    → handle_event py env event db ≡ ok x
    → x.status ≡ "processed"
    → Stored py env u event (record_event env event db) x.db
unfolding handle_event handle_recorded
handle_event-Stored py env u event db x who h done =
    elim (Bool-cases (is_recorded event.id db.events)) [
      | inl old ↦
          let same = ap (λ (y : Handled). y.status) (ok-injective (rw (old, handle_event) at h)) in
          absurd (texts_differ "already_processed" "processed" refl (same ∙ done))
      | inr new ↦ elim (Bool-cases (has_user u (record_event env event db).users)) [
        | inl known ↦
            handle_user_event-Stored py env u event (record_event env event db) x
              (rw (new, handle_recorded, who, known) at h) done
        | inr unknown ↦
            let same =
              ap (λ (y : Handled). y.status)
                (ok-injective (rw (new, handle_recorded, who, unknown) at h)) in
            absurd (texts_differ "ignored_unmapped_user" "processed" refl (same ∙ done))
      ]
    ]

-- The access that a stored transition with an end gives.
transition-access :
    (env : Env) (now : Instant) (u : Uuid) (event : RevenueCatEvent) (py : Python) (tier : Tier)
    (status : EntitlementStatus) (end : Instant) (o : Option Entitlement)
    → ((effective now (
          some (
            transition env u event
              (resolve_store py event.store)
              (some end)
              (tier, status)
              o))).is_pro
        ≡ true)
      ↔ (((tier ≡ pro) × (retains_access status ≡ true)) × (now < end))
unfolding effective transition
transition-access env now u event py pro status end none = ground arith
transition-access env now u event py free status end none = ground arith
transition-access env now u event py pro status end (some old) = ground arith
transition-access env now u event py free status end (some old) = ground arith

Stored-access :
    (py : Python) (env env' : Env) (user : User) (event : RevenueCatEvent) (db db' : Db)
    (end : Instant)
    → Stored py env user.id event db db'
    → resolve_period_end py event.expiration_at_ms ≡ ok (some end)
    → ((resolve_entitlement env' db'.entitlements user).is_pro ≡ true)
      ↔ ((event.event_type ≢ "EXPIRATION") × (env'.now < end))
unfolding resolve_entitlement store_transition
Stored-access py env env' user event db db' end ((tier, status), o, handled, resolved, e) ends =
    let same : o ≡ some end = ok-injective (sym resolved ∙ ends) in
    let row =
      transition env user.id event (resolve_store py event.store) (some end) (tier, status)
        (find_entitlement user.id db.entitlements) in
    let own =
      transition-user env user.id event (resolve_store py event.store) (some end) (tier, status)
        db.entitlements in
    let stored : find_entitlement user.id (put_entitlement row db.entitlements) ≡ some row =
      ground
        (arith, find_entitlement-put user.id row db.entitlements, ==_iff row.user_id user.id) in
    let types = event_state_iff event.event_type tier status handled in
    let access =
      transition-access env env'.now user.id event py tier status end
        (find_entitlement user.id db.entitlements) in
    rw (e, same, stored)
      ((λ p. (types.0 (access.0 p).0, (access.0 p).1)), (λ p. access.1 (types.1 p.0, p.1)))

-- After a webhook call that answers `processed` for an event of a user with an end of the period, the
-- user has access to the paid tier at a time exactly if the event is no EXPIRATION and the time is
-- before that end, whatever the user's entitlement was before.
pub revenuecat_webhook-access :
    (py : Python) (expected : String) (env env' : Env) (authorization : Option String)
    (event : RevenueCatEvent) (w w' : World) (user : User) (end : Instant)
    → py.uuid event.app_user_id ≡ some user.id
    → resolve_period_end py event.expiration_at_ms ≡ ok (some end)
    → revenuecat_webhook py expected env authorization event w ≡ (ok "processed", w')
    → ((resolve_entitlement env' w'.db.entitlements user).is_pro ≡ true)
      ↔ ((event.event_type ≢ "EXPIRATION") × (env'.now < end))
unfolding revenuecat_webhook answer emit
revenuecat_webhook-access py expected env env' authorization event w w' user end who ends h =
    elim (Result-cases (verify_auth py expected authorization)) [
      | inl (e, refused) ↦ let h' = rw (refused, revenuecat_webhook) at h in cc h'
      | inr (_, verified) ↦ elim (Result-cases (handle_event py env event w.db)) [
        | inl (e, failed) ↦ let h' = rw (verified, failed, revenuecat_webhook) at h in cc h'
        | inr (x, handled) ↦
            let h' = rw (verified, handled, revenuecat_webhook) at h in
            let done : x.status ≡ "processed" = ground arith in
            let after : x.db ≡ w'.db = ground arith in
            subst
              (λ (d : Db).
                ((resolve_entitlement env' d.entitlements user).is_pro ≡ true)
                ↔ ((event.event_type ≢ "EXPIRATION") × (env'.now < end)))
              after
              (Stored-access py env env' user event (record_event env event w.db) x.db end
                (handle_event-Stored py env user.id event w.db x who handled done) ends)
      ]
    ]
