-- ===== src/Webhook/Frame.antt =====
-- What a webhook call may touch: the audit log and the entitlement of the event's user.
use voice_spend.Prelude.{
  ℕ, String, ◌≡◌, ◌≢◌, refl, ap, sym, subst, ◌∙◌, ◌⊎◌, inl, inr, false, Option, some, List, [], ◌∷◌,
  Result, ok, err, ◌>>=◌, >>=-eq-ok, ok-injective, arith, ◌==◌, if◌then◌else◌, Bool-cases,
  Option-cases, ==_iff,
}
use voice_spend.Models.{Uuid, Tier, EntitlementStatus, Store, Entitlement, Db}
use voice_spend.Http.{Failure, database, out_of_range, World, emit, Env, Python}
use voice_spend.Metering.Signal.{find_entitlement}
use voice_spend.Webhook.{
  RevenueCatEvent, verify_auth, event_state, transition, put_entitlement,
  apply_entitlement_transition, handle_user_event, handle_recorded, record_event, handle_event,
  Handled, answer, revenuecat_webhook, resolve_period_end, resolve_store, store_transition,
  is_stale, fits_bigint, has_user, is_recorded,
}

pub find_entitlement-put :
    (v : Uuid) (e : Entitlement) (es : List Entitlement)
    → find_entitlement v (put_entitlement e es)
      ≡ (if e.user_id == v then some e else find_entitlement v es)
unfolding find_entitlement put_entitlement
find_entitlement-put v e [] = refl
find_entitlement-put v e (x ∷ xs) = ground (arith, find_entitlement-put v e xs)

pub find_entitlement-user :
    (v : Uuid) (es : List Entitlement) (e : Entitlement)
    → find_entitlement v es ≡ some e
    → e.user_id ≡ v
unfolding find_entitlement
find_entitlement-user v [] e h = cc
find_entitlement-user v (x ∷ xs) e h = ground (arith, find_entitlement-user v xs e)

pub transition-user :
    (env : Env) (u : Uuid) (event : RevenueCatEvent) (store : Option Store) (end : Option ℕ)
    (state : Tier × EntitlementStatus) (es : List Entitlement)
    → (transition env u event store end state (find_entitlement u es)).user_id ≡ u
unfolding transition
transition-user env u event store end state es = elim (Option-cases (find_entitlement u es)) [
  | inl new ↦ rw (new, transition) refl
  | inr (old, found) ↦ rw (found, transition) (find_entitlement-user u es old found)
]

-- Two databases that agree on all but the entitlement of one user, if any, and the audit log.
pub record Touches (who : Option Uuid) (db db' : Db) : Type 0 where
  pub rest : db' ≡ record db { entitlements = db'.entitlements; events = db'.events }
  pub others :
      (v : Uuid)
      → who ≢ some v
      → find_entitlement v db'.entitlements ≡ find_entitlement v db.entitlements

Touches-refl : (who : Option Uuid) (db : Db) → Touches who db db
Touches-refl who db = record { rest = refl; others = λ v h. refl }

store_transition-Touches :
    (py : Python) (env : Env) (u : Uuid) (event : RevenueCatEvent)
    (state : Tier × EntitlementStatus) (db : Db) (end : Option ℕ)
    → Touches (some u) db (store_transition py env u event state db end)
unfolding store_transition
store_transition-Touches py env u event state db end =
    let e =
      transition env u event (resolve_store py event.store) end state
        (find_entitlement u db.entitlements) in
    record {
      rest = refl;
      others = λ v other.
          let own =
            transition-user env u event (resolve_store py event.store) end state db.entitlements in
          elim (Bool-cases (e.user_id == v)) [
            | inl same ↦ absurd (other (ap some (sym own ∙ (==_iff e.user_id v).0 same)))
            | inr apart ↦ rw (find_entitlement-put v e db.entitlements, apart) refl
          ];
    }

-- A transition that is stored, with the end of the period that the event carries.
pub apply-eq-ok :
    (py : Python) (env : Env) (u : Uuid) (event : RevenueCatEvent)
    (state : Tier × EntitlementStatus) (db db' : Db)
    → apply_entitlement_transition py env u event state db ≡ ok db'
    → (end : Option ℕ) × (store_transition py env u event state db end ≡ db')
unfolding apply_entitlement_transition
apply-eq-ok py env u event state db db' h =
    let (end, _, stored) =
      >>=-eq-ok (resolve_period_end py event.expiration_at_ms)
        (λ end.
          if fits_bigint event.event_timestamp_ms
          then ok (store_transition py env u event state db end)
          else err (database out_of_range))
        h in
    elim (Bool-cases (fits_bigint event.event_timestamp_ms)) [
      | inl fits ↦ (end, ok-injective (rw fits at stored))
      | inr large ↦ let stored' = rw large at stored in cc stored'
    ]

-- An event of a user is stale, or of a type that is not handled, and changes nothing; or it stores
-- its transition.
pub handle_user_event-cases :
    (py : Python) (env : Env) (u : Uuid) (event : RevenueCatEvent) (db : Db) (x : Handled)
    → handle_user_event py env u event db ≡ ok x
    → (x.db ≡ db)
      ⊎ ((state : Tier × EntitlementStatus) × (end : Option ℕ) × (event_state event.event_type
            ≡ some state)
          × (is_stale event.event_timestamp_ms (find_entitlement u db.entitlements) ≡ false)
          × (x.db ≡ store_transition py env u event state db end))
unfolding handle_user_event
handle_user_event-cases py env u event db x h =
    elim (Bool-cases (is_stale event.event_timestamp_ms (find_entitlement u db.entitlements))) [
      | inl stale ↦
          inl (ap (λ (y : Handled). y.db) (sym (ok-injective (rw (stale, handle_user_event) at h))))
      | inr fresh ↦
          let h₁ = rw (fresh, handle_user_event) at h in
          elim (Option-cases (event_state event.event_type)) [
            | inl other ↦ inl (
                ap (λ (y : Handled). y.db)
                  (sym (ok-injective (rw (other, handle_user_event) at h₁))))
            | inr (state, handled) ↦
                let h₂ = rw (handled, handle_user_event) at h₁ in
                let (db', done, e) =
                  >>=-eq-ok (apply_entitlement_transition py env u event state db)
                    (λ db'. ok (record { outcome = "applied"; status = "processed"; db = db' }))
                    h₂ in
                let (end, stored) = apply-eq-ok py env u event state db db' done in
                inr (
                  state,
                  end,
                  handled,
                  fresh,
                  ap (λ (y : Handled). y.db) (sym (ok-injective e)) ∙ sym stored,
                )
          ]
    ]

handle_user_event-Touches :
    (py : Python) (env : Env) (u : Uuid) (event : RevenueCatEvent) (db : Db) (x : Handled)
    → handle_user_event py env u event db ≡ ok x
    → Touches (some u) db x.db
handle_user_event-Touches py env u event db x h =
    elim (handle_user_event-cases py env u event db x h) [
      | inl same ↦ subst (λ (d : Db). Touches (some u) db d) (sym same) (Touches-refl (some u) db)
      | inr (state, end, _, _, e) ↦
          subst (λ (d : Db). Touches (some u) db d) (sym e)
            (store_transition-Touches py env u event state db end)
    ]

handle_recorded-Touches :
    (py : Python) (env : Env) (event : RevenueCatEvent) (db : Db) (x : Handled)
    → handle_recorded py env event db ≡ ok x
    → Touches (py.uuid event.app_user_id) db x.db
unfolding handle_recorded
handle_recorded-Touches py env event db x h = elim (Option-cases (py.uuid event.app_user_id)) [
  | inl none_found ↦
      subst (λ (d : Db). Touches (py.uuid event.app_user_id) db d)
        (ap (λ (y : Handled). y.db) (ok-injective (rw (none_found, handle_recorded) at h)))
        (Touches-refl (py.uuid event.app_user_id) db)
  | inr (u, found) ↦
      let h₁ = rw (found, handle_recorded) at h in
      elim (Bool-cases (has_user u db.users)) [
        | inl known ↦ rw found (handle_user_event-Touches py env u event db x (rw known at h₁))
        | inr unknown ↦
            subst (λ (d : Db). Touches (py.uuid event.app_user_id) db d)
              (ap (λ (y : Handled). y.db) (ok-injective (rw unknown at h₁)))
              (Touches-refl (py.uuid event.app_user_id) db)
      ]
]

handle_event-Touches :
    (py : Python) (env : Env) (event : RevenueCatEvent) (db : Db) (x : Handled)
    → handle_event py env event db ≡ ok x
    → Touches (py.uuid event.app_user_id) db x.db
unfolding handle_event record_event
handle_event-Touches py env event db x h = elim (Bool-cases (is_recorded event.id db.events)) [
  | inl old ↦
      subst (λ (d : Db). Touches (py.uuid event.app_user_id) db d)
        (ap (λ (y : Handled). y.db) (ok-injective (rw (old, handle_event) at h)))
        (Touches-refl (py.uuid event.app_user_id) db)
  | inr new ↦
      let t =
        handle_recorded-Touches py env event (record_event env event db) x
          (rw (new, handle_event) at h) in
      record { rest = t.rest; others = t.others }
]

answer-Touches :
    (event : RevenueCatEvent) (w : World) (who : Option Uuid) (r : Result Failure Handled)
    → ((x : Handled) → r ≡ ok x → Touches who w.db x.db)
    → Touches who w.db (answer event w r).1.db
unfolding answer emit
answer-Touches event w who (err e) h = Touches-refl who w.db
answer-Touches event w who (ok x) h = h x refl

-- Whatever a webhook call contains and however it ends, it changes at most the audit log and the
-- entitlement of the user that the event's `app_user_id` names: every other table, and the
-- entitlement of every other user, is as before.
pub revenuecat_webhook-Touches :
    (py : Python) (expected : String) (env : Env) (authorization : Option String)
    (event : RevenueCatEvent) (w : World)
    → Touches
        (py.uuid event.app_user_id)
        w.db
        (revenuecat_webhook py expected env authorization event w).1.db
unfolding revenuecat_webhook
revenuecat_webhook-Touches py expected env authorization event w =
    answer-Touches event w (py.uuid event.app_user_id)
      (verify_auth py expected authorization >>= λ _. handle_event py env event w.db)
      λ x h.
        let (_, _, e) =
          >>=-eq-ok (verify_auth py expected authorization) (λ _. handle_event py env event w.db)
            h in
        handle_event-Touches py env event w.db x e
