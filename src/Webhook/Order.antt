-- ===== src/Webhook/Order.antt =====
-- Events out of order: the tier and the status of a user's entitlement are those of the latest event.
use voice_spend.Prelude.{
  ℕ, ◌≡◌, refl, ap, sym, ◌∙◌, inl, inr, Bool, true, false, Option, none, some, ok, arith,
  if◌then◌else◌, Bool-cases, eqb_refl, ok-injective, >>=-eq-ok,
}
use voice_spend.Prelude.Int.{ℤ, pos, ltb_ℤ}
use voice_spend.Models.{Uuid, Tier, EntitlementStatus, Store, Entitlement, Db}
use voice_spend.Http.{Env, Python}
use voice_spend.Metering.Signal.{find_entitlement}
use voice_spend.Webhook.{
  RevenueCatEvent, event_state, is_stale, transition, store_transition, handle_user_event, Handled,
  resolve_store, apply_entitlement_transition,
}
use voice_spend.Webhook.Frame.{find_entitlement-put, transition-user, apply-eq-ok}

-- The part of an entitlement that the types and the times of events decide: the tier, the status and
-- the time of the last event. The end of the current period is left out.
abbrev pub Access : Type 0
Access = Option ((Tier × EntitlementStatus) × Option ℤ)

abbrev pub access : Option Entitlement → Access
access none = none
access (some e) = some ((e.tier, e.status), e.last_event_ts_ms)

abbrev is_before : ℤ → Access → Bool
is_before ts none = false
is_before ts (some (_, none)) = false
is_before ts (some (_, some last)) = ltb_ℤ ts last

-- The latest of what is known and an event.
abbrev pub latest : Access → ℤ → Tier × EntitlementStatus → Access
latest known ts state = if is_before ts known then known else some (state, some ts)

is_stale-access : (ts : ℤ) (o : Option Entitlement) → is_stale ts o ≡ is_before ts (access o)
unfolding is_stale
is_stale-access ts none = refl
is_stale-access ts (some e) = ground arith

access-transition :
    (env : Env) (u : Uuid) (event : RevenueCatEvent) (store : Option Store) (end : Option ℕ)
    (state : Tier × EntitlementStatus) (o : Option Entitlement)
    → access (some (transition env u event store end state o))
      ≡ some (state, some event.event_timestamp_ms)
unfolding transition
access-transition env u event store end (tier, status) none = refl
access-transition env u event store end (tier, status) (some old) = refl

access-store_transition :
    (py : Python) (env : Env) (u : Uuid) (event : RevenueCatEvent)
    (state : Tier × EntitlementStatus) (db : Db) (end : Option ℕ)
    → access (find_entitlement u (store_transition py env u event state db end).entitlements)
      ≡ some (state, some event.event_timestamp_ms)
unfolding store_transition
access-store_transition py env u event state db end =
    let store = resolve_store py event.store in
    let e = transition env u event store end state (find_entitlement u db.entitlements) in
    rw
      (
        find_entitlement-put u e db.entitlements,
        transition-user env u event store end state db.entitlements,
        eqb_refl u,
      )
      (access-transition env u event store end state (find_entitlement u db.entitlements))

-- Handling an event of a known type takes the latest of what is stored and the event.
access-handle_user_event :
    (py : Python) (env : Env) (u : Uuid) (event : RevenueCatEvent)
    (state : Tier × EntitlementStatus) (db : Db) (x : Handled)
    → event_state event.event_type ≡ some state
    → handle_user_event py env u event db ≡ ok x
    → access (find_entitlement u x.db.entitlements)
      ≡ latest (access (find_entitlement u db.entitlements)) event.event_timestamp_ms state
unfolding handle_user_event
access-handle_user_event py env u event state db x known h =
    let o = find_entitlement u db.entitlements in
    let ts = event.event_timestamp_ms in
    elim (Bool-cases (is_stale ts o)) [
      | inl stale ↦
          let same =
            ap (λ (y : Handled). y.db) (sym (ok-injective (rw (stale, handle_user_event) at h))) in
          rw (same, sym (is_stale-access ts o), stale) refl
      | inr fresh ↦
          let h₁ = rw (fresh, known, handle_user_event) at h in
          let (db', done, e) =
            >>=-eq-ok (apply_entitlement_transition py env u event state db)
              (λ db'. ok (record { outcome = "applied"; status = "processed"; db = db' })) h₁ in
          let (end, stored) = apply-eq-ok py env u event state db db' done in
          rw (sym (is_stale-access ts o), fresh)
            (ap (λ (y : Handled). access (find_entitlement u y.db.entitlements))
                (sym (ok-injective e))
              ∙ ap (λ (d : Db). access (find_entitlement u d.entitlements)) (sym stored)
              ∙ access-store_transition py env u event state db end)
    ]

-- What is known, then an earlier and a later event, in either order.
latest_last :
    (known : Access) (a b : ℤ) (s t : Tier × EntitlementStatus)
    → ltb_ℤ a b ≡ true
    → latest (latest known a s) b t ≡ latest known b t
latest_last (some (x, some (pos c))) (pos a) (pos b) s t h = ground arith
latest_last _ _ _ s t h = ground arith

latest_first :
    (known : Access) (a b : ℤ) (s t : Tier × EntitlementStatus)
    → ltb_ℤ a b ≡ true
    → latest (latest known b t) a s ≡ latest known b t
latest_first (some (x, some (pos c))) (pos a) (pos b) s t h = ground arith
latest_first _ _ _ s t h = ground arith

-- Of two events of handled types, the second has a strictly later timestamp. Handled in that order or
-- in the other, at whatever times, they leave a user's tier, status and last timestamp as follows:
-- those stored before where their timestamp is later than the second event's, and otherwise those of
-- the second event.
pub handle_user_event-converges :
    (py : Python) (env₁ env₂ env₃ env₄ : Env) (u : Uuid) (a b : RevenueCatEvent)
    (s t : Tier × EntitlementStatus) (db : Db) (x₁ x₂ y₁ y₂ : Handled)
    → event_state a.event_type ≡ some s
    → event_state b.event_type ≡ some t
    → ltb_ℤ a.event_timestamp_ms b.event_timestamp_ms ≡ true
    → handle_user_event py env₁ u a db ≡ ok x₁
    → handle_user_event py env₂ u b x₁.db ≡ ok x₂
    → handle_user_event py env₃ u b db ≡ ok y₁
    → handle_user_event py env₄ u a y₁.db ≡ ok y₂
    → let won = latest (access (find_entitlement u db.entitlements)) b.event_timestamp_ms t in
      (access (find_entitlement u x₂.db.entitlements) ≡ won)
      × (access (find_entitlement u y₂.db.entitlements) ≡ won)
handle_user_event-converges py env₁ env₂ env₃ env₄ u a b s t db x₁ x₂ y₁ y₂ a_known b_known lt h₁ h₂
      h₃ h₄ =
    let known = access (find_entitlement u db.entitlements) in
    let ta = a.event_timestamp_ms in
    let tb = b.event_timestamp_ms in
    (
      access-handle_user_event py env₂ u b t x₁.db x₂ b_known h₂
          ∙ ap (λ (k : Access). latest k tb t)
              (access-handle_user_event py env₁ u a s db x₁ a_known h₁)
          ∙ latest_last known ta tb s t lt,
      access-handle_user_event py env₄ u a s y₁.db y₂ a_known h₄
          ∙ ap (λ (k : Access). latest k ta s)
              (access-handle_user_event py env₃ u b t db y₁ b_known h₃)
          ∙ latest_first known ta tb s t lt,
    )
