-- ===== src/Webhook/Redelivery.antt =====
-- An event that was handled once is never handled again.
use voice_spend.Prelude.{
  String, ◌≡◌, refl, ap, sym, inl, inr, true, Option, List, [], ◌∷◌, ◌++◌, Result, ok, err, ◌>>=◌,
  >>=-eq-ok, ok-injective, arith, eq_iff, Bool-cases, Option-cases,
}
use voice_spend.Models.{Uuid, ProcessedWebhookEvent, Db}
use voice_spend.Http.{Failure, World, emit, Env, Python}
use voice_spend.Webhook.{
  RevenueCatEvent, verify_auth, handle_user_event, handle_recorded, record_event, handle_event,
  Handled, answer, revenuecat_webhook, is_recorded, has_user, store_transition,
}
use voice_spend.Webhook.Frame.{handle_user_event-cases}

user_event-events :
    (py : Python) (env : Env) (u : Uuid) (event : RevenueCatEvent) (db : Db) (x : Handled)
    → handle_user_event py env u event db ≡ ok x
    → x.db.events ≡ db.events
unfolding store_transition
user_event-events py env u event db x h = elim (handle_user_event-cases py env u event db x h) [
  | inl same ↦ ap (λ (d : Db). d.events) same
  | inr (_, _, _, _, e) ↦ ap (λ (d : Db). d.events) e
]

handle_recorded-events :
    (py : Python) (env : Env) (event : RevenueCatEvent) (db : Db) (x : Handled)
    → handle_recorded py env event db ≡ ok x
    → x.db.events ≡ db.events
unfolding handle_recorded
handle_recorded-events py env event db x h = elim (Option-cases (py.uuid event.app_user_id)) [
  | inl no_id ↦
      ap (λ (y : Handled). y.db.events) (sym (ok-injective (rw (no_id, handle_recorded) at h)))
  | inr (u, found) ↦
      let h₁ = rw (found, handle_recorded) at h in
      elim (Bool-cases (has_user u db.users)) [
        | inl known ↦ user_event-events py env u event db x (rw known at h₁)
        | inr unknown ↦ ap (λ (y : Handled). y.db.events) (sym (ok-injective (rw unknown at h₁)))
      ]
]

is_recorded-append :
    (event : RevenueCatEvent) (env : Env) (es : List ProcessedWebhookEvent)
    → is_recorded event.id (
        es
        ++ record { event_id = event.id; event_type = event.event_type; received_at = env.now }
          ∷ [])
      ≡ true
unfolding is_recorded
is_recorded-append event env [] = ground (arith, eq_iff event.id event.id)
is_recorded-append event env (e ∷ es) = ground (arith, is_recorded-append event env es)

handle_event-recorded :
    (py : Python) (env : Env) (event : RevenueCatEvent) (db : Db) (x : Handled)
    → handle_event py env event db ≡ ok x
    → is_recorded event.id x.db.events ≡ true
unfolding handle_event record_event
handle_event-recorded py env event db x h = elim (Bool-cases (is_recorded event.id db.events)) [
  | inl old ↦
      rw (← ap (λ (y : Handled). y.db.events) (ok-injective (rw (old, handle_event) at h))) old
  | inr new ↦
      rw
        (handle_recorded-events py env event (record_event env event db) x
          (rw (new, handle_event) at h))
        (is_recorded-append event env db.events)
]

handle_event_again :
    (py : Python) (env : Env) (event : RevenueCatEvent) (db : Db)
    → is_recorded event.id db.events ≡ true
    → handle_event py env event db
      ≡ ok (record { outcome = "duplicate"; status = "already_processed"; db = db })
unfolding handle_event
handle_event_again py env event db h = rw (h, handle_event) refl

answer-eq-ok :
    (event : RevenueCatEvent) (w w' : World) (r : Result Failure Handled) (status : String)
    → answer event w r ≡ (ok status, w')
    → (x : Handled) × (r ≡ ok x) × (w'.db ≡ x.db)
unfolding answer emit
answer-eq-ok event w w' (err e) status h =
    let h₁ = ap (λ (p : Result Failure String × World). p.0) h in cc h₁
answer-eq-ok event w w' (ok x) status h =
    (x, refl, ap (λ (p : Result Failure String × World). p.1.db) (sym h))

-- Once a webhook call with an event has been answered, a further call with the same event and
-- credentials, at any later time and on the database that the first one left, is answered
-- `already_processed` and leaves the database as it is.
pub revenuecat_webhook-redelivered :
    (py : Python) (expected : String) (env env' : Env) (authorization : Option String)
    (event : RevenueCatEvent) (w w' : World) (status : String)
    → revenuecat_webhook py expected env authorization event w ≡ (ok status, w')
    → let (reply, after) = revenuecat_webhook py expected env' authorization event w' in
      (reply ≡ ok "already_processed") × (after.db ≡ w'.db)
unfolding revenuecat_webhook answer emit
revenuecat_webhook-redelivered py expected env env' authorization event w w' status h =
    let (x, handled, same) =
      answer-eq-ok event w w'
        (verify_auth py expected authorization >>= λ _. handle_event py env event w.db) status h in
    let (_, allowed, e) =
      >>=-eq-ok (verify_auth py expected authorization) (λ _. handle_event py env event w.db)
        handled in
    let recorded : is_recorded event.id w'.db.events ≡ true =
      rw same (handle_event-recorded py env event w.db x e) in
    rw (allowed, handle_event_again py env' event w'.db recorded) (refl, refl)
