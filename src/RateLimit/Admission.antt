-- ===== src/RateLimit/Admission.antt =====
-- What the limiter admits: app/services/ratelimit/limiter.py and dependency.py.
use voice_spend.Prelude.{
  ℕ, ◌+◌, ◌≤◌, ◌<◌, String, ◌≡◌, ◌≢◌, refl, ap, sym, subst, ◌∙◌, inl, inr, true, some, [], ◌∷◌, ok,
  arith, Option-cases, ◌↔◌,
}
use voice_spend.RateLimit.{
  Scope, Counter, Redis, live, store_counter, incremented, hit, decide, Limits, minute, day,
  enforce,
}
use voice_spend.RateLimit.Windows.{
  same_scope_iff, count_of, live-store_counter, live-key, incremented-key,
}

-- The counter after a hit is live.
pub incremented-live :
    (now : ℕ) (s : Scope) (window : ℕ) (redis : Redis)
    → 0 < window
    → now < (incremented now s window (live now s window redis)).expires
unfolding incremented
incremented-live now s window redis positive = elim (Option-cases (live now s window redis)) [
  | inl new ↦ rw (new, incremented) omega arith
  | inr (c, found) ↦
      let (_, _, q) = live-key now s window redis c found in rw (found, incremented) q
]

pub hit-own :
    (now : ℕ) (s : Scope) (window : ℕ) (c : Counter) (redis : Redis)
    → c.scope ≡ s
    → c.window ≡ window
    → now < c.expires
    → live now s window (store_counter c redis) ≡ some c
hit-own now s window c redis p q alive =
    ground (arith, live-store_counter now s window c redis, same_scope_iff c.scope s)

hit-other :
    (now : ℕ) (s : Scope) (window : ℕ) (c : Counter) (redis : Redis)
    → c.scope ≡ s
    → c.window ≡ window
    → (other : Scope) (w : ℕ) → ¬ ((other ≡ s) × (w ≡ window))
    → live now other w (store_counter c redis) ≡ live now other w redis
hit-other now s window c redis p q other w differs =
    ground (arith, live-store_counter now other w c redis, same_scope_iff c.scope other)

-- A hit adds one to its own count, reports it, and leaves every other key as it was.
pub hit_lem :
    (now : ℕ) (s : Scope) (window : ℕ) (redis : Redis)
    → 0 < window
    → let ((count, _), after) = hit now s window redis in
      (count ≡ count_of (live now s window redis) + 1)
      × (count_of (live now s window after) ≡ count)
      × ((other : Scope) (w : ℕ)
          → ¬ ((other ≡ s) × (w ≡ window))
          → live now other w after ≡ live now other w redis)
unfolding hit
hit_lem now s window redis positive =
    let c = incremented now s window (live now s window redis) in
    let (p, q, r) = incremented-key now s window redis in
    let alive = incremented-live now s window redis positive in
    (
      r,
      ap count_of (hit-own now s window c redis p q alive) ∙ refl,
      λ other w differs. hit-other now s window c redis p q other w differs,
    )

decide_iff :
    (endpoint : String) (a ttl l b ttl' m : ℕ)
    → ((decide endpoint ((a, ttl, l) ∷ (b, ttl', m) ∷ [])).0 ≡ ok tt) ↔ ((a ≤ l) × (b ≤ m))
unfolding decide
decide_iff endpoint a ttl l b ttl' m = ground arith

-- Where Redis answers, a request passes exactly when the minute's count of its scope is under
-- the limit per minute and the day's count is under the limit per day; both counts go up by one
-- whether it passes or not, and the counts of another device or user stay as they were.
pub enforce-admits :
    (limits : Limits) (now : ℕ) (scope : Scope) (endpoint : String) (redis : Redis)
    → let ((result, _), after) = enforce limits now true true scope endpoint redis in
      let used = λ (w : ℕ). count_of (live now scope w redis) in
      ((result ≡ ok tt) ↔ ((used minute < limits.per_minute) × (used day < limits.per_day)))
      × (count_of (live now scope minute after) ≡ used minute + 1)
      × (count_of (live now scope day after) ≡ used day + 1)
      × ((other : Scope) (w : ℕ) → other ≢ scope → live now other w after ≡ live now other w redis)
unfolding enforce
enforce-admits limits now scope endpoint redis =
    let first = hit_lem now scope minute redis (omega arith) in
    let redis₁ = (hit now scope minute redis).1 in
    let second = hit_lem now scope day redis₁ (omega arith) in
    let day_before = first.2 scope day (λ h. ground arith) in
    let minute_after = second.2 scope minute (λ h. ground arith) in
    let count_day = second.0 ∙ ap (λ c. count_of c + 1) day_before in
    (
      (
        λ passes.
            let (p, q) = (decide_iff endpoint _ _ _ _ _ _).0 passes in
            (
              subst (λ n. n ≤ limits.per_minute) (first.0 ∙ omega arith) p,
              subst (λ n. n ≤ limits.per_day) (count_day ∙ omega arith) q,
            ),
        λ room. (decide_iff endpoint _ _ _ _ _ _).1 (
          subst (λ n. n ≤ limits.per_minute) (sym (first.0 ∙ omega arith)) room.0,
          subst (λ n. n ≤ limits.per_day) (sym (count_day ∙ omega arith)) room.1,
        ),
      ),
      ap count_of minute_after ∙ first.1 ∙ first.0,
      second.1 ∙ count_day,
      λ other w differs. second.2 other w (λ h. differs h.0) ∙ first.2 other w (λ h. differs h.0),
    )
