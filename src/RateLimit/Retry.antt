-- ===== src/RateLimit/Retry.antt =====
-- The Retry-After of a refused request: app/services/ratelimit/dependency.py.
use voice_spend.Prelude.{
  ℕ, ◌+◌, ◌*◌, ◌/◌, ◌≤◌, ◌<◌, String, ◌≡◌, ◌≢◌, refl, sym, subst, ◌⊎◌, inl, inr, true, none, [],
  ◌∷◌, ◌↔◌, err, arith, ltb, Bool-cases,
}
use voice_spend.Http.{retry_after}
use voice_spend.RateLimit.{
  Scope, Redis, live, incremented, hit, retry_seconds, decide, Limits, minute, day, enforce,
}
use voice_spend.RateLimit.Windows.{same_scope_iff, count_of, live-store_counter, incremented-key}
use voice_spend.RateLimit.Admission.{incremented-live, hit_lem}

-- `n` is the least number of whole seconds, one at least, that is no shorter than `ttl` milliseconds.
abbrev pub IsWait : ℕ → ℕ → Type 0
IsWait ttl n = (1 ≤ n) × (ttl ≤ n * 1000) × ((n ≡ 1) ⊎ (n * 1000 < ttl + 1000))

retry_seconds-IsWait : (ttl : ℕ) → IsWait ttl (retry_seconds ttl)
unfolding retry_seconds
retry_seconds-IsWait ttl = elim (Bool-cases (ltb 1 ((ttl + 999) / 1000))) [
  | inl long ↦ rw (long, retry_seconds) (ground arith, ground arith, inr (ground arith))
  | inr short ↦ rw (short, retry_seconds) (ground arith, ground arith, inl refl)
]

decide-retry_after :
    (endpoint : String) (a ttl l b ttl' m n : ℕ)
    → (decide endpoint ((a, ttl, l) ∷ (b, ttl', m) ∷ [])).0 ≡ err (retry_after n)
    → ((l < a) × (n ≡ retry_seconds ttl)) ⊎ ((a ≤ l) × (m < b) × (n ≡ retry_seconds ttl'))
unfolding decide
decide-retry_after endpoint a ttl l b ttl' m n h = elim (Bool-cases (ltb l a)) [
  | inl over ↦ inl (ground arith)
  | inr under ↦ elim (Bool-cases (ltb m b)) [
    | inl over ↦ inr (ground arith)
    | inr room ↦ absurd (ground arith)
  ]
]

-- The counter of a hit lapses exactly when the milliseconds that the hit reports have passed.
hit_lapses :
    (now : ℕ) (s : Scope) (window : ℕ) (redis : Redis) (t : ℕ)
    → 0 < window
    → let ((_, ttl), after) = hit now s window redis in
      (live t s window after ≡ none) ↔ (now + ttl ≤ t)
unfolding hit
hit_lapses now s window redis t positive =
    let c = incremented now s window (live now s window redis) in
    let (p, q, _) = incremented-key now s window redis in
    let alive = incremented-live now s window redis positive in
    ground (arith, live-store_counter t s window c redis, same_scope_iff c.scope s)

-- Another window of the same scope keeps its counter, at every time.
hit_apart :
    (now : ℕ) (s : Scope) (window w : ℕ) (redis : Redis) (t : ℕ)
    → w ≢ window
    → live t s w (hit now s window redis).1 ≡ live t s w redis
unfolding hit
hit_apart now s window w redis t apart =
    let c = incremented now s window (live now s window redis) in
    let (p, q, _) = incremented-key now s window redis in
    ground (arith, live-store_counter t s w c redis)

-- The window of a key is spent, and its counter lapses in a time for which `n` seconds are the wait.
abbrev pub IsSpent : ℕ → Scope → Redis → Redis → ℕ → ℕ → ℕ → Type 0
IsSpent now scope before after window limit n =
    (limit ≤ count_of (live now scope window before))
    × ((ttl : ℕ) × IsWait ttl n × ((t : ℕ) → (live t scope window after ≡ none) ↔ (now + ttl ≤ t)))

-- Where Redis answers and a request is refused, the minute's window or, with room in that one, the
-- day's window of its scope is spent; and the Retry-After is the least number of whole seconds, one at
-- least, after which the counter of that window has lapsed.
pub enforce-IsSpent :
    (limits : Limits) (now : ℕ) (scope : Scope) (endpoint : String) (redis : Redis) (n : ℕ)
    → (enforce limits now true true scope endpoint redis).0.0 ≡ err (retry_after n)
    → let after = (enforce limits now true true scope endpoint redis).1 in
      IsSpent now scope redis after minute limits.per_minute n
      ⊎ ((count_of (live now scope minute redis) < limits.per_minute)
          × IsSpent now scope redis after day limits.per_day n)
unfolding enforce
enforce-IsSpent limits now scope endpoint redis n h =
    let redis₁ = (hit now scope minute redis).1 in
    let (first, _, _) = hit_lem now scope minute redis (omega arith) in
    let (second, _, _) = hit_lem now scope day redis₁ (omega arith) in
    let same = hit_apart now scope minute day redis now (omega arith) in
    elim (decide-retry_after endpoint _ _ _ _ _ _ n h) [
      | inl (over, wait) ↦ inl (
        omega arith,
        (
          (hit now scope minute redis).0.1,
          subst (IsWait (hit now scope minute redis).0.1) (sym wait) (retry_seconds-IsWait _),
          λ t.
              rw (hit_apart now scope day minute redis₁ t (omega arith))
                (hit_lapses now scope minute redis t (omega arith)),
        ),
      )
      | inr (room, over, wait) ↦ inr (
        omega arith,
        (
          let used = rw same at second in omega arith,
          (
            (hit now scope day redis₁).0.1,
            subst (IsWait (hit now scope day redis₁).0.1) (sym wait) (retry_seconds-IsWait _),
            λ t. hit_lapses now scope day redis₁ t (omega arith),
          ),
        ),
      )
    ]
