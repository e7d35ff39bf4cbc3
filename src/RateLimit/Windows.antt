-- ===== src/RateLimit/Windows.antt =====
-- The counters of the limiter: each window counts its own hits, lapses, and bounds what passes.
use voice_spend.Prelude.{
  ℕ, ◌+◌, ◌<◌, ◌≡◌, refl, inl, inr, true, ◌&&◌, Option, none, some, [], ◌∷◌, arith, ltb, ◌==◌,
  if◌then◌else◌, Option-cases, ◌↔◌,
}
use voice_spend.RateLimit.{
  Scope, device, user, same_scope, Counter, Redis, live, store_counter, incremented,
}

pub same_scope_iff : (a b : Scope) → (same_scope a b ≡ true) ↔ (a ≡ b)
same_scope_iff (device a) (device b) = ground arith
same_scope_iff (device a) (user b) = ground arith
same_scope_iff (user a) (device b) = ground arith
same_scope_iff (user a) (user b) = ground arith

-- The count that a key shows at a time.
abbrev pub count_of : Option Counter → ℕ
count_of none = 0
count_of (some c) = c.count

-- A counter that is stored is found under its key while it lives, and others are found as before.
pub live-store_counter :
    (now : ℕ) (s : Scope) (window : ℕ) (c : Counter) (redis : Redis)
    → live now s window (store_counter c redis) ≡ (
        if same_scope c.scope s && c.window == window
        then if ltb now c.expires then some c else none
        else live now s window redis)
unfolding live store_counter
live-store_counter now s window c [] = ground arith
live-store_counter now s window c (x ∷ xs) = ground (
  arith,
  live-store_counter now s window c xs,
  same_scope_iff x.scope c.scope,
  same_scope_iff x.scope s,
  same_scope_iff c.scope s,
)

pub live-key :
    (now : ℕ) (s : Scope) (window : ℕ) (redis : Redis) (c : Counter)
    → live now s window redis ≡ some c
    → (c.scope ≡ s) × (c.window ≡ window) × (now < c.expires)
unfolding live
live-key now s window [] c h = cc
live-key now s window (x ∷ xs) c h =
    ground (arith, live-key now s window xs c, same_scope_iff x.scope s)

pub incremented-key :
    (now : ℕ) (s : Scope) (window : ℕ) (redis : Redis)
    → let c = incremented now s window (live now s window redis) in
      (c.scope ≡ s) × (c.window ≡ window) × (c.count ≡ count_of (live now s window redis) + 1)
unfolding incremented
incremented-key now s window redis = elim (Option-cases (live now s window redis)) [
  | inl new ↦ rw (new, incremented) (refl, refl, omega arith)
  | inr (c, found) ↦
      let (p, q, _) = live-key now s window redis c found in rw (found, incremented) (p, q, refl)
]
