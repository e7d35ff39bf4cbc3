-- ===== src/Tests/Limits.antt =====
-- The rate limiter at a concrete key (app/services/ratelimit).
use voice_spend.Prelude.{ℕ, ◌+◌, ◌<◌, ◌≡◌, ◌≢◌, true, [], ◌∷◌, ok, ◌↔◌}
use voice_spend.RateLimit.{Scope, device, Redis, live, minute, day, Limits, enforce}
use voice_spend.RateLimit.Windows.{count_of}
use voice_spend.RateLimit.Admission.{enforce-admits}

abbrev two_a_minute : Limits
two_a_minute = record { per_minute = 2; per_day = 100; fail_open = true }

abbrev one_hit : Redis
one_hit = record { scope = device 10; window = 60; count = 1; expires = 61000 } ∷ []

enforce-admits_example :
    (((enforce two_a_minute 5000 true true (device 10) "parse" one_hit).0.0 ≡ ok tt) ↔ (
      (count_of (live 5000 (device 10) minute one_hit) < 2)
      × (count_of (live 5000 (device 10) day one_hit) < 100)))
    × (count_of (
          live 5000
            (device 10)
            minute
            (enforce two_a_minute 5000 true true (device 10) "parse" one_hit).1)
        ≡ count_of (live 5000 (device 10) minute one_hit) + 1)
    × (count_of (
          live 5000
            (device 10)
            day
            (enforce two_a_minute 5000 true true (device 10) "parse" one_hit).1)
        ≡ count_of (live 5000 (device 10) day one_hit) + 1)
    × ((other : Scope) (w : ℕ)
        → other ≢ device 10
        → live 5000 other w (enforce two_a_minute 5000 true true (device 10) "parse" one_hit).1
          ≡ live 5000 other w one_hit)
enforce-admits_example = enforce-admits two_a_minute 5000 (device 10) "parse" one_hit
