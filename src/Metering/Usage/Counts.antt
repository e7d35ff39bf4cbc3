-- ===== src/Metering/Usage/Counts.antt =====
-- What `increment_usage` (Metering/Usage) does to every counter.
use voice_spend.Prelude.{
  ℕ, zero, suc, ◌+◌, ◌<◌, ◌^◌, String, ◌≡◌, refl, sym, inl, inr, ◌&&◌, List, [], ◌∷◌, ok, arith,
  ltb, ◌==◌, str_eq, eq_iff, if◌then◌else◌, Bool-cases, ok-injective,
}
use voice_spend.Models.{Uuid, UsageCounter}
use voice_spend.Http.{Env}
use voice_spend.Metering.Usage.{get_usage_count, add_count, increment_usage}

get_usage_count-add_count :
    (env : Env) (u v : Uuid) (p q : String) (n : ℕ) (cs : List UsageCounter)
    → get_usage_count (add_count env u p n cs) v q
      ≡ get_usage_count cs v q + (if u == v && str_eq p q then n else 0)
unfolding get_usage_count add_count
get_usage_count-add_count env u v p q n [] = ground arith
get_usage_count-add_count env u v p q n (c ∷ cs) = ground (
  arith,
  get_usage_count-add_count env u v p q n cs,
  eq_iff p q,
  eq_iff c.period p,
  eq_iff c.period q,
)

-- A successful increment adds `n` to the counter of its user and period, and to no other.
pub get_usage_count-increment_usage :
    (env : Env) (u v : Uuid) (p q : String) (n : ℕ) (cs cs' : List UsageCounter)
    → increment_usage env u p n cs ≡ ok cs'
    → get_usage_count cs' v q ≡ get_usage_count cs v q + (if u == v && str_eq p q then n else 0)
unfolding increment_usage
get_usage_count-increment_usage env u v p q zero cs cs' h = rw (sym (ok-injective h)) (ground arith)
get_usage_count-increment_usage env u v p q (suc n) cs cs' h =
    elim (Bool-cases (ltb (get_usage_count cs u p + suc n) (2 ^ 31))) [
      | inl fits ↦
          let e = ok-injective (rw (fits, increment_usage) at h) in
          rw (← e) (get_usage_count-add_count env u v p q (suc n) cs)
      | inr full ↦ let h' = rw (full, increment_usage) at h in cc h'
    ]

-- It succeeds as long as the sum fits the column.
pub increment_usage-ok :
    (env : Env) (u : Uuid) (p : String) (n : ℕ) (cs : List UsageCounter)
    → get_usage_count cs u p + n < 2 ^ 31
    → (cs' : List UsageCounter) × (increment_usage env u p n cs ≡ ok cs')
unfolding increment_usage
increment_usage-ok env u p zero cs h = (cs, refl)
increment_usage-ok env u p (suc n) cs h = (add_count env u p (suc n) cs, ground arith)
