-- ===== src/Fx/History.antt =====
-- What the upsert of a day's rates leaves in the table: app/services/fx/ingest.py.
use voice_spend.Prelude.{
  ℕ, String, ◌≡◌, refl, ap, ◌∙◌, inl, inr, ◌&&◌, Option, none, some, List, [], ◌∷◌, ok, >>=-eq-ok,
  arith, ltb, ◌==◌, str_eq, eq_iff, if◌then◌else◌, Bool-cases, Option-cases, length,
}
use Prim.Native.String.{count}
use voice_spend.Prelude.Int.{ℤ}
use voice_spend.Decimal.{Decimal, to_numeric}
use voice_spend.Models.{Uuid, Instant, Date, FxRate}
use voice_spend.Fx.Rates.{Values, lookup, is_rate_of, put_rate, put_rates, upsert_rates}

-- The rate that the table holds for a currency on a date.
unfoldable pub rate_at : String → Date → List FxRate → Option ℤ
rate_at code date [] = none
rate_at code date (x ∷ xs) =
    let rest = rate_at code date xs in if is_rate_of code date x then some x.rate_per_usd else rest

-- No code stands twice, as in a dict.
abbrev pub IsDict : Values → Type 0
IsDict [] = Unit
IsDict ((code, value) ∷ values) = (lookup values code ≡ none) × IsDict values

-- What a dict of rates makes of the rate of a currency: its own where it has one.
unfoldable pub refreshed : Values → String → Option ℤ → Option ℤ
refreshed values code before = elim (lookup values code) [
  | none ↦ before
  | some v ↦ to_numeric 18 8 v
]

rate_at-put_rate :
    (now : Instant) (id : Uuid) (code : String) (date : Date) (r : ℤ) (source : String)
    (rates : List FxRate) (c : String) (d : Date)
    → rate_at c d (put_rate now id code date r source rates)
      ≡ (if str_eq code c && date == d then some r else rate_at c d rates)
unfolding rate_at put_rate is_rate_of
rate_at-put_rate now id code date r source [] c d = refl
rate_at-put_rate now id code date r source (x ∷ xs) c d = ground (
  arith,
  rate_at-put_rate now id code date r source xs c d,
  eq_iff x.currency_code code,
  eq_iff x.currency_code c,
  eq_iff code c,
)

refreshed-cons :
    (code : String) (rate : Decimal) (values : Values) (c : String) (before : Option ℤ)
    → refreshed ((code, rate) ∷ values) c before
      ≡ (if str_eq code c then to_numeric 18 8 rate else refreshed values c before)
unfolding refreshed lookup
refreshed-cons code rate values c before = elim (Bool-cases (str_eq code c)) [
  | inl same ↦ rw (refreshed, lookup, same) refl
  | inr other ↦ rw (refreshed, lookup, other) refl
]

refreshed-missing :
    (values : Values) (c : String) (before : Option ℤ)
    → lookup values c ≡ none
    → refreshed values c before ≡ before
unfolding refreshed
refreshed-missing values c before missing = rw (refreshed, missing) refl

refreshed-empty : (c : String) (before : Option ℤ) → refreshed [] c before ≡ before
unfolding refreshed lookup
refreshed-empty c before = refl

put_rates_lem :
    (now : Instant) (draw : ℕ → Uuid) (date : Date) (source : String) (values : Values)
    (rates after : List FxRate)
    → IsDict values
    → put_rates now draw date source values rates ≡ ok after
    → (c : String) (d : Date)
    → rate_at c d after
      ≡ (if date == d then refreshed values c (rate_at c d rates) else rate_at c d rates)
unfolding put_rates
put_rates_lem now draw date source [] rates after dict h c d =
    let same : after ≡ rates = cc in ground (arith, refreshed-empty c (rate_at c d rates))
put_rates_lem now draw date source ((code, rate) ∷ values) rates after dict h c d =
    elim (Bool-cases (ltb 3 (count code))) [
      | inl long ↦ absurd (ground (arith))
      | inr short ↦ elim (Option-cases (to_numeric 18 8 rate)) [
        | inl over ↦ absurd (ground (arith))
        | inr (units, fits) ↦
            let table = put_rate now (draw (length values)) code date units source rates in
            let later =
              put_rates_lem now draw date source values table after dict.1 (ground (arith)) c d in
            ground (
              arith,
              later,
              refreshed-cons code rate values c (rate_at c d rates),
              refreshed-missing values c (rate_at c d table),
              dict.0,
              rate_at-put_rate now (draw (length values)) code date units source rates c d,
              eq_iff code c,
            )
      ]
    ]

-- A run for a date sets the rates that its dict names to their NUMERIC(18, 8) values, and keeps
-- the rate of every other currency and every other date, so a second run with the same dict
-- changes no rate.
pub upsert_rates-history :
    (now : Instant) (draw : ℕ → Uuid) (values : Values) (date : Date) (source : String)
    (rates after : List FxRate) (n : ℕ)
    → IsDict values
    → upsert_rates now draw values date source rates ≡ ok (n, after)
    → (c : String) (d : Date)
    → rate_at c d after
      ≡ (if date == d then refreshed values c (rate_at c d rates) else rate_at c d rates)
unfolding upsert_rates
upsert_rates-history now draw values date source rates after n dict h c d =
    let (table, written, p) = >>=-eq-ok _ _ h in
    put_rates_lem now draw date source values rates after dict (written ∙ ap ok (ground arith)) c d
