-- ===== src/Fx/Lookup.antt =====
-- Which rate a conversion reads, and when it has none: app/services/currency/converter.py.
use voice_spend.Prelude.{
  ◌≤◌, String, ◌≡◌, refl, ◌≢◌, ◌⊎◌, inl, inr, ◌&&◌, Option, none, some, List, [], ◌∷◌, ok, arith,
  ltb, leb, str_eq, eq_iff, Bool-cases, Option-cases, All, All-map, subst, ◌↔◌,
}
use voice_spend.Decimal.{Decimal}
use voice_spend.Models.{Date, FxRate}
use voice_spend.Fx.Convert.{latest_rate, rate_per_usd, convert}

-- What it is for a row to be the rate of a currency on a date: no row of that currency on or
-- before the date is later.
abbrev pub IsLatest : String → Date → List FxRate → Option FxRate → Type 0
IsLatest code as_of rates none = All (λ x. x.currency_code ≡ code → ¬ (x.rate_date ≤ as_of)) rates
IsLatest code as_of rates (some y) =
    (y.currency_code ≡ code)
    × (y.rate_date ≤ as_of)
    × All (λ x. x.currency_code ≡ code → x.rate_date ≤ as_of → x.rate_date ≤ y.rate_date) rates

-- The lookup finds the latest row of a currency on or before a date, and misses only where the
-- table has no such row.
pub latest_rate-IsLatest :
    (code : String) (as_of : Date) (rates : List FxRate)
    → IsLatest code as_of rates (latest_rate code as_of rates)
unfolding latest_rate
latest_rate-IsLatest code as_of [] = tt
latest_rate-IsLatest code as_of (x ∷ xs) =
    elim (Bool-cases (str_eq x.currency_code code && leb x.rate_date as_of)) [
      | inl hit ↦
          let same = (eq_iff x.currency_code code).0 (ground arith) in
          let early : x.rate_date ≤ as_of = ground arith in
          elim (Option-cases (latest_rate code as_of xs)) [
            | inl none_left ↦
                let before =
                  subst (IsLatest code as_of xs) none_left (latest_rate-IsLatest code as_of xs) in
                rw (hit, none_left)
                  (
                    same,
                    early,
                    (λ p q. omega arith, All-map _ _ (λ z h p q. absurd (h p q)) xs before),
                  )
            | inr (y, found) ↦
                let (p, q, before) =
                  subst (IsLatest code as_of xs) found (latest_rate-IsLatest code as_of xs) in
                rw (hit, found)
                  elim (Bool-cases (ltb x.rate_date y.rate_date)) [
                    | inl later ↦ rw (later) (p, q, (λ e f. ground arith, before))
                    | inr newer ↦ rw (newer) (
                      same,
                      early,
                      (
                        λ e f. omega arith,
                        All-map _ _ (λ z h e f. let k = h e f in ground arith) xs before,
                      ),
                    )
                  ]
          ]
      | inr miss ↦ elim (Option-cases (latest_rate code as_of xs)) [
        | inl none_left ↦
            let before =
              subst (IsLatest code as_of xs) none_left (latest_rate-IsLatest code as_of xs) in
            rw (miss, none_left) (λ p q. ground (arith, eq_iff x.currency_code code), before)
        | inr (y, found) ↦
            let (p, q, before) =
              subst (IsLatest code as_of xs) found (latest_rate-IsLatest code as_of xs) in
            rw (miss, found)
              (p, q, (λ e f. absurd (ground (arith, eq_iff x.currency_code code)), before))
      ]
    ]

missing-latest_rate :
    (code : String) (as_of : Date) (rates : List FxRate)
    → All (λ x. x.currency_code ≡ code → ¬ (x.rate_date ≤ as_of)) rates
    → latest_rate code as_of rates ≡ none
unfolding latest_rate
missing-latest_rate code as_of [] a = refl
missing-latest_rate code as_of (x ∷ xs) (h, a) =
    let rest = missing-latest_rate code as_of xs a in
    elim (Bool-cases (str_eq x.currency_code code && leb x.rate_date as_of)) [
      | inl hit ↦ absurd (h ((eq_iff x.currency_code code).0 (ground arith)) (ground arith))
      | inr miss ↦ rw miss rest
    ]

latest-missing :
    (code : String) (as_of : Date) (rates : List FxRate)
    → latest_rate code as_of rates ≡ none
    → All (λ x. x.currency_code ≡ code → ¬ (x.rate_date ≤ as_of)) rates
latest-missing code as_of rates h =
    subst (IsLatest code as_of rates) h (latest_rate-IsLatest code as_of rates)

-- A currency other than USD of which the table has no rate on or before a date.
abbrev pub IsUnrated : String → Date → List FxRate → Type 0
IsUnrated code as_of rates =
    (code ≢ "USD") × All (λ x. x.currency_code ≡ code → ¬ (x.rate_date ≤ as_of)) rates

rate_per_usd-missing :
    (rates : List FxRate) (code : String) (as_of : Date)
    → (rate_per_usd rates code as_of ≡ none) ↔ IsUnrated code as_of rates
unfolding rate_per_usd
rate_per_usd-missing rates code as_of = (
  λ h. (
    ground (arith, eq_iff code "USD"),
    latest-missing code as_of rates (ground (arith, eq_iff code "USD")),
  ),
  λ (rated, a). ground (arith, eq_iff code "USD", missing-latest_rate code as_of rates a),
)

-- A conversion answers without a value exactly where the two currencies differ and one of them is
-- another one than USD of which the table has no rate on or before the date.
pub convert-missing :
    (rates : List FxRate) (amount : Decimal) (a b : String) (as_of : Date)
    → (convert rates amount a b as_of ≡ ok none)
      ↔ ((a ≢ b) × (IsUnrated a as_of rates ⊎ IsUnrated b as_of rates))
unfolding convert
convert-missing rates amount a b as_of =
    ground
      (arith, eq_iff a b, rate_per_usd-missing rates a as_of, rate_per_usd-missing rates b as_of)
