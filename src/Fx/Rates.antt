-- ===== src/Fx/Rates.antt =====
-- The ingestion of rates: app/services/fx/ingest.py. A dict with text keys is the list of its
-- items; a provider is what its calls return.
use Prim.Native.String.{count}
use voice_spend.Prelude.{
  ℕ, zero, suc, ◌-◌, String, Bool, true, false, ◌&&◌, ◌||◌, Option, none, some, List, [], ◌∷◌,
  Result, ok, err, ◌>>=◌, ltb, ◌==◌, str_eq, if◌then◌else◌, length,
}
use voice_spend.Prelude.Int.{ℤ, pos}
use voice_spend.Decimal.{
  Decimal, finite, ArithmeticError, is_finite, is_positive, div, quantize, to_numeric,
}
use voice_spend.Models.{Uuid, Instant, Date, FxRate}
use voice_spend.Http.{DbError, out_of_range, value_too_long, Failure, database, arithmetic, Python}

abbrev pub usd : String
usd = "USD"

module _ {V : Type 0} where
  -- d.get(code)
  unfoldable pub lookup : List (String × V) → String → Option V
  lookup [] code = none
  lookup ((c, v) ∷ d) code = let rest = lookup d code in if str_eq c code then some v else rest

  -- d[code] = v
  unfoldable pub assign : List (String × V) → String → V → List (String × V)
  assign [] code v = (code, v) ∷ []
  assign ((c, w) ∷ d) code v =
      let rest = assign d code v in if str_eq c code then (c, v) ∷ d else (c, w) ∷ rest

abbrev pub Values : Type 0
Values = List (String × Decimal)

abbrev pub raise_arithmetic : {A : Type 0} → Result ArithmeticError A → Result Failure A
raise_arithmetic (ok a) = ok a
raise_arithmetic (err e) = err (arithmetic e)

-- {code: value / usd_value for code, value in values.items()}
unfoldable pub divide_all : Decimal → Values → Result ArithmeticError Values
divide_all usd_value [] = ok []
divide_all usd_value ((code, value) ∷ values) =
    let rest = divide_all usd_value values in
    do rate ← div value usd_value; rates ← rest; ok ((code, rate) ∷ rates)

-- A leg that the payload can be pivoted on, and a rate that is written.
unfoldable pub is_usable : Decimal → Bool
is_usable value = is_finite value && is_positive value

unfoldable pub candidates : String → Values → Result ArithmeticError Values
candidates base_currency values =
    if str_eq base_currency usd then ok values else elim (lookup values usd) [
      | none ↦ ok []
      | some usd_value ↦ if is_usable usd_value then divide_all usd_value values else ok []
    ]

-- The loop over the candidates, from the entries that are already normalized.
unfoldable pub normalize_all : Python → Values → Values → Result ArithmeticError Values
normalize_all py [] normalized = ok normalized
normalize_all py ((code, rate) ∷ rates) normalized = elim (is_usable rate) [
  | true ↦ quantize 8 rate >>= λ quantized.
      normalize_all py rates (assign normalized (py.upper code) quantized)
  | false ↦ normalize_all py rates normalized
]

unfoldable pub normalize_to_usd_pivot : Python → String → Values → Result ArithmeticError Values
normalize_to_usd_pivot py base_currency values = do
  rates ← candidates (py.upper base_currency) values
  normalized ← normalize_all py rates []
  ok (assign normalized usd (finite (pos 100000000) 8))

-- The row of a currency and a date, in the columns CHAR(3), DATE, NUMERIC(18, 8) and VARCHAR.
unfoldable pub is_rate_of : String → Date → FxRate → Bool
is_rate_of code date x = str_eq x.currency_code code && x.rate_date == date

-- ON CONFLICT (currency_code, rate_date) DO UPDATE
unfoldable pub put_rate : Instant → Uuid → String → Date → ℤ → String → List FxRate → List FxRate
put_rate now id code date rate source [] =
    record {
      id = id;
      currency_code = code;
      rate_date = date;
      rate_per_usd = rate;
      source = some source;
      created_at = now;
      updated_at = now;
    }
    ∷ []
put_rate now id code date rate source (x ∷ xs) =
    let rest = put_rate now id code date rate source xs in
    if is_rate_of code date x
    then record x { rate_per_usd = rate; source = some source; updated_at = now } ∷ xs
    else x ∷ rest

-- The rows of the statement in turn. `draw` is the `uuid4()` of each row that is left to write.
unfoldable pub put_rates :
    Instant → (ℕ → Uuid) → Date → String → Values → List FxRate → Result DbError (List FxRate)
put_rates now draw date source [] rates = ok rates
put_rates now draw date source ((code, rate) ∷ values) rates =
    if ltb 3 (count code) then err value_too_long else elim (to_numeric 18 8 rate) [
      | none ↦ err out_of_range
      | some units ↦
          put_rates now draw date source values
            (put_rate now (draw (length values)) code date units source rates)
    ]

-- upsert_rates: the rows written, and the table after the commit
unfoldable pub upsert_rates :
    Instant → (ℕ → Uuid) → Values → Date → String → List FxRate → Result DbError (ℕ × List FxRate)
upsert_rates now draw values date source rates = do
  after ← put_rates now draw date source values rates
  ok (length values, after)

pub record IngestResult : Type 0 where
  pub rate_date : Date
  pub currencies_written : ℕ
  pub skipped : List String

pub record FxProvider : Type 0 where
  pub provider_name : String
  pub base_currency : String
  pub fetch_for_date : Date → Option Values

abbrev contains : String → List String → Bool
contains code [] = false
contains code (c ∷ cs) = let rest = contains code cs in str_eq c code || rest

-- original_codes - set(normalized), as a list without repetition
unfoldable pub skipped_codes : Python → Values → Values → List String
skipped_codes py [] normalized = []
skipped_codes py ((code, value) ∷ values) normalized =
    let rest = skipped_codes py values normalized in
    elim (lookup normalized (py.upper code)) [
      | none ↦ if contains (py.upper code) rest then rest else py.upper code ∷ rest
      | some x ↦ rest
    ]

abbrev pub raise_database : {A : Type 0} → Result DbError A → Result Failure A
raise_database (ok a) = ok a
raise_database (err e) = err (database e)

unfoldable pub ingest_snapshot :
    Python
    → Instant
    → (ℕ → Uuid)
    → FxProvider
    → Values
    → Date
    → List FxRate
    → Result Failure (IngestResult × List FxRate)
ingest_snapshot py now draw provider values date rates = do
  normalized ← raise_arithmetic (normalize_to_usd_pivot py provider.base_currency values)
  (written, after) ←
      raise_database (upsert_rates now draw normalized date provider.provider_name rates)
  ok (
    record {
      rate_date = date;
      currencies_written = written;
      skipped = py.sorted (skipped_codes py values normalized);
    },
    after,
  )

-- backfill_range over `days` dates from `current`; each date is a transaction, so the table is
-- what the dates before a failure left. A date that the provider has no answer for is passed over.
unfoldable pub backfill_days :
    Python
    → Instant
    → (Date → ℕ → Uuid)
    → FxProvider
    → ℕ
    → Date
    → List FxRate
    → Result Failure (List IngestResult) × List FxRate
backfill_days py now draw provider zero current rates = (ok [], rates)
backfill_days py now draw provider (suc days) current rates =
    elim (provider.fetch_for_date current) [
      | none ↦ backfill_days py now draw provider days (suc current) rates
      | some values ↦ elim (ingest_snapshot py now (draw current) provider values current rates) [
        | err e ↦ (err e, rates)
        | ok (result, after) ↦
            let (results, last) = backfill_days py now draw provider days (suc current) after in
            (results >>= λ rs. ok (result ∷ rs), last)
      ]
    ]

unfoldable pub backfill_range :
    Python
    → Instant
    → (Date → ℕ → Uuid)
    → FxProvider
    → Date
    → Date
    → List FxRate
    → Result Failure (List IngestResult) × List FxRate
backfill_range py now draw provider start end rates =
    backfill_days py now draw provider (suc end - start) start rates
