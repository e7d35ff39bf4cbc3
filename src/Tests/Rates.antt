-- ===== src/Tests/Rates.antt =====
-- Rates, conversions and the sweep on concrete tables (app/services/fx, app/services/currency).
use voice_spend.Prelude.{
  ℕ, ◌+◌, ◌≤◌, ◌≡◌, ◌≢◌, refl, String, none, some, List, [], ◌∷◌, ok, ◌↔◌, ◌⊎◌, ◌<◌, map, All,
  arith, length, select, true,
}
use voice_spend.Prelude.Int.{pos}
use voice_spend.Decimal.{
  finite, round_half_even, round_half_up, digits_from, digits, rescale, fix, mul, quotient, div,
  quantize, to_numeric,
}
use voice_spend.Models.{Uuid, Date, User, Expense, FxRate, Db, date_of}
use voice_spend.Sync.Upsert.{find_row, put_row}
use voice_spend.Fx.Rates.{
  Values, lookup, assign, divide_all, is_usable, candidates, normalize_all, normalize_to_usd_pivot,
  is_rate_of, put_rate, put_rates, upsert_rates, IngestResult, FxProvider, skipped_codes,
  ingest_snapshot, backfill_range, usd,
}
use voice_spend.Fx.Convert.{latest_rate, rate_per_usd, cross_rate, convert}
use voice_spend.Fx.Recompute.{
  user_with, is_pending, insert_by_age, pending, rebased, set_amount_base, recompute_row,
  recompute_rows, RecomputeResult, batch_size, recompute_amount_base,
}
use voice_spend.Fx.Lookup.{IsLatest, IsUnrated, latest_rate-IsLatest, convert-missing}
use voice_spend.Fx.History.{IsDict, rate_at, refreshed, upsert_rates-history}
use voice_spend.Fx.Pivot.{ingest_snapshot-usd}
use voice_spend.Fx.Backfill.{answered, backfill_range-days}
use voice_spend.Fx.Completion.{IsFilled, unfilled, recompute_amount_base-IsDone}
use voice_spend.Fx.Sweep.{kept_row, recompute_amount_base-kept}
use voice_spend.Tests.Data.{small_python, lunch_of_bob, start}

-- A payload in euros: 1.25 dollars and 0 yen for a euro.
abbrev payload : Values
payload = ("USD", finite (pos 125) 2) ∷ ("EUR", finite (pos 1) 0) ∷ ("JPY", finite (pos 0) 0) ∷ []

abbrev provider : FxProvider
provider = record {
  provider_name = "exchangerate_host";
  base_currency = "EUR";
  fetch_for_date = λ d. some payload;
}

abbrev row_of : Uuid → String → Date → ℕ → FxRate
row_of id code date rate = record {
  id = id;
  currency_code = code;
  rate_date = date;
  rate_per_usd = pos rate;
  source = some "exchangerate_host";
  created_at = 5000;
  updated_at = 5000;
}

abbrev yesterday_rates : List FxRate
yesterday_rates = record (row_of 1 "EUR" 0 90000000) { created_at = 10; updated_at = 10 } ∷ []

abbrev ingested_rates : List FxRate
ingested_rates =
    record (row_of 1 "EUR" 0 90000000) { created_at = 10; updated_at = 10 }
    ∷ row_of 41 "USD" 1 100000000
    ∷ row_of 40 "EUR" 1 80000000
    ∷ []

abbrev ingest_result : IngestResult
ingest_result = record { rate_date = 1; currencies_written = 2; skipped = "JPY" ∷ [] }

-- A payload in euros is pivoted to the dollar: 0.8 euros for a dollar, and the yen is skipped.
payload_ingested :
    ingest_snapshot small_python 5000 (λ n. n + 40) provider payload 1 yesterday_rates
    ≡ ok (ingest_result, ingested_rates)
unfolding ingest_snapshot normalize_to_usd_pivot candidates lookup is_usable divide_all div quotient
    digits digits_from fix round_half_even normalize_all quantize rescale assign upsert_rates
    put_rates to_numeric round_half_up put_rate is_rate_of skipped_codes
payload_ingested = refl

ingest_snapshot-usd_example :
    (rate_at usd 1 ingested_rates ≡ some (pos 100000000))
    × ((code : String) (d : Date)
        → ¬ (d ≡ 1)
        → rate_at code d ingested_rates ≡ rate_at code d yesterday_rates)
ingest_snapshot-usd_example =
    ingest_snapshot-usd small_python 5000 (λ n. n + 40) provider payload 1 yesterday_rates
      ingested_rates ingest_result payload_ingested

abbrev new_rates : Values
new_rates = ("EUR", finite (pos 80000000) 8) ∷ ("USD", finite (pos 100000000) 8) ∷ []

abbrev written_rates : List FxRate
written_rates =
    record (row_of 1 "EUR" 0 90000000) { created_at = 10; updated_at = 10 }
    ∷ row_of 41 "EUR" 1 80000000
    ∷ row_of 40 "USD" 1 100000000
    ∷ []

rates_written :
    upsert_rates 5000 (λ n. n + 40) new_rates 1 "exchangerate_host" yesterday_rates
    ≡ ok (2, written_rates)
unfolding upsert_rates put_rates to_numeric rescale round_half_up put_rate is_rate_of
rates_written = refl

new_rates-IsDict : IsDict new_rates
unfolding lookup
new_rates-IsDict = (refl, (refl, tt))

upsert_rates-history_example :
    rate_at "EUR" 1 written_rates ≡ refreshed new_rates "EUR" (rate_at "EUR" 1 yesterday_rates)
upsert_rates-history_example =
    upsert_rates-history 5000 (λ n. n + 40) new_rates 1 "exchangerate_host" yesterday_rates
      written_rates 2 new_rates-IsDict rates_written "EUR" 1

latest_rate-IsLatest_example : IsLatest "EUR" 5 ingested_rates (latest_rate "EUR" 5 ingested_rates)
latest_rate-IsLatest_example = latest_rate-IsLatest "EUR" 5 ingested_rates

convert-missing_example :
    (convert ingested_rates (finite (pos 90000) 4) "USD" "JPY" 1 ≡ ok none) ↔ (
      (◌≢◌ {A = String} "USD" "JPY")
      × (IsUnrated "USD" 1 ingested_rates ⊎ IsUnrated "JPY" 1 ingested_rates))
convert-missing_example = convert-missing ingested_rates (finite (pos 90000) 4) "USD" "JPY" 1

-- Nine dollars are 7.20 euros at the rate of the day.
nine_dollars :
    convert ingested_rates (finite (pos 90000) 4) "USD" "EUR" 1 ≡ ok (some (finite (pos 72000) 4))
unfolding convert rate_per_usd latest_rate cross_rate div quotient digits digits_from fix
    round_half_even mul quantize rescale
nine_dollars = refl

abbrev before_sweep : Db
before_sweep = record start.db { fx_rates = ingested_rates }

abbrev after_sweep : Db
after_sweep = record before_sweep {
  expenses = record {
    rows =
        record lunch_of_bob {
          amount_base = some (pos 72000);
          currency_base = some "EUR";
          server_seq = 2;
          updated_at = 7000;
        }
        ∷ [];
    next_seq = 3;
  };
}

abbrev sweep_result : RecomputeResult
sweep_result = record { scanned = 1; recomputed = 1; still_missing = 0 }

swept : recompute_amount_base 500 7000 none none before_sweep ≡ ok (sweep_result, after_sweep)
unfolding recompute_amount_base batch_size pending is_pending insert_by_age recompute_rows
    recompute_row convert rate_per_usd latest_rate cross_rate div quotient digits digits_from fix
    round_half_even mul quantize rescale to_numeric round_half_up set_amount_base rebased find_row
    put_row
swept = refl

recompute_amount_base-kept_example :
    (1 ≤ batch_size 500 none)
    × (1 + 0 ≡ 1)
    × ((j : Uuid)
        → kept_row (find_row j after_sweep.expenses.rows)
          ≡ kept_row (find_row j before_sweep.expenses.rows))
recompute_amount_base-kept_example =
    recompute_amount_base-kept 500 7000 none none before_sweep after_sweep sweep_result swept

backfill_range-days_example :
    let (results, after) =
      backfill_range small_python 5000 (λ d n. n) provider 1 2 yesterday_rates in
    let days = answered small_python 5000 (λ d n. n) provider 2 1 in
    ((code : String) (d : Date)
      → (d < 1) ⊎ (2 < d)
      → rate_at code d after ≡ rate_at code d yesterday_rates)
    × ((rs : List IngestResult)
        → results ≡ ok rs
        → (map (λ r. r.rate_date) rs ≡ days)
          × All (λ d. rate_at usd d after ≡ some (pos 100000000)) days)
backfill_range-days_example =
    backfill_range-days small_python 5000 (λ d n. n) provider 1 2 yesterday_rates

one_unfilled : length (select (unfilled none) before_sweep.expenses.rows) ≤ batch_size 500 none
unfolding batch_size
one_unfilled = omega arith

recompute_amount_base-IsDone_example :
    ((j : Uuid) (e : Expense) (u : User)
      → find_row j before_sweep.expenses.rows ≡ some e
      → unfilled none e ≡ true
      → user_with e.user_id before_sweep.users ≡ some u
      → IsFilled (find_row j after_sweep.expenses.rows)
        ⊎ (convert ingested_rates
              (finite e.amount_original 4)
              e.currency_original
              u.base_currency
              (date_of e.spent_at)
            ≡ ok none))
    × ((j : Uuid)
        → IsFilled (find_row j before_sweep.expenses.rows)
        → IsFilled (find_row j after_sweep.expenses.rows))
recompute_amount_base-IsDone_example =
    recompute_amount_base-IsDone 500 7000 none none before_sweep after_sweep sweep_result
      one_unfilled swept
