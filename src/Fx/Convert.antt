-- ===== src/Fx/Convert.antt =====
-- The conversion of an amount by the rates of a date: app/services/currency/converter.py.
use voice_spend.Prelude.{
  String, ◌&&◌, Option, none, some, List, [], ◌∷◌, Result, ok, ◌>>=◌, leb, ltb, str_eq,
  if◌then◌else◌,
}
use voice_spend.Prelude.Int.{pos}
use voice_spend.Decimal.{Decimal, finite, ArithmeticError, mul, div, quantize}
use voice_spend.Models.{Date, FxRate}
use voice_spend.Fx.Rates.{usd}

-- WHERE currency_code = .. AND rate_date <= .. ORDER BY rate_date DESC LIMIT 1
unfoldable pub latest_rate : String → Date → List FxRate → Option FxRate
latest_rate code as_of [] = none
latest_rate code as_of (x ∷ xs) =
    let rest = latest_rate code as_of xs in
    if str_eq x.currency_code code && leb x.rate_date as_of
    then elim rest [
      | none ↦ some x
      | some y ↦ if ltb x.rate_date y.rate_date then some y else some x
    ]
    else rest

-- _rate_per_usd
unfoldable pub rate_per_usd : List FxRate → String → Date → Option Decimal
rate_per_usd rates code as_of =
    if str_eq code usd then some (finite (pos 1) 0) else elim (latest_rate code as_of rates) [
      | none ↦ none
      | some x ↦ some (finite x.rate_per_usd 8)
    ]

-- (amount * (rate_to / rate_from)).quantize(Decimal("0.0001"))
unfoldable pub cross_rate : Decimal → Decimal → Decimal → Result ArithmeticError Decimal
cross_rate amount rate_from rate_to = do
  ratio ← div rate_to rate_from
  product ← mul amount ratio
  quantize 4 product

unfoldable pub convert :
    List FxRate → Decimal → String → String → Date → Result ArithmeticError (Option Decimal)
convert rates amount from_currency to_currency as_of =
    if str_eq from_currency to_currency
    then ok (some amount)
    else elim (rate_per_usd rates from_currency as_of) [
      | none ↦ ok none
      | some rate_from ↦ elim (rate_per_usd rates to_currency as_of) [
        | none ↦ ok none
        | some rate_to ↦ do amount_base ← cross_rate amount rate_from rate_to; ok (some amount_base)
      ]
    ]
