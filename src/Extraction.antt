-- ===== src/Extraction.antt =====
-- What a language model makes of a text: app/services/extraction/base.py, schema.py and pricing.py.
-- A float is the decimal that Python prints for it, so that `Decimal(str(x))` is the value itself and
-- comparisons agree.
pub mod Providers
use voice_spend.Prelude.{
  ℕ, zero, suc, ◌+◌, ◌*◌, ◌^◌, String, Bool, true, false, not, ◌&&◌, Option, none, some, List,
  Result, str_eq, if◌then◌else◌,
}
use voice_spend.Prelude.Int.{ℤ, pos, negsuc, abs, with_sign, ltb_ℤ}
use voice_spend.Decimal.{Decimal, finite, infinity, nan}
use voice_spend.Http.{DateTime}

-- `x < y`, on floats: false where one is nan
unfoldable pub is_below : Decimal → Decimal → Bool
is_below (finite a s) (finite b t) =
    ltb_ℤ (with_sign a (abs a * 10 ^ t)) (with_sign b (abs b * 10 ^ s))
is_below (finite a s) infinity = true
is_below infinity y = false
is_below nan y = false
is_below (finite a s) nan = false

abbrev is_nan : Decimal → Bool
is_nan nan = true
is_nan (finite a s) = false
is_nan infinity = false

-- `x >= y`
unfoldable pub at_least : Decimal → Decimal → Bool
at_least x y = not (is_nan x) && not (is_nan y) && not (is_below x y)

pub record RawExtraction : Type 0 where
  pub amount : Option Decimal
  pub currency : Option String
  pub category : Option String
  pub payment_method : Option String
  pub merchant : Option String
  pub spent_at : Option String
  pub confidence : Decimal

pub record ExtractionContext : Type 0 where
  pub base_currency : String
  pub known_categories : List String
  pub reference_time : DateTime

pub record ExtractionResult : Type 0 where
  pub raw : Option RawExtraction
  pub error : Option String
  pub prompt_tokens : Option ℕ
  pub completion_tokens : Option ℕ

abbrev pub failed_result : String → ExtractionResult
failed_result error = record {
  raw = none;
  error = some error;
  prompt_tokens = none;
  completion_tokens = none;
}

-- `extract` returns a result, or raises an exception with a text.
pub record LlmExtractor : Type 0 where
  pub provider_name : String
  pub model_name : String
  pub extract : String → ExtractionContext → Result String ExtractionResult

-- Millionths of a dollar for a thousand tokens.
pub record ModelPricing : Type 0 where
  pub input_per_1k : ℕ
  pub output_per_1k : ℕ

abbrev price : ℕ → ℕ → Option ModelPricing
price input output = some (record { input_per_1k = input; output_per_1k = output })

-- _PRICING.get((provider, model))
unfoldable pub pricing : String → String → Option ModelPricing
pricing provider model =
    if str_eq provider "anthropic" && str_eq model "claude-3-5-haiku-20241022"
    then price 800 4000
    else if str_eq provider "anthropic" && str_eq model "claude-3-5-sonnet-20241022"
    then price 3000 15000
    else if str_eq provider "gemini" && str_eq model "gemini-1.5-flash"
    then price 75 300
    else if str_eq provider "gemini" && str_eq model "gemini-2.0-flash"
    then price 100 400
    else none

-- estimate_cost_usd, in thousandths of a millionth of a dollar, where the program rounds to a float
unfoldable pub estimate_cost : String → String → Option ℕ → Option ℕ → Option ℕ
estimate_cost provider model none completion_tokens = none
estimate_cost provider model (some p) none = none
estimate_cost provider model (some p) (some c) = elim (pricing provider model) [
  | none ↦ none
  | some rates ↦ some (p * rates.input_per_1k + c * rates.output_per_1k)
]
