-- ===== src/Ops/Clients.antt =====
-- app/services/fx/exchangerate_host.py and factory.py: the provider of exchange rates. The HTTP
-- client is an argument, which gives the items of the payload's `rates` or the text of an exception.
use Prim.Native.String.{◌++◌ as append}
use voice_spend.Prelude.{
  String, Option, none, some, List, [], ◌∷◌, Result, ok, err, str_eq, if◌then◌else◌,
}
use voice_spend.Decimal.{Decimal}
use voice_spend.Models.{Date}
use voice_spend.Http.{Python}
use voice_spend.Settings.{Settings, exchangerate_host}
use voice_spend.Fx.Rates.{Values, assign, FxProvider}

-- The client: a path and the parameters of a query, to the items of `rates`.
abbrev pub Get : Type 0 → Type 0
Get Json = String → List (String × String) → Result String (List (String × Json))

pub record ExchangerateHostProvider : Type 0 where
  pub api_key : Option String
  pub base_currency : String

-- __init__
unfoldable pub make_provider : Python → Option String → String → ExchangerateHostProvider
make_provider py none base_currency = record {
  api_key = none;
  base_currency = py.upper base_currency;
}
make_provider py (some key) base_currency = record {
  api_key = if str_eq key "" then none else some key;
  base_currency = py.upper base_currency;
}

-- get_fx_provider, with the default of `base_currency`
unfoldable pub get_fx_provider : Python → Settings → ExchangerateHostProvider
get_fx_provider py settings = elim settings.fx_provider [
  | exchangerate_host ↦ make_provider py (some settings.fx_provider_api_key) "EUR"
]

module _ {Json : Type 0} (py : Python) (decimal_of_str : Json → Option Decimal) where
  -- The loop over the rates: a value that is no number is passed over.
  unfoldable pub read_rates : List (String × Json) → Values → Values
  read_rates [] values = values
  read_rates ((code, value) ∷ items) values =
      read_rates items
        (elim (decimal_of_str value) [ none ↦ values | some d ↦ assign values (py.upper code) d ])

  abbrev parameters : Option String → List (String × String)
  parameters none = []
  parameters (some key) = ("access_key", key) ∷ []

  -- _fetch
  unfoldable pub fetch : Get Json → ExchangerateHostProvider → String → Result String Values
  fetch get provider path = elim (get path (parameters provider.api_key)) [
    | err exc ↦ err exc
    | ok items ↦ ok (read_rates items [])
  ]

  unfoldable pub fetch_latest : Get Json → ExchangerateHostProvider → Result String Values
  fetch_latest get provider = fetch get provider "/latest"

  -- The provider as the ingestion uses it, with date.isoformat.
  unfoldable pub as_provider : Get Json → (Date → String) → ExchangerateHostProvider → FxProvider
  as_provider get isoformat provider = record {
    provider_name = "exchangerate_host";
    base_currency = provider.base_currency;
    fetch_for_date = λ d. elim (fetch get provider (append "/" (isoformat d))) [
      | err exc ↦ none
      | ok values ↦ some values
    ];
  }
