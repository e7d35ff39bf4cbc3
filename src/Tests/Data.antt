-- ===== src/Tests/Data.antt =====
-- The data of the examples: a Python and a pydantic that read a small JSON, two users with a device
-- each, and a batch of two records of which one names the other user's device.
use voice_spend.Prelude.{
  ℕ, ◌*◌, String, Bool, true, false, Option, none, some, List, [], ◌∷◌, Result, ok, err, str_eq,
  if◌then◌else◌, ◌==◌,
}
use voice_spend.Prelude.Int.{ℤ, pos, negsuc}
use voice_spend.Decimal.{Decimal, finite}
use voice_spend.Models.{Uuid, Instant, ios, User, Device, local, Expense}
use voice_spend.Http.{World, Env, Python}
use voice_spend.Sync.Validate.{Pydantic, Raw}

pub data Json : Type 0 where
  null : Json
  uuid : Uuid → Json
  text : String → Json
  decimal : Decimal → Json
  instant : Instant → Json
  integer : ℤ → Json

abbrev read_uuid : Json → Result String Uuid
read_uuid (uuid u) = ok u
read_uuid _ = err "Input should be a valid UUID"

abbrev read_text : Json → Result String String
read_text (text s) = ok s
read_text _ = err "Input should be a valid string"

abbrev read_decimal : Json → Result String Decimal
read_decimal (decimal d) = ok d
read_decimal _ = err "Input should be a valid decimal"

abbrev read_instant : Json → Result String Instant
read_instant (instant t) = ok t
read_instant _ = err "Input should be a valid datetime"

abbrev read_integer : Json → Result String ℤ
read_integer (integer n) = ok n
read_integer _ = err "Input should be a valid integer"

abbrev read_null : Json → Bool
read_null null = true
read_null _ = false

abbrev uuid_of_json : Json → Option Uuid
uuid_of_json (uuid u) = some u
uuid_of_json _ = none

abbrev time_of_ms : ℤ → Option Instant
time_of_ms (pos n) = some (n * 1000)
time_of_ms (negsuc n) = none

abbrev pub small_python : Python
small_python = record {
  upper = λ s. s;
  lower = λ s. s;
  strip = λ s. s;
  casefold = λ s. if str_eq s "Food" then "food" else s;
  is_alpha = λ s. true;
  str_of_int = λ n. if n == 500 then "500" else "5242880";
  is_ascii = λ s. true;
  sorted = λ codes. codes;
  uuid = λ s. if str_eq s "alice" then some 1 else none;
  from_timestamp_ms = time_of_ms;
  fromisoformat = λ s. none;
}

abbrev pub small_pydantic : Pydantic
small_pydantic = record {
  Json = Json;
  is_null = read_null;
  uuid = read_uuid;
  decimal = read_decimal;
  instant = read_instant;
  integer = read_integer;
  text = read_text;
  uuid_of_str = uuid_of_json;
  python = small_python;
  missing = "Field required";
  too_short = "String should have at least 3 characters";
  too_long = "String should have at most 3 characters";
  negative = "Input should be greater than or equal to 0";
}

abbrev pub alice : User
alice = record {
  id = 1;
  auth_provider_id = some "alice";
  email = none;
  is_anonymous = false;
  base_currency = "EUR";
  created_at = 1000;
  updated_at = 1000;
}

abbrev pub bob : User
bob = record alice { id = 2; auth_provider_id = some "bob" }

abbrev device_of : Uuid → Uuid → Device
device_of id user_id = record {
  id = id;
  user_id = user_id;
  platform = ios;
  push_token = none;
  last_seen_at = none;
  created_at = 1000;
  updated_at = 1000;
}

abbrev pub lunch_of_bob : Expense
lunch_of_bob = record {
  id = 200;
  user_id = 2;
  device_id = 20;
  amount_original = pos 90000;
  currency_original = "USD";
  amount_base = none;
  currency_base = none;
  category = none;
  payment_method = none;
  merchant = some "diner";
  note = none;
  spent_at = 86400000000;
  parse_status = local;
  raw_transcript = none;
  client_rev = 1;
  deleted_at = none;
  server_seq = 1;
  created_at = 2000;
  updated_at = 2000;
}

abbrev pub start : World
start = record {
  db = record {
    users = alice ∷ bob ∷ [];
    devices = device_of 10 1 ∷ device_of 20 2 ∷ [];
    categories = [];
    expenses = record { rows = lunch_of_bob ∷ []; next_seq = 2 };
    counters = [];
    entitlements = [];
    fx_rates = [];
    events = [];
  };
  metrics = [];
}

abbrev pub today : Env
today = record { now = 5000; strftime_year_month = λ t. "2026-09"; uuid4 = 700 }

abbrev pub tomorrow : Env
tomorrow = record { now = 9000; strftime_year_month = λ t. "2026-09"; uuid4 = 701 }

-- A record with an id, a device, an amount in cents, and a revision.
abbrev pub raw_record : Uuid → Uuid → ℕ → ℕ → Raw small_pydantic
raw_record id device cents rev =
    ("id", uuid id)
    ∷ ("device_id", uuid device)
    ∷ ("amount_original", decimal (finite (pos cents) 2))
    ∷ ("currency_original", text "EUR")
    ∷ ("spent_at", instant 86400000000)
    ∷ ("client_rev", integer (pos rev))
    ∷ ("merchant", text "bakery")
    ∷ []

abbrev pub batch : List (Raw small_pydantic)
batch = raw_record 100 10 1250 1 ∷ raw_record 101 20 300 1 ∷ []
