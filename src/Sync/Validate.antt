-- ===== src/Sync/Validate.antt =====
-- One record of a push batch and its validation: `ExpenseSyncIn` (app/schemas/sync.py) with
-- `normalize_currency_code` (app/schemas/_validators.py). How pydantic reads one JSON value as a
-- UUID, a number or a text, its messages, and Python's methods of texts are parameters. Fields are validated in the order of their declaration, and the first one that
-- fails is the one that the endpoint reports.
use Prim.Native.String.{count, ◌++◌ as append}
use voice_spend.Prelude.{
  ℕ, String, Bool, Option, none, some, List, [], ◌∷◌, Result, ok, err, ◌>>=◌, ltb, ◌==◌, str_eq,
  if◌then◌else◌,
}
use voice_spend.Prelude.Int.{ℤ, pos, negsuc}
use voice_spend.Decimal.{Decimal}
use voice_spend.Models.{Uuid, Instant}
use voice_spend.Http.{Python}

pub record Pydantic : Type 1 where
  pub Json : Type 0
  pub is_null : Json → Bool
  pub uuid : Json → Result String Uuid
  pub decimal : Json → Result String Decimal
  pub instant : Json → Result String Instant
  pub integer : Json → Result String ℤ
  pub text : Json → Result String String
  -- UUID(str(value)), which raises ValueError on other texts
  pub uuid_of_str : Json → Option Uuid
  pub python : Python
  pub missing : String
  pub too_short : String
  pub too_long : String
  pub negative : String

pub record ExpenseSyncIn : Type 0 where
  pub id : Uuid
  pub device_id : Uuid
  pub amount_original : Decimal
  pub currency_original : String
  pub spent_at : Instant
  pub client_rev : ℕ
  pub category : Option String
  pub payment_method : Option String
  pub merchant : Option String
  pub note : Option String
  pub raw_transcript : Option String
  pub deleted_at : Option Instant

-- The location and the message of the first error.
pub record FieldError : Type 0 where
  pub loc : String
  pub msg : String

-- _first_error_reason; a field's location is never empty
unfoldable pub first_error_reason : FieldError → String
first_error_reason e = append e.loc (append ": " e.msg)

module _ (py : Pydantic) where
  open py use {
    Json, is_null, uuid, decimal, instant, integer, text, uuid_of_str, python, missing, too_short,
    too_long, negative,
  }

  abbrev pub Raw : Type 0
  Raw = List (String × Json)

  abbrev pub dict_get : String → Raw → Option Json
  dict_get k [] = none
  dict_get k ((j, v) ∷ raw) = let rest = dict_get k raw in if str_eq j k then some v else rest

  unfoldable pub normalize_currency_code : String → Result String String
  normalize_currency_code value =
      let v = python.upper (python.strip value) in
      if count v == 3
      then ok v
      else err "Value error, currency code must be exactly 3 letters (ISO-4217)"

  abbrev at_field : {A : Type 0} → String → Result String A → Result FieldError A
  at_field loc (ok a) = ok a
  at_field loc (err m) = err (record { loc = loc; msg = m })

  unfoldable pub required :
      {A : Type 0} → String → (Json → Result String A) → Raw → Result FieldError A
  required loc parse raw = elim (dict_get loc raw) [
    | none ↦ err (record { loc = loc; msg = missing })
    | some v ↦ at_field loc (parse v)
  ]

  abbrev present : {A : Type 0} → Result FieldError A → Result FieldError (Option A)
  present (ok a) = ok (some a)
  present (err e) = err e

  -- A field of type `T | None = None`: absent, null, or a value of type `T`.
  unfoldable pub optional :
      {A : Type 0} → String → (Json → Result String A) → Raw → Result FieldError (Option A)
  optional loc parse raw = elim (dict_get loc raw) [
    | none ↦ ok none
    | some v ↦ if is_null v then ok none else present (at_field loc (parse v))
  ]

  -- Field(min_length=3, max_length=3), then the validator
  unfoldable pub currency : Json → Result String String
  currency v = text v >>= λ s.
      if ltb (count s) 3
      then err too_short
      else if ltb 3 (count s)
      then err too_long
      else normalize_currency_code s

  abbrev non_negative : ℤ → Result String ℕ
  non_negative (pos n) = ok n
  non_negative (negsuc n) = err negative

  -- Field(ge=0)
  unfoldable pub revision : Json → Result String ℕ
  revision v = do n ← integer v; non_negative n

  -- ExpenseSyncIn.model_validate
  unfoldable pub model_validate : Raw → Result FieldError ExpenseSyncIn
  model_validate raw = do
    id ← required "id" uuid raw
    device_id ← required "device_id" uuid raw
    amount_original ← required "amount_original" decimal raw
    currency_original ← required "currency_original" currency raw
    spent_at ← required "spent_at" instant raw
    client_rev ← required "client_rev" revision raw
    category ← optional "category" text raw
    payment_method ← optional "payment_method" text raw
    merchant ← optional "merchant" text raw
    note ← optional "note" text raw
    raw_transcript ← optional "raw_transcript" text raw
    deleted_at ← optional "deleted_at" instant raw
    ok (record {
      id = id;
      device_id = device_id;
      amount_original = amount_original;
      currency_original = currency_original;
      spent_at = spent_at;
      client_rev = client_rev;
      category = category;
      payment_method = payment_method;
      merchant = merchant;
      note = note;
      raw_transcript = raw_transcript;
      deleted_at = deleted_at;
    })

  -- UUID(str(raw.get("id"))); an absent id reads "None", which is no UUID
  unfoldable pub raw_record_id : Raw → Option Uuid
  raw_record_id raw = elim (dict_get "id" raw) [ none ↦ none | some v ↦ uuid_of_str v ]
