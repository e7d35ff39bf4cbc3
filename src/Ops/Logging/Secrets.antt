-- ===== src/Ops/Logging/Secrets.antt =====
-- What cannot reach a log line: app/core/logging.py.
use text.Mathlib.Text.{starts_with}
use voice_spend.Prelude.{
  String, ◌≡◌, refl, ap, sym, ◌⊎◌, ◌↔◌, inl, inr, true, false, ◌||◌, Option, none, some, [], ◌∷◌,
  map, arith, str_eq, eq_iff, if◌then◌else◌, Bool-cases, Option-cases, subst,
}
use voice_spend.Http.{Python}
use voice_spend.Ops.Logging.{
  contains, is_sensitive, redacted, Headers, redact_headers, is_standard, Attributes, LogRecord,
  Payload, set_key, add_attributes, format,
}

abbrev pub header : String → Headers → Option String
header key [] = none
header key ((k, v) ∷ headers) =
    let rest = header key headers in if str_eq k key then some v else rest

-- The names of the headers that hold a secret.
abbrev pub IsSecret : String → Type 0
IsSecret name = (name ≡ "authorization") ⊎ (name ≡ "cookie") ⊎ (name ≡ "x-api-key")

is_sensitive-IsSecret : (name : String) → (is_sensitive name ≡ true) ↔ IsSecret name
unfolding is_sensitive
is_sensitive-IsSecret name =
    ground (arith, eq_iff "authorization" name, eq_iff "cookie" name, eq_iff "x-api-key" name)

header-redact_headers :
    (py : Python) (key value : String) (headers : Headers)
    → header key headers ≡ some value
    → header key (redact_headers py headers)
      ≡ some (if is_sensitive (py.lower key) then redacted else value)
unfolding redact_headers
header-redact_headers py key value [] h = cc
header-redact_headers py key value ((k, v) ∷ headers) h = elim (Bool-cases (str_eq k key)) [
  | inl same ↦
      let e = (eq_iff k key).0 same in ground (arith, ap (λ s. is_sensitive (py.lower s)) e)
  | inr other ↦ ground (arith, header-redact_headers py key value headers)
]

redact_headers-names :
    (py : Python) (headers : Headers)
    → map (λ h. h.0) (redact_headers py headers) ≡ map (λ h. h.0) headers
unfolding redact_headers
redact_headers-names py [] = refl
redact_headers-names py ((k, v) ∷ headers) = ap (λ ks. k ∷ ks) (redact_headers-names py headers)

-- Redaction keeps the names of the headers in their order. A header whose name `str.lower` turns into
-- authorization, cookie or x-api-key reads as ***REDACTED***, whatever it was, and every other one
-- reads as it was; where a name repeats, this is of its first header.
pub redact_headers-shown :
    (py : Python) (headers : Headers)
    → (map (λ h. h.0) (redact_headers py headers) ≡ map (λ h. h.0) headers)
      × ((key value : String)
          → header key headers ≡ some value
          → (IsSecret (py.lower key)
              → header key (redact_headers py headers) ≡ some "***REDACTED***")
            × (¬ IsSecret (py.lower key) → header key (redact_headers py headers) ≡ some value))
redact_headers-shown py headers = (
  redact_headers-names py headers,
  λ key value h.
      let read = header-redact_headers py key value headers h in
      let secret = is_sensitive-IsSecret (py.lower key) in
      (
        λ hidden. let found = secret.1 hidden in ground (arith, read, found),
        λ open_key. elim (Bool-cases (is_sensitive (py.lower key))) [
          | inl found ↦ absurd (open_key (secret.0 found))
          | inr other ↦ ground (arith, read, other)
        ],
      ),
)

-- A key that a log line may carry for an attribute.
abbrev pub IsLoggable : Attributes → Payload → String → Type 0
IsLoggable attributes start key =
    (contains (map (λ p. p.0) start) key ≡ true)
    ⊎ ((is_standard key ≡ false)
        × (starts_with key "_" ≡ false)
        × (contains (map (λ a. a.0) attributes) key ≡ true))

set_key-contains :
    (key k v : String) (payload : Payload)
    → contains (map (λ p. p.0) (set_key k v payload)) key ≡ true
    → (contains (map (λ p. p.0) payload) key ≡ true) ⊎ (k ≡ key)
unfolding set_key
set_key-contains key k v [] h = inr (ground (arith, eq_iff k key))
set_key-contains key k v ((j, w) ∷ payload) h =
    ground (arith, set_key-contains key k v payload, eq_iff k key, eq_iff j key, eq_iff j k)

add_attributes-IsLoggable :
    (attributes : Attributes) (start : Payload) (key : String)
    → contains (map (λ p. p.0) (add_attributes attributes start)) key ≡ true
    → IsLoggable attributes start key
unfolding add_attributes
add_attributes-IsLoggable [] start key h = inl h
add_attributes-IsLoggable ((k, none) ∷ attributes) start key h =
    ground (arith, add_attributes-IsLoggable attributes start key h)
add_attributes-IsLoggable ((k, some v) ∷ attributes) start key h =
    elim (Bool-cases (is_standard k || starts_with k "_")) [
      | inl hidden ↦
          ground (arith, add_attributes-IsLoggable attributes start key (rw (hidden) at h))
      | inr open_key ↦
          elim (add_attributes-IsLoggable attributes (set_key k v start) key (rw (open_key) at h)) [
            | inl there ↦ elim (set_key-contains key k v start there) [
              | inl old ↦ inl old
              | inr same ↦ inr (
                subst (λ s. is_standard s ≡ false) same (ground arith),
                subst (λ s. starts_with s "_" ≡ false) same (ground arith),
                ground (arith, eq_iff k key),
              )
            ]
            | inr (a, b, c) ↦ inr (a, b, ground arith)
          ]
    ]

-- A key of a log line is one of the line's own, `timestamp`, `level`, `logger`, `message` and
-- `exc_info`, or that of an attribute of the record which is neither one of the standard library's
-- nor private.
pub format-IsLoggable :
    (timestamp : String) (r : LogRecord) (key : String)
    → contains (map (λ p. p.0) (format timestamp r)) key ≡ true
    → (key ≡ "exc_info")
      ⊎ IsLoggable r.attributes
          (("timestamp", timestamp)
            ∷ ("level", r.levelname)
            ∷ ("logger", r.name)
            ∷ ("message", r.message)
            ∷ [])
          key
unfolding format
format-IsLoggable timestamp r key h =
    let start =
      ("timestamp", timestamp)
      ∷ ("level", r.levelname)
      ∷ ("logger", r.name)
      ∷ ("message", r.message)
      ∷ [] in
    elim (Option-cases r.exc_info) [
      | inl quiet ↦ inr (add_attributes-IsLoggable r.attributes start key (rw (quiet, format) at h))
      | inr (text, raised) ↦
          elim (set_key-contains key "exc_info" text (add_attributes r.attributes start)
            (rw (raised, format) at h)) [
              | inl old ↦ inr (add_attributes-IsLoggable r.attributes start key old)
              | inr same ↦ inl (sym same)
            ]
    ]
