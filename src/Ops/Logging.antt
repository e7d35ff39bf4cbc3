-- ===== src/Ops/Logging.antt =====
-- app/core/logging.py: which headers and which attributes of a record may be written. A value of an
-- attribute is a text, or Python's None.
pub mod Secrets
use text.Mathlib.Text.{starts_with}
use voice_spend.Prelude.{
  ℕ, String, Bool, true, false, ◌||◌, Option, none, some, List, [], ◌∷◌, ◌++◌, map, str_eq,
  if◌then◌else◌,
}
use voice_spend.Http.{Python}

abbrev pub contains : List String → String → Bool
contains [] s = false
contains (x ∷ xs) s = let rest = contains xs s in str_eq x s || rest

-- _SENSITIVE_HEADERS
unfoldable pub is_sensitive : String → Bool
is_sensitive = contains ("authorization" ∷ "cookie" ∷ "x-api-key" ∷ [])

abbrev pub redacted : String
redacted = "***REDACTED***"

abbrev pub Headers : Type 0
Headers = List (String × String)

unfoldable pub redact_headers : Python → Headers → Headers
redact_headers py [] = []
redact_headers py ((key, value) ∷ headers) =
    (key, if is_sensitive (py.lower key) then redacted else value) ∷ redact_headers py headers

-- _STANDARD_LOG_RECORD_ATTRS
unfoldable pub is_standard : String → Bool
is_standard = contains (
    "name" ∷ "msg" ∷ "args" ∷ "levelname" ∷ "levelno" ∷ "pathname" ∷ "filename" ∷ "module"
    ∷ "exc_info" ∷ "exc_text" ∷ "stack_info" ∷ "lineno" ∷ "funcName" ∷ "created" ∷ "msecs"
    ∷ "relativeCreated" ∷ "thread" ∷ "threadName" ∷ "processName" ∷ "process" ∷ "taskName"
    ∷ "message" ∷ [])

abbrev pub Attributes : Type 0
Attributes = List (String × Option String)

pub record LogRecord : Type 0 where
  pub levelname : String
  pub name : String
  pub message : String
  pub attributes : Attributes
  pub exc_info : Option String

-- setattr(record, key, value)
unfoldable pub set_attribute : String → Option String → Attributes → Attributes
set_attribute key value [] = (key, value) ∷ []
set_attribute key value ((k, v) ∷ attributes) =
    let rest = set_attribute key value attributes in
    if str_eq k key then (key, value) ∷ attributes else (k, v) ∷ rest

-- _ContextFilter.filter, with the two context variables
unfoldable pub add_context : Option String → Option String → LogRecord → LogRecord
add_context request_id trace_id r = record r {
  attributes =
      set_attribute "trace_id" trace_id (set_attribute "request_id" request_id r.attributes);
}

abbrev pub Payload : Type 0
Payload = List (String × String)

-- payload[key] = value
unfoldable pub set_key : String → String → Payload → Payload
set_key key value [] = (key, value) ∷ []
set_key key value ((k, v) ∷ payload) =
    let rest = set_key key value payload in
    if str_eq k key then (key, value) ∷ payload else (k, v) ∷ rest

-- The loop of `format` over the attributes of the record.
unfoldable pub add_attributes : Attributes → Payload → Payload
add_attributes [] payload = payload
add_attributes ((key, none) ∷ attributes) payload = add_attributes attributes payload
add_attributes ((key, some value) ∷ attributes) payload =
    add_attributes attributes
      (if is_standard key || starts_with key "_" then payload else set_key key value payload)

abbrev add_exception : Option String → Payload → Payload
add_exception none payload = payload
add_exception (some text) payload = set_key "exc_info" text payload

-- JSONFormatter.format, before json.dumps: `timestamp` is the time of the call in ISO format
unfoldable pub format : String → LogRecord → Payload
format timestamp r = add_exception r.exc_info (
    add_attributes r.attributes (
      ("timestamp", timestamp)
      ∷ ("level", r.levelname)
      ∷ ("logger", r.name)
      ∷ ("message", r.message)
      ∷ []))
