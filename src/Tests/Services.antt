-- ===== src/Tests/Services.antt =====
-- Logging, the middleware and the limiter's answer on concrete requests (app/core,
-- app/services/ratelimit).
use voice_spend.Prelude.{◌≡◌, ◌<◌, refl, ◌⊎◌, String, true, none, some, [], ◌∷◌, ok, err, map}
use voice_spend.Http.{retry_after}
use voice_spend.Ops.Logging.{
  redact_headers, Headers, LogRecord, is_standard, set_key, add_attributes, format, Payload,
}
use voice_spend.Ops.Logging.Secrets.{
  header, IsSecret, IsLoggable, redact_headers-shown, format-IsLoggable,
}
use voice_spend.Ops.Requests.{info, Request, Telemetry, Handler, request_id_of, dispatch}
use voice_spend.Ops.Requests.Correlation.{IsCorrelated, dispatch-IsCorrelated}
use voice_spend.RateLimit.{
  device, Redis, live, store_counter, incremented, hit, retry_seconds, decide, minute, day, Limits,
  enforce,
}
use voice_spend.RateLimit.Windows.{count_of}
use voice_spend.RateLimit.Retry.{IsSpent, enforce-IsSpent}
use voice_spend.Tests.Data.{small_python}

abbrev headers : Headers
headers = ("authorization", "Bearer abc") ∷ ("accept", "text/plain") ∷ []

redact_headers-shown_example :
    (map (λ h. h.0) (redact_headers small_python headers) ≡ map (λ h. h.0) headers)
    × ((key value : String)
        → header key headers ≡ some value
        → (IsSecret (small_python.lower key)
            → header key (redact_headers small_python headers) ≡ some "***REDACTED***")
          × (¬ IsSecret (small_python.lower key)
              → header key (redact_headers small_python headers) ≡ some value))
redact_headers-shown_example = redact_headers-shown small_python headers

abbrev line : LogRecord
line = record {
  levelname = "INFO";
  name = "app";
  message = "request completed";
  attributes = ("msecs", some "3") ∷ ("route", some "/parse") ∷ [];
  exc_info = none;
}

abbrev own_keys : Payload
own_keys =
    ("timestamp", "t")
    ∷ ("level", "INFO")
    ∷ ("logger", "app")
    ∷ ("message", "request completed")
    ∷ []

format-IsLoggable_example :
    (◌≡◌ {A = String} "route" "exc_info") ⊎ IsLoggable line.attributes own_keys "route"
unfolding format add_attributes is_standard set_key
format-IsLoggable_example = format-IsLoggable "t" line "route" refl

abbrev request : Request
request = record { method = "POST"; route = some "/api/v1/parse"; x_request_id = some "abc" }

-- A handler that logs a line of its own, with the request id that it sees.
abbrev respond : Handler
respond id = (
  ok (record { status_code = 200; headers = [] }),
  [],
  record {
    level = info;
    message = "parsed";
    route = "/api/v1/parse";
    method = "POST";
    status_code = 200;
    request_id = id;
  }
      ∷ [],
)

abbrev quiet : Telemetry
quiet = record { request_id = none; metrics = []; logs = [] }

dispatch-IsCorrelated_example :
    let (answer, after) = dispatch request "drawn" respond quiet in
    IsCorrelated request (request_id_of request "drawn") respond quiet answer after
dispatch-IsCorrelated_example = dispatch-IsCorrelated request "drawn" respond quiet

abbrev one_a_minute : Limits
one_a_minute = record { per_minute = 1; per_day = 100; fail_open = true }

abbrev one_hit : Redis
one_hit = record { scope = device 10; window = 60; count = 1; expires = 61000 } ∷ []

refused :
    (enforce one_a_minute 5500 true true (device 10) "parse" one_hit).0.0 ≡ err (retry_after 56)
unfolding enforce hit incremented live store_counter decide retry_seconds
refused = refl

enforce-IsSpent_example :
    let after = (enforce one_a_minute 5500 true true (device 10) "parse" one_hit).1 in
    IsSpent 5500 (device 10) one_hit after minute 1 56
    ⊎ ((count_of (live 5500 (device 10) minute one_hit) < 1)
        × IsSpent 5500 (device 10) one_hit after day 100 56)
enforce-IsSpent_example = enforce-IsSpent one_a_minute 5500 (device 10) "parse" one_hit 56 refused
