-- ===== src/Ops/Requests.antt =====
-- app/core/middleware.py: one request through RequestContextMiddleware. The route is the template
-- that the request was matched to; durations are left out.
pub mod Correlation
use voice_spend.Prelude.{
  ℕ, String, Bool, Option, none, some, List, [], ◌∷◌, ◌++◌, Result, ok, err, str_eq, leb,
  if◌then◌else◌, or_else,
}
use voice_spend.Http.{Metric, http_request_duration}
use voice_spend.Ops.Logging.{Headers}

pub data Level : Type 0 where
  info warning error : Level

-- A log line: its level, its message, and the request's route, method and status, and request id.
pub record LogLine : Type 0 where
  pub level : Level
  pub message : String
  pub route : String
  pub method : String
  pub status_code : ℕ
  pub request_id : Option String

pub record Response : Type 0 where
  pub status_code : ℕ
  pub headers : Headers

pub record Request : Type 0 where
  pub method : String
  pub route : Option String
  pub x_request_id : Option String

-- _route_label
unfoldable pub route_label : Request → String
route_label request = or_else request.route "unmatched"

-- request.headers.get("x-request-id") or str(uuid.uuid4())
unfoldable pub request_id_of : Request → String → String
request_id_of request drawn = elim request.x_request_id [
  | none ↦ drawn
  | some id ↦ if str_eq id "" then drawn else id
]

-- headers[key] = value, with names in lower case as Starlette keeps them
unfoldable pub set_header : String → String → Headers → Headers
set_header key value [] = (key, value) ∷ []
set_header key value ((k, v) ∷ headers) =
    let rest = set_header key value headers in
    if str_eq k key then (key, value) ∷ headers else (k, v) ∷ rest

unfoldable pub level_of : ℕ → Level
level_of status = if leb 500 status then error else if leb 400 status then warning else info

-- What a process has measured and logged, and the request id of its context variable.
pub record Telemetry : Type 0 where
  pub request_id : Option String
  pub metrics : List Metric
  pub logs : List LogLine

-- HTTP_REQUEST_DURATION.labels(..).observe(..)
unfoldable pub observe : String → Request → ℕ → Telemetry → Telemetry
observe route request status s = record s {
  metrics = s.metrics ++ http_request_duration route request.method status ∷ [];
}

-- logger.error, logger.warning or logger.info: the line takes the request id that the context
-- variable has at that time.
unfoldable pub log : Level → String → String → Request → ℕ → Telemetry → Telemetry
log level message route request status s = record s {
  logs =
      s.logs
      ++ record {
        level = level;
        message = message;
        route = route;
        method = request.method;
        status_code = status;
        request_id = s.request_id;
      }
        ∷ [];
}

-- What a handler answers or raises, and what it measures and logs. It runs in a copy of the context,
-- of which it sees the request id.
abbrev pub Handler : Type 0
Handler = Option String → Result String Response × List Metric × List LogLine

-- RequestContextMiddleware.dispatch
unfoldable pub dispatch :
    Request → String → Handler → Telemetry → Result String Response × Telemetry
dispatch request drawn call_next s =
    let request_id = request_id_of request drawn in
    let token = s.request_id in
    let (result, metrics, logs) = call_next (some request_id) in
    let handled : Telemetry = record {
      request_id = some request_id;
      metrics = s.metrics ++ metrics;
      logs = s.logs ++ logs;
    } in
    let route = route_label request in
    elim result [
      | err exc ↦
          let observed = observe route request 500 handled in
          let logged = log error "request failed" route request 500 observed in
          (err exc, record logged { request_id = token })
      | ok response ↦
          let reset = record handled { request_id = token } in
          let status = response.status_code in
          let observed = observe route request status reset in
          (
            ok (record response {
              headers = set_header "x-request-id" request_id response.headers;
            }),
            log (level_of status) "request completed" route request status observed,
          )
    ]
