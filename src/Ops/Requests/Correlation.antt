-- ===== src/Ops/Requests/Correlation.antt =====
-- How the answer, the metric and the log line of a request agree: app/core/middleware.py.
use voice_spend.Prelude.{
  ℕ, ◌≤◌, String, ◌≡◌, refl, Option, some, List, [], ◌∷◌, ◌++◌, Result, ok, err, arith, eq_iff, ◌↔◌,
  inl, inr, Result-cases,
}
use voice_spend.Http.{Metric, http_request_duration}
use voice_spend.Ops.Logging.{Headers}
use voice_spend.Ops.Logging.Secrets.{header}
use voice_spend.Ops.Requests.{
  Level, error, Response, Request, route_label, request_id_of, set_header, level_of, LogLine,
  Telemetry, Handler, observe, log, dispatch,
}

header-set_header :
    (key value : String) (headers : Headers)
    → header key (set_header key value headers) ≡ some value
unfolding set_header
header-set_header key value [] = ground (arith, eq_iff key key)
header-set_header key value ((k, v) ∷ headers) =
    ground (arith, header-set_header key value headers, eq_iff k key, eq_iff key key)

level_of_iff : (status : ℕ) → (level_of status ≡ error) ↔ (500 ≤ status)
unfolding level_of
level_of_iff status = ground arith

abbrev line_of : Level → String → Request → ℕ → Option String → LogLine
line_of level message request status id = record {
  level = level;
  message = message;
  route = route_label request;
  method = request.method;
  status_code = status;
  request_id = id;
}

-- What a request leaves: one measurement and one line after those of its handler, of its route, its
-- method and one status; the line is an error from status 500 on; and the context is restored.
pub record IsRecorded (request : Request) (metrics : List Metric) (logs : List LogLine)
    (before after : Telemetry) (status : ℕ) (line : LogLine) : Type 0 where
  pub measured :
      after.metrics
      ≡ (before.metrics ++ metrics)
        ++ http_request_duration (route_label request) request.method status ∷ []
  pub logged : after.logs ≡ (before.logs ++ logs) ++ line ∷ []
  pub route : line.route ≡ route_label request
  pub method : line.method ≡ request.method
  pub status_code : line.status_code ≡ status
  pub level : (line.level ≡ error) ↔ (500 ≤ status)
  pub restored : after.request_id ≡ before.request_id

-- How the answer and the line go with what the handler made of the request.
abbrev pub IsAnswered :
    String → Option String → Result String Response → Result String Response → ℕ → LogLine → Type 0
IsAnswered id before (err exc) answer status line =
    (answer ≡ err exc) × (status ≡ 500) × (line.request_id ≡ some id)
IsAnswered id before (ok response) answer status line =
    ((out : Response) × (answer ≡ ok out)
      × (out.status_code ≡ response.status_code)
      × (header "x-request-id" out.headers ≡ some id))
    × (status ≡ response.status_code)
    × (line.request_id ≡ before)

abbrev pub IsCorrelated :
    Request → String → Handler → Telemetry → Result String Response → Telemetry → Type 0
IsCorrelated request id call_next before answer after =
    let (result, metrics, logs) = call_next (some id) in
    (status : ℕ) × (line : LogLine) × IsRecorded request metrics logs before after status line
    × IsAnswered id before.request_id result answer status line

IsCorrelated-answered :
    (request : Request) (drawn : String) (call_next : Handler) (s : Telemetry) (response : Response)
    → (call_next (some (request_id_of request drawn))).0 ≡ ok response
    → let (answer, after) = dispatch request drawn call_next s in
      IsCorrelated request (request_id_of request drawn) call_next s answer after
unfolding dispatch observe log
IsCorrelated-answered request drawn call_next s response answered =
    let id = request_id_of request drawn in
    let status = response.status_code in
    let out : Response = record response {
      headers = set_header "x-request-id" id response.headers;
    } in
    rw (answered, dispatch)
      (
        status,
        line_of (level_of status) "request completed" request status s.request_id,
        record {
          measured = refl;
          logged = refl;
          route = refl;
          method = refl;
          status_code = refl;
          level = level_of_iff status;
          restored = refl;
        },
        ((out, refl, refl, header-set_header "x-request-id" id response.headers), refl, refl),
      )

IsCorrelated-raised :
    (request : Request) (drawn : String) (call_next : Handler) (s : Telemetry) (exc : String)
    → (call_next (some (request_id_of request drawn))).0 ≡ err exc
    → let (answer, after) = dispatch request drawn call_next s in
      IsCorrelated request (request_id_of request drawn) call_next s answer after
unfolding dispatch observe log
IsCorrelated-raised request drawn call_next s exc raised =
    rw (raised, dispatch)
      (
        500,
        line_of error "request failed" request 500 (some (request_id_of request drawn)),
        record {
          measured = refl;
          logged = refl;
          route = refl;
          method = refl;
          status_code = refl;
          level = (λ e. omega arith, λ late. refl);
          restored = refl;
        },
        (refl, refl, refl),
      )

-- A request adds one measurement and one log line to those of its handler, both under its route, its
-- method and one status, and the line is an error exactly from status 500 on. An answer keeps the
-- handler's status and carries the request id that the handler saw; an exception passes on, under
-- status 500. The line of an exception has the request id, and the line of an answer has what the
-- context variable held before the request, to which both restore it.
pub dispatch-IsCorrelated :
    (request : Request) (drawn : String) (call_next : Handler) (s : Telemetry)
    → let (answer, after) = dispatch request drawn call_next s in
      IsCorrelated request (request_id_of request drawn) call_next s answer after
dispatch-IsCorrelated request drawn call_next s =
    elim (Result-cases (call_next (some (request_id_of request drawn))).0) [
      | inl (exc, raised) ↦ IsCorrelated-raised request drawn call_next s exc raised
      | inr (response, answered) ↦ IsCorrelated-answered request drawn call_next s response answered
    ]
