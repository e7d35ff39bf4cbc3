-- ===== src/Ops/Probes.antt =====
-- The health endpoints, app/api/v1/health.py, and the guard of GET /metrics, app/api/metrics.py. The
-- answers of PostgreSQL and Redis are arguments, and the rendering of the metrics is
-- prometheus_client's.
use Prim.Native.String.{◌++◌ as append}
use voice_spend.Prelude.{
  ℕ, ◌≡◌, ◌⊎◌, String, Bool, true, false, ◌&&◌, Option, none, some, List, [], ◌∷◌, Result, ok, err,
  ◌>>=◌, arith, str_eq, eq_iff, if◌then◌else◌, ◌↔◌,
}
use voice_spend.Http.{Failure, http, Python, compare_digest}
use voice_spend.Settings.{Settings}

unfoldable pub liveness : String
liveness = "ok"

pub record Readiness : Type 0 where
  pub status_code : ℕ
  pub status : String
  pub checks : List (String × String)

abbrev check_text : Result String (Unit {0}) → String
check_text (ok x) = "ok"
check_text (err exc) = append "error: " exc

abbrev pub is_ok : Result String (Unit {0}) → Bool
is_ok (ok x) = true
is_ok (err exc) = false

unfoldable pub readiness : Result String (Unit {0}) → Result String (Unit {0}) → Readiness
readiness postgres redis =
    let healthy = is_ok postgres && is_ok redis in
    record {
      status_code = if healthy then 200 else 503;
      status = if healthy then "ok" else "unavailable";
      checks = ("postgres", check_text postgres) ∷ ("redis", check_text redis) ∷ [];
    }

-- GET /metrics, with the text that render_prometheus_metrics gives
unfoldable pub metrics : Python → Settings → Option String → String → Result Failure String
metrics py settings authorization rendered =
    if str_eq settings.metrics_token "" then ok rendered else elim authorization [
      | none ↦ err (http 401 "unauthorized")
      | some given ↦ compare_digest py given (append "Bearer " settings.metrics_token) >>= λ same.
          if same then ok rendered else err (http 401 "unauthorized")
    ]

-- The metrics are given out exactly where no token is configured, or where the header is the
-- configured one and both are ASCII texts.
pub metrics_iff :
    (py : Python) (settings : Settings) (authorization : Option String) (rendered : String)
    → (metrics py settings authorization rendered ≡ ok rendered) ↔ (
        (settings.metrics_token ≡ "")
        ⊎ ((authorization ≡ some (append "Bearer " settings.metrics_token))
            × (py.is_ascii (append "Bearer " settings.metrics_token) ≡ true)))
unfolding metrics compare_digest
metrics_iff py settings none rendered = ground (arith, eq_iff settings.metrics_token "")
metrics_iff py settings (some given) rendered = ground (
  arith,
  eq_iff settings.metrics_token "",
  eq_iff given (append "Bearer " settings.metrics_token),
)
