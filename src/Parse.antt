-- ===== src/Parse.antt =====
-- POST /api/v1/parse and /api/v1/transcribe: app/api/v1/parse.py, with app/schemas/parse.py and the
-- tracing of app/core/tracing.py as far as its trace ids are answered. A handler returns its answer,
-- the metrics that it records and the paid calls that it makes; it has no table to write to. Times of
-- latency metrics are left out.
pub mod Gate
pub mod Answers
pub mod Audio
use Prim.Native.String.{count, ◌++◌ as append}
use voice_spend.Prelude.{
  ℕ, zero, suc, ◌/◌, String, Bool, true, false, not, ◌&&◌, Option, none, some, List, [], ◌∷◌, ◌++◌,
  Result, ok, err, ◌>>=◌, ltb, ◌==◌, str_eq, if◌then◌else◌, or_else, length,
}
use voice_spend.Prelude.Int.{pos}
use voice_spend.Decimal.{Decimal, finite, ArithmeticError}
use voice_spend.Models.{Date, User, Category, FxRate, Db}
use voice_spend.Http.{
  Failure, http, arithmetic, Metric, parse_requests, parse_latency, parse_llm_cost, parse_tokens,
  Env, DateTime, Python,
}
use voice_spend.Settings.{Settings}
use voice_spend.Metering.Signal.{EntitlementSignal, build_entitlement_signal}
use voice_spend.Fx.Convert.{convert}
use voice_spend.Extraction.{
  at_least, RawExtraction, ExtractionContext, ExtractionResult, LlmExtractor, failed_result,
  estimate_cost,
}
use voice_spend.Extraction.Providers.{Transcript, SttProvider}

pub data ParseOutcome : Type 0 where
  parse_ok low_confidence parse_failed quota_exceeded : ParseOutcome

abbrev pub outcome_text : ParseOutcome → String
outcome_text parse_ok = "ok"
outcome_text low_confidence = "low_confidence"
outcome_text parse_failed = "failed"
outcome_text quota_exceeded = "quota_exceeded"

pub record ExtractionOut : Type 0 where
  pub amount_original : Option Decimal
  pub currency_original : Option String
  pub amount_base : Option Decimal
  pub currency_base : Option String
  pub category : Option String
  pub category_is_known : Bool
  pub payment_method : Option String
  pub merchant : Option String
  pub spent_at : DateTime
  pub confidence : Decimal

pub record ParseResponse : Type 0 where
  pub status : ParseOutcome
  pub extraction : Option ExtractionOut
  pub trace_id : Option String
  pub entitlement : EntitlementSignal

pub record TranscribeResponse : Type 0 where
  pub parsed : ParseResponse
  pub transcript : String

-- A call of a paid provider: of the language model with a text, of speech to text with the audio.
pub data PaidCall : Type 0 where
  llm_call : String → PaidCall
  stt_call : List ℕ → PaidCall

pub record Answered (A : Type 0) : Type 0 where
  pub result : Result Failure A
  pub metrics : List Metric
  pub calls : List PaidCall

-- A Langfuse client, of which the program answers the current trace id.
pub record Langfuse : Type 0 where
  pub get_current_trace_id : Option String

-- get_langfuse_client, over the client that it would make of the keys, if the package is there
unfoldable pub get_langfuse_client : Settings → Option Langfuse → Option Langfuse
get_langfuse_client settings none = none
get_langfuse_client settings (some client) =
    if str_eq settings.langfuse_public_key ""
    then none
    else if str_eq settings.langfuse_secret_key ""
    then none
    else some client

unfoldable pub current_trace_id : Settings → Option Langfuse → Option String
current_trace_id settings installed = elim (get_langfuse_client settings installed) [
  | none ↦ none
  | some client ↦ client.get_current_trace_id
]

-- record_parse_cost: nothing for a cost of zero
unfoldable pub record_parse_cost : String → String → ℕ → List Metric
record_parse_cost provider model zero = []
record_parse_cost provider model (suc n) = parse_llm_cost provider model (suc n) ∷ []

-- record_parse_tokens: nothing for no count and for zero
unfoldable pub record_parse_tokens : String → String → String → Option ℕ → List Metric
record_parse_tokens provider model kind none = []
record_parse_tokens provider model kind (some zero) = []
record_parse_tokens provider model kind (some (suc n)) =
    parse_tokens provider model kind (suc n) ∷ []

-- _known_category_names
unfoldable pub known_category_names : List Category → List String
known_category_names [] = []
known_category_names (c ∷ cs) =
    let rest = known_category_names cs in if c.is_system then c.name ∷ rest else rest

module _ (py : Python) where
  unfoldable pub normalize_currency_code_or_none : Option String → Option String
  normalize_currency_code_or_none none = none
  normalize_currency_code_or_none (some value) =
      let normalized = py.upper (py.strip value) in
      if count normalized == 3 && py.is_alpha normalized then some normalized else none

  -- The loop of _match_category: the first name that is the category but for its case.
  unfoldable pub first_match : String → List String → Option String
  first_match raw [] = none
  first_match raw (name ∷ names) =
      let rest = first_match raw names in
      if str_eq (py.casefold name) (py.casefold raw) then some name else rest

  unfoldable pub match_category : Option String → List String → Option String × Bool
  match_category none known = (none, false)
  match_category (some raw) known = elim (first_match raw known) [
    | none ↦ (some raw, false)
    | some name ↦ (some name, true)
  ]

  -- _parse_spent_at
  unfoldable pub parse_spent_at : Option String → DateTime → DateTime
  parse_spent_at none reference_time = reference_time
  parse_spent_at (some raw) reference_time = elim (py.fromisoformat raw) [
    | none ↦ reference_time
    | some t ↦ elim t.tzinfo [
      | some tz ↦ t
      | none ↦ record t { tzinfo = some (or_else reference_time.tzinfo (pos 0)) }
    ]
  ]

  -- spent_at.date(), on its own clock
  abbrev pub day_of : DateTime → Date
  day_of t = t.wall / 86400000000

  -- The conversion in _build_extraction_out.
  unfoldable pub base_amount :
      List FxRate
      → Option Decimal
      → Option String
      → String
      → Date
      → Result ArithmeticError (Option Decimal)
  base_amount rates none currency base as_of = ok none
  base_amount rates (some amount) none base as_of = ok none
  base_amount rates (some amount) (some currency) base as_of =
      convert rates amount currency base as_of

  unfoldable pub build_extraction_out :
      RawExtraction → List FxRate → User → List String → DateTime → Result Failure ExtractionOut
  build_extraction_out raw rates user known reference_time =
      let currency = normalize_currency_code_or_none raw.currency in
      let spent_at = parse_spent_at raw.spent_at reference_time in
      let (category, is_known) = match_category raw.category known in
      elim (base_amount rates raw.amount currency user.base_currency (day_of spent_at)) [
        | err e ↦ err (arithmetic e)
        | ok amount_base ↦ ok (record {
          amount_original = raw.amount;
          currency_original = currency;
          amount_base = amount_base;
          currency_base = some user.base_currency;
          category = category;
          category_is_known = is_known;
          payment_method = raw.payment_method;
          merchant = raw.merchant;
          spent_at = spent_at;
          confidence = raw.confidence;
        })
      ]

  -- The status that a confidence has by the two thresholds.
  unfoldable pub status_of : Settings → Decimal → ParseOutcome
  status_of settings confidence =
      if at_least confidence settings.confidence_ok_threshold
      then parse_ok
      else if at_least confidence settings.confidence_low_threshold
      then low_confidence
      else parse_failed

  unfoldable pub respond_with :
      ParseOutcome
      → RawExtraction
      → Db
      → User
      → List String
      → DateTime
      → Result Failure (ParseOutcome × Option ExtractionOut)
  respond_with parse_failed raw db user known reference_time = ok (parse_failed, none)
  respond_with status raw db user known reference_time =
      build_extraction_out raw db.fx_rates user known reference_time >>= λ out.
      ok (status, some out)

  -- _to_response
  unfoldable pub to_response :
      Settings
      → ExtractionResult
      → Db
      → User
      → List String
      → DateTime
      → Result Failure (ParseOutcome × Option ExtractionOut)
  to_response settings outcome db user known reference_time = elim outcome.raw [
    | none ↦ ok (parse_failed, none)
    | some raw ↦ respond_with (status_of settings raw.confidence) raw db user known reference_time
  ]

  abbrev pub outcome_of_call : Result String ExtractionResult → ExtractionResult
  outcome_of_call (ok outcome) = outcome
  outcome_of_call (err exc) = failed_result exc

  abbrev pub cost_metrics : String → String → Option ℕ → List Metric
  cost_metrics provider model none = []
  cost_metrics provider model (some cost) = record_parse_cost provider model cost

  -- The metrics of the generation.
  unfoldable pub generation_metrics : LlmExtractor → ExtractionResult → List Metric
  generation_metrics extractor outcome =
      let provider = extractor.provider_name in
      let model = extractor.model_name in
      parse_latency provider "llm"
      ∷ (record_parse_tokens provider model "prompt" outcome.prompt_tokens
          ++ (record_parse_tokens provider model "completion" outcome.completion_tokens
              ++ cost_metrics provider model
                  (estimate_cost provider model outcome.prompt_tokens outcome.completion_tokens)))

  -- What _run_extraction answers once the response is known. An exception leaves before the last
  -- two metrics.
  unfoldable pub finish_extraction :
      String
      → LlmExtractor
      → ExtractionResult
      → Option String
      → EntitlementSignal
      → Result Failure (ParseOutcome × Option ExtractionOut)
      → Answered ParseResponse
  finish_extraction text extractor outcome trace_id entitlement (err e) = record {
    result = err e;
    metrics = generation_metrics extractor outcome;
    calls = llm_call text ∷ [];
  }
  finish_extraction text extractor outcome trace_id entitlement (ok (status, extraction)) = record {
    result = ok (record {
      status = status;
      extraction = extraction;
      trace_id = trace_id;
      entitlement = entitlement;
    });
    metrics =
        generation_metrics extractor outcome
        ++ (parse_latency extractor.provider_name "total"
            ∷ parse_requests extractor.provider_name extractor.model_name (outcome_text status)
            ∷ []);
    calls = llm_call text ∷ [];
  }

  -- _run_extraction
  unfoldable pub run_extraction :
      Settings
      → Option Langfuse
      → String
      → User
      → Db
      → DateTime
      → LlmExtractor
      → EntitlementSignal
      → Answered ParseResponse
  run_extraction settings langfuse text user db reference_time extractor entitlement =
      let known = known_category_names db.categories in
      let outcome = outcome_of_call (
        extractor.extract text (record {
          base_currency = user.base_currency;
          known_categories = known;
          reference_time = reference_time;
        })) in
      finish_extraction text extractor outcome (current_trace_id settings langfuse) entitlement
        (to_response settings outcome db user known reference_time)

  abbrev pub quota_answer : EntitlementSignal → ParseResponse
  quota_answer entitlement = record {
    status = quota_exceeded;
    extraction = none;
    trace_id = none;
    entitlement = entitlement;
  }

  abbrev pub quota_metric : LlmExtractor → Metric
  quota_metric extractor =
      parse_requests extractor.provider_name extractor.model_name (outcome_text quota_exceeded)

  -- parse_expense. `now` is datetime.now(UTC).
  unfoldable pub parse_expense :
      Settings
      → Env
      → Option Langfuse
      → DateTime
      → Db
      → User
      → LlmExtractor
      → String
      → Option DateTime
      → Answered ParseResponse
  parse_expense settings env langfuse now db user extractor text reference_time =
      let entitlement = build_entitlement_signal settings.free_monthly_log_quota env db user in
      if ltb settings.parse_max_text_length (count text)
      then record {
        result = err (
            http 422 (
              append "text exceeds the "
                (append (py.str_of_int settings.parse_max_text_length) "-character limit")));
        metrics = [];
        calls = [];
      }
      else if entitlement.over_quota
      then record {
        result = ok (quota_answer entitlement);
        metrics = quota_metric extractor ∷ [];
        calls = [];
      }
      else run_extraction settings langfuse text user db (or_else reference_time now) extractor
          entitlement

  abbrev pub with_transcript :
      String → Result Failure ParseResponse → Result Failure TranscribeResponse
  with_transcript text (ok response) = ok (record { parsed = response; transcript = text })
  with_transcript text (err e) = err e

  -- What transcribe_expense does once the provider has answered.
  unfoldable pub transcribed :
      Settings
      → Option Langfuse
      → DateTime
      → Db
      → User
      → LlmExtractor
      → SttProvider
      → List ℕ
      → EntitlementSignal
      → Result String Transcript
      → Answered TranscribeResponse
  transcribed settings langfuse reference_time db user extractor stt audio entitlement (err exc) =
      record {
        result = ok (record {
          parsed = record {
            status = parse_failed;
            extraction = none;
            trace_id = current_trace_id settings langfuse;
            entitlement = entitlement;
          };
          transcript = "";
        });
        metrics =
            parse_latency stt.provider_name "stt"
            ∷ parse_requests extractor.provider_name extractor.model_name
                (outcome_text parse_failed)
            ∷ [];
        calls = stt_call audio ∷ [];
      }
  transcribed settings langfuse reference_time db user extractor stt audio entitlement
        (ok transcript) =
      let answer =
        run_extraction settings langfuse transcript.text user db reference_time extractor
          entitlement in
      record {
        result = with_transcript transcript.text answer.result;
        metrics = parse_latency stt.provider_name "stt" ∷ answer.metrics;
        calls = stt_call audio ∷ answer.calls;
      }

  abbrev pub mime_type : Option String → String
  mime_type none = "application/octet-stream"
  mime_type (some content_type) =
      if str_eq content_type "" then "application/octet-stream" else content_type

  unfoldable pub transcribe_expense :
      Settings
      → Env
      → Option Langfuse
      → DateTime
      → Db
      → User
      → LlmExtractor
      → SttProvider
      → List ℕ
      → Option String
      → Option DateTime
      → Answered TranscribeResponse
  transcribe_expense settings env langfuse now db user extractor stt audio content_type
        reference_time =
      let entitlement = build_entitlement_signal settings.free_monthly_log_quota env db user in
      if ltb settings.max_audio_bytes (length audio)
      then record {
        result = err (
            http 413 (
              append "audio exceeds the "
                (append (py.str_of_int settings.max_audio_bytes) "-byte limit")));
        metrics = [];
        calls = [];
      }
      else if entitlement.over_quota
      then record {
        result = ok (record { parsed = quota_answer entitlement; transcript = "" });
        metrics = quota_metric extractor ∷ [];
        calls = [];
      }
      else transcribed settings langfuse (or_else reference_time now) db user extractor stt audio
          entitlement (stt.transcribe audio (mime_type content_type))
