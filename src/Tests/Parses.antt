-- ===== src/Tests/Parses.antt =====
-- POST /api/v1/parse and /api/v1/transcribe on concrete requests (app/api/v1/parse.py).
use voice_spend.Prelude.{true, ◌≡◌, refl, inr, false, none, some, [], ◌∷◌, ok, arith}
use voice_spend.Prelude.Int.{pos}
use voice_spend.Decimal.{finite}
use voice_spend.Models.{free, active}
use voice_spend.Http.{DateTime, parse_latency}
use voice_spend.Settings.{Settings, default_settings}
use voice_spend.Metering.Usage.{current_period, get_usage_count}
use voice_spend.Metering.Signal.{
  find_entitlement, effective, resolve_entitlement, build_entitlement_signal,
}
use voice_spend.Fx.Convert.{convert}
use voice_spend.Extraction.{is_below, at_least, RawExtraction, LlmExtractor}
use voice_spend.Extraction.Providers.{Transcript, SttProvider}
use voice_spend.Parse.{
  parse_ok, quota_exceeded, ParseResponse, llm_call, stt_call, get_langfuse_client,
  current_trace_id, known_category_names, normalize_currency_code_or_none, first_match,
  match_category, parse_spent_at, base_amount, build_extraction_out, status_of, respond_with,
  to_response, finish_extraction, run_extraction, parse_expense, with_transcript,
  transcribe_expense,
}
use voice_spend.Parse.Gate.{MayCall, parse_expense-calls, transcribe_expense-calls}
use voice_spend.Parse.Answers.{IsConsistent, answer_of, parse_expense-IsConsistent}
use voice_spend.Parse.Audio.{transcribe_expense-parse_expense}
use voice_spend.Tests.Data.{small_python, alice, start, today}

abbrev settings : Settings
settings = default_settings "postgresql://localhost/spend" "https://example.supabase.co"

abbrev noon : DateTime
noon = record { wall = 1790000000000000; tzinfo = some (pos 0) }

abbrev bread_for_two : RawExtraction
bread_for_two = record {
  amount = some (finite (pos 1250) 2);
  currency = some "EUR";
  category = some "Bakery";
  payment_method = none;
  merchant = some "baker";
  spent_at = none;
  confidence = finite (pos 9) 1;
}

abbrev llm : LlmExtractor
llm = record {
  provider_name = "gemini";
  model_name = "gemini-2.0-flash";
  extract = λ text ctx. ok (record {
    raw = some bread_for_two;
    error = none;
    prompt_tokens = some 100;
    completion_tokens = some 20;
  });
}

abbrev heard : Transcript
heard = record { text = "bread 12.50"; language = none }

abbrev stt : SttProvider
stt = record {
  provider_name = "groq";
  model_name = "whisper";
  transcribe = λ audio mime_type. ok heard;
}

abbrev bread_answer : ParseResponse
bread_answer = record {
  status = parse_ok;
  extraction = some (record {
    amount_original = some (finite (pos 1250) 2);
    currency_original = some "EUR";
    amount_base = some (finite (pos 1250) 2);
    currency_base = some "EUR";
    category = some "Bakery";
    category_is_known = false;
    payment_method = none;
    merchant = some "baker";
    spent_at = noon;
    confidence = finite (pos 9) 1;
  });
  trace_id = none;
  entitlement = record {
    tier = free;
    status = active;
    period = "2026-09";
    used = 0;
    quota = some 20;
    over_quota = false;
  };
}

answered :
    (parse_expense small_python settings today none noon start.db alice llm "bread 12.50"
      none).result
    ≡ ok bread_answer
unfolding parse_expense run_extraction finish_extraction to_response respond_with status_of at_least
    is_below build_extraction_out base_amount convert parse_spent_at match_category first_match
    normalize_currency_code_or_none known_category_names current_trace_id get_langfuse_client
    build_entitlement_signal resolve_entitlement find_entitlement effective get_usage_count
    current_period
answered = refl

parse_expense-IsConsistent_example :
    let entitlement = build_entitlement_signal 20 today start.db alice in
    (bread_answer.entitlement ≡ entitlement)
    × (entitlement.over_quota ≡ true
        → (bread_answer.status ≡ quota_exceeded) × (bread_answer.extraction ≡ none))
    × (entitlement.over_quota ≡ false
        → IsConsistent small_python start.db alice settings
            (answer_of small_python start.db alice llm "bread 12.50" noon)
            bread_answer.status
            bread_answer.extraction)
parse_expense-IsConsistent_example =
    parse_expense-IsConsistent small_python start.db alice settings today none noon llm
      "bread 12.50" none bread_answer answered

alice-MayCall : MayCall settings today start.db alice
unfolding get_usage_count
alice-MayCall = inr (omega arith)

parse_expense-calls_example :
    (parse_expense small_python settings today none noon start.db alice llm "bread 12.50"
      none).calls
    ≡ llm_call "bread 12.50" ∷ []
parse_expense-calls_example =
    (parse_expense-calls small_python settings today none noon start.db alice llm "bread 12.50"
        none).0
      (omega arith, alice-MayCall)

transcribe_expense-calls_example :
    (transcribe_expense small_python settings today none noon start.db alice llm stt
      (1 ∷ 2 ∷ [])
      none
      none).calls
    ≡ stt_call (1 ∷ 2 ∷ []) ∷ llm_call "bread 12.50" ∷ []
transcribe_expense-calls_example =
    (transcribe_expense-calls small_python settings today none noon start.db alice llm stt
        (1 ∷ 2 ∷ []) none none).0
      (omega arith, alice-MayCall)

transcribe_expense-parse_expense_example :
    let spoken =
      transcribe_expense small_python settings today none noon start.db alice llm stt
        (1 ∷ 2 ∷ [])
        none
        none in
    let read =
      parse_expense small_python settings today none noon start.db alice llm "bread 12.50" none in
    (spoken.result ≡ with_transcript small_python "bread 12.50" read.result)
    × (spoken.calls ≡ stt_call (1 ∷ 2 ∷ []) ∷ read.calls)
    × (spoken.metrics ≡ parse_latency "groq" "stt" ∷ read.metrics)
transcribe_expense-parse_expense_example =
    transcribe_expense-parse_expense small_python settings today none noon start.db alice llm stt
      (1 ∷ 2 ∷ []) none none heard (omega arith) (omega arith) alice-MayCall refl
