-- ===== src/Parse/Gate.antt =====
-- Which paid calls a request makes: app/api/v1/parse.py.
use Prim.Native.String.{count}
use voice_spend.Prelude.{
  ℕ, ◌≤◌, ◌<◌, ◌≡◌, ◌⊎◌, refl, ap, String, true, Option, none, List, [], ◌∷◌, Result, ok, err,
  arith, length, or_else,
}
use voice_spend.Models.{User, Db}
use voice_spend.Http.{Failure, Env, DateTime, Python}
use voice_spend.Settings.{Settings}
use voice_spend.Metering.Usage.{current_period, get_usage_count}
use voice_spend.Metering.Signal.{EntitlementSignal, resolve_entitlement, build_entitlement_signal}
use voice_spend.Metering.Signal.Quota.{over_quota_iff}
use voice_spend.Extraction.{ExtractionResult, LlmExtractor}
use voice_spend.Extraction.Providers.{Transcript, SttProvider}
use voice_spend.Parse.{
  PaidCall, llm_call, stt_call, Langfuse, ParseOutcome, ExtractionOut, finish_extraction,
  run_extraction, parse_expense, transcribed, transcribe_expense, mime_type,
}

-- The user has the paid tier, or has logged less than the quota in the current period.
abbrev pub MayCall : Settings → Env → Db → User → Type 0
MayCall settings env db user =
    ((resolve_entitlement env db.entitlements user).is_pro ≡ true)
    ⊎ (get_usage_count db.counters user.id (current_period env none)
        < settings.free_monthly_log_quota)

module _ (py : Python) where
  finish_extraction-calls :
      (text : String) (extractor : LlmExtractor) (outcome : ExtractionResult)
      (trace_id : Option String) (entitlement : EntitlementSignal)
      (r : Result Failure (ParseOutcome × Option ExtractionOut))
      → (finish_extraction py text extractor outcome trace_id entitlement r).calls
        ≡ llm_call text ∷ []
  unfolding finish_extraction
  finish_extraction-calls text extractor outcome trace_id entitlement (err e) = refl
  finish_extraction-calls text extractor outcome trace_id entitlement (ok (s, x)) = refl

  pub run_extraction-calls :
      (settings : Settings) (langfuse : Option Langfuse) (text : String) (user : User) (db : Db)
      (reference_time : DateTime) (extractor : LlmExtractor) (entitlement : EntitlementSignal)
      → (run_extraction py settings langfuse text user db reference_time extractor
          entitlement).calls
        ≡ llm_call text ∷ []
  unfolding run_extraction
  run_extraction-calls settings langfuse text user db reference_time extractor entitlement =
      finish_extraction-calls text extractor _ _ entitlement _

  -- A parse calls the language model exactly once if its text is within the limit and the user has
  -- the paid tier or quota left, and makes no paid call otherwise.
  pub parse_expense-calls :
      (settings : Settings) (env : Env) (langfuse : Option Langfuse) (now : DateTime) (db : Db)
      (user : User) (extractor : LlmExtractor) (text : String) (reference_time : Option DateTime)
      → let calls =
          (parse_expense py settings env langfuse now db user extractor text
            reference_time).calls in
        ((count text ≤ settings.parse_max_text_length) × MayCall settings env db user
          → calls ≡ llm_call text ∷ [])
        × (¬ ((count text ≤ settings.parse_max_text_length) × MayCall settings env db user)
            → calls ≡ [])
  unfolding parse_expense
  parse_expense-calls settings env langfuse now db user extractor text reference_time =
      let entitlement = build_entitlement_signal settings.free_monthly_log_quota env db user in
      let called =
        run_extraction-calls settings langfuse text user db (or_else reference_time now) extractor
          entitlement in
      let quota = over_quota_iff settings.free_monthly_log_quota env db user in
      (λ may. ground (arith, called, quota), λ may_not. ground (arith, called, quota))

  -- The call that follows what speech to text has answered.
  abbrev pub call_after : Result String Transcript → List PaidCall
  call_after (err exc) = []
  call_after (ok transcript) = llm_call transcript.text ∷ []

  transcribed-calls :
      (settings : Settings) (langfuse : Option Langfuse) (reference_time : DateTime) (db : Db)
      (user : User) (extractor : LlmExtractor) (stt : SttProvider) (audio : List ℕ)
      (entitlement : EntitlementSignal) (heard : Result String Transcript)
      → (transcribed py settings langfuse reference_time db user extractor stt audio entitlement
          heard).calls
        ≡ stt_call audio ∷ call_after heard
  unfolding transcribed
  transcribed-calls settings langfuse reference_time db user extractor stt audio entitlement
        (err exc) =
      refl
  transcribed-calls settings langfuse reference_time db user extractor stt audio entitlement
        (ok t) =
      ap (λ calls. stt_call audio ∷ calls)
        (run_extraction-calls settings langfuse t.text user db reference_time extractor entitlement)

  -- A transcription pays for speech to text exactly once, and then for the language model where that
  -- has answered with a transcript, if the audio is within the limit and the user has the paid tier
  -- or quota left; otherwise it makes no paid call.
  pub transcribe_expense-calls :
      (settings : Settings) (env : Env) (langfuse : Option Langfuse) (now : DateTime) (db : Db)
      (user : User) (extractor : LlmExtractor) (stt : SttProvider) (audio : List ℕ)
      (content_type : Option String) (reference_time : Option DateTime)
      → let calls =
          (transcribe_expense py settings env langfuse now db user extractor stt audio content_type
            reference_time).calls in
        ((length audio ≤ settings.max_audio_bytes) × MayCall settings env db user
          → calls ≡ stt_call audio ∷ call_after (stt.transcribe audio (mime_type py content_type)))
        × (¬ ((length audio ≤ settings.max_audio_bytes) × MayCall settings env db user)
            → calls ≡ [])
  unfolding transcribe_expense
  transcribe_expense-calls settings env langfuse now db user extractor stt audio content_type
        reference_time =
      let entitlement = build_entitlement_signal settings.free_monthly_log_quota env db user in
      let called =
        transcribed-calls settings langfuse (or_else reference_time now) db user extractor stt audio
          entitlement (stt.transcribe audio (mime_type py content_type)) in
      let quota = over_quota_iff settings.free_monthly_log_quota env db user in
      (λ may. ground (arith, called, quota), λ may_not. ground (arith, called, quota))
