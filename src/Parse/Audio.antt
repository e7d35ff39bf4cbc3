-- ===== src/Parse/Audio.antt =====
-- A transcription as a parse of what speech to text has heard: app/api/v1/parse.py.
use Prim.Native.String.{count}
use voice_spend.Prelude.{ℕ, ◌≤◌, ◌≡◌, String, Option, List, ◌∷◌, ok, arith, length}
use voice_spend.Models.{User, Db}
use voice_spend.Http.{Env, DateTime, Python, parse_latency}
use voice_spend.Settings.{Settings}
use voice_spend.Metering.Signal.Quota.{over_quota_iff}
use voice_spend.Extraction.{LlmExtractor}
use voice_spend.Extraction.Providers.{Transcript, SttProvider}
use voice_spend.Parse.{
  Langfuse, stt_call, parse_expense, transcribed, with_transcript, mime_type, transcribe_expense,
}
use voice_spend.Parse.Gate.{MayCall}

module _ (py : Python) where
  -- For a user who may make paid calls, a transcription that speech to text hears as a text within
  -- the limit is the parse of that text: the same result, with the transcript, after the same
  -- language-model calls and metrics, behind those of the transcription itself.
  pub transcribe_expense-parse_expense :
      (settings : Settings) (env : Env) (langfuse : Option Langfuse) (now : DateTime) (db : Db)
      (user : User) (extractor : LlmExtractor) (stt : SttProvider) (audio : List ℕ)
      (content_type : Option String) (reference_time : Option DateTime) (t : Transcript)
      → length audio ≤ settings.max_audio_bytes
      → count t.text ≤ settings.parse_max_text_length
      → MayCall settings env db user
      → stt.transcribe audio (mime_type py content_type) ≡ ok t
      → let heard =
          transcribe_expense py settings env langfuse now db user extractor stt audio content_type
            reference_time in
        let read =
          parse_expense py settings env langfuse now db user extractor t.text reference_time in
        (heard.result ≡ with_transcript py t.text read.result)
        × (heard.calls ≡ stt_call audio ∷ read.calls)
        × (heard.metrics ≡ parse_latency stt.provider_name "stt" ∷ read.metrics)
  unfolding transcribe_expense parse_expense transcribed
  transcribe_expense-parse_expense settings env langfuse now db user extractor stt audio
        content_type reference_time t small short may heard =
      let quota = over_quota_iff settings.free_monthly_log_quota env db user in
      (ground (arith, quota), ground (arith, quota), ground (arith, quota))
