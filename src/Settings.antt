-- ===== src/Settings.antt =====
-- app/core/config.py: the settings, and the values that it derives from them. A setting of type
-- float is the decimal that it is written as.
use Prim.Native.Char.{Char, code}
use Prim.Native.String.{◌++◌ as append}
use voice_spend.Prelude.{
  ℕ, ◌*◌, String, Bool, true, false, Option, none, some, List, [], ◌∷◌, ◌==◌, str_eq, if◌then◌else◌,
}
use voice_spend.Prelude.Int.{pos}
use voice_spend.Decimal.{Decimal, finite}
use voice_spend.Http.{Python}

pub data Environment : Type 0 where
  local_env staging production : Environment

pub data LlmProvider : Type 0 where
  anthropic gemini : LlmProvider

pub data SttChoice : Type 0 where
  groq deepgram : SttChoice

pub data FxChoice : Type 0 where
  exchangerate_host : FxChoice

pub record Settings : Type 0 where
  pub env : Environment
  pub log_level : String
  pub database_url : String
  pub redis_url : String
  pub supabase_url : String
  pub supabase_jwt_secret : String
  pub supabase_jwt_jwks_url : String
  pub supabase_jwt_audience : String
  pub supabase_jwt_issuer : String
  pub supabase_service_key : String
  pub supabase_storage_bucket : String
  pub cors_allow_origins : String
  pub llm_provider : LlmProvider
  pub llm_model : String
  pub stt_provider : SttChoice
  pub stt_model : String
  pub anthropic_api_key : String
  pub gemini_api_key : String
  pub groq_api_key : String
  pub deepgram_api_key : String
  pub parse_timeout_s : Decimal
  pub parse_max_text_length : ℕ
  pub max_audio_bytes : ℕ
  pub confidence_ok_threshold : Decimal
  pub confidence_low_threshold : Decimal
  pub langfuse_public_key : String
  pub langfuse_secret_key : String
  pub langfuse_host : String
  pub langfuse_capture_transcript : Bool
  pub free_monthly_log_quota : ℕ
  pub revenuecat_webhook_auth : String
  pub fx_provider : FxChoice
  pub fx_provider_api_key : String
  pub fx_ingest_hour_utc : ℕ
  pub fx_recompute_batch : ℕ
  pub celery_broker_url : String
  pub parse_rate_limit : ℕ
  pub parse_rate_limit_daily : ℕ
  pub rate_limit_fail_open : Bool
  pub metrics_token : String
  pub log_json : Bool
  pub log_capture_transcript : Bool

-- The values where the environment sets only the two that have no default.
abbrev pub default_settings : String → String → Settings
default_settings database_url supabase_url = record {
  env = local_env;
  log_level = "INFO";
  database_url = database_url;
  redis_url = "redis://localhost:6379/0";
  supabase_url = supabase_url;
  supabase_jwt_secret = "";
  supabase_jwt_jwks_url = "";
  supabase_jwt_audience = "authenticated";
  supabase_jwt_issuer = "";
  supabase_service_key = "";
  supabase_storage_bucket = "voicespend";
  cors_allow_origins = "*";
  llm_provider = anthropic;
  llm_model = "";
  stt_provider = groq;
  stt_model = "";
  anthropic_api_key = "";
  gemini_api_key = "";
  groq_api_key = "";
  deepgram_api_key = "";
  parse_timeout_s = finite (pos 30) 1;
  parse_max_text_length = 500;
  max_audio_bytes = 5 * 1024 * 1024;
  confidence_ok_threshold = finite (pos 75) 2;
  confidence_low_threshold = finite (pos 4) 1;
  langfuse_public_key = "";
  langfuse_secret_key = "";
  langfuse_host = "https://cloud.langfuse.com";
  langfuse_capture_transcript = true;
  free_monthly_log_quota = 20;
  revenuecat_webhook_auth = "";
  fx_provider = exchangerate_host;
  fx_provider_api_key = "";
  fx_ingest_hour_utc = 6;
  fx_recompute_batch = 500;
  celery_broker_url = "";
  parse_rate_limit = 20;
  parse_rate_limit_daily = 300;
  rate_limit_fail_open = true;
  metrics_token = "";
  log_json = true;
  log_capture_transcript = false;
}

-- `x or y`, on texts
abbrev pub or_text : String → String → String
or_text x y = if str_eq x "" then y else x

abbrev is_char : Char → ℕ → Bool
is_char c n = code c == n

-- text.rstrip("/")
unfoldable pub rstrip_slash : String → String
rstrip_slash String.[] = ""
rstrip_slash (String.◌∷◌ c s) =
    let rest = rstrip_slash s in
    if str_eq rest "" then if is_char c b'/' then "" else String.◌∷◌ c "" else String.◌∷◌ c rest

-- text.rsplit("/", 1), as what stands before the last slash and what stands after it
unfoldable pub rsplit_slash : String → Option (String × String)
rsplit_slash String.[] = none
rsplit_slash (String.◌∷◌ c s) = elim (rsplit_slash s) [
  | some (before, after) ↦ some (String.◌∷◌ c before, after)
  | none ↦ if is_char c b'/' then some ("", s) else none
]

-- text.split(","): never empty
unfoldable pub split_comma : String → String × List String
split_comma String.[] = ("", [])
split_comma (String.◌∷◌ c s) =
    let (first, rest) = split_comma s in
    if is_char c b',' then ("", first ∷ rest) else (String.◌∷◌ c first, rest)

-- [part.strip() for part in parts if part.strip()]
unfoldable pub stripped : Python → List String → List String
stripped py [] = []
stripped py (part ∷ parts) =
    let rest = stripped py parts in if str_eq (py.strip part) "" then rest else py.strip part ∷ rest

unfoldable pub cors_origins : Python → Settings → List String
cors_origins py settings =
    if str_eq (py.strip settings.cors_allow_origins) "*"
    then "*" ∷ []
    else let (first, rest) = split_comma settings.cors_allow_origins in stripped py (first ∷ rest)

unfoldable pub supabase_issuer : Settings → String
supabase_issuer settings =
    or_text settings.supabase_jwt_issuer (append (rstrip_slash settings.supabase_url) "/auth/v1")

-- rsplit("/", 1)[0], the whole text where it has no slash
abbrev pub before_last_slash : String → String
before_last_slash s = elim (rsplit_slash s) [ none ↦ s | some (before, after) ↦ before ]

unfoldable pub broker_url : Settings → String
broker_url settings =
    or_text settings.celery_broker_url (append (before_last_slash settings.redis_url) "/1")
