-- ===== src/Extraction/Providers.antt =====
-- The providers behind the interfaces: app/services/extraction/anthropic.py, gemini.py and factory.py,
-- and app/services/stt. What a vendor's client answers is an argument.
use voice_spend.Prelude.{
  ℕ, String, Option, none, some, List, [], ◌∷◌, Result, ok, err, str_eq, if◌then◌else◌,
}
use Prim.Native.String.{◌++◌ as append}
use voice_spend.Settings.{Settings, anthropic, gemini, groq, deepgram, or_text, rsplit_slash}
use voice_spend.Extraction.{
  RawExtraction, ExtractionContext, ExtractionResult, failed_result, LlmExtractor,
}

-- RawExtraction.model_validate on a value of a vendor's type: the extraction, or the text of the
-- error. It refuses a negative amount and a confidence outside of [0, 1].
abbrev pub Validator : Type 0 → Type 0
Validator Value = Value → Result String RawExtraction

-- The blocks of an Anthropic message: a call of a tool with its input, or another block.
pub data ContentBlock (Value : Type 0) : Type 0 where
  tool_use : Value → ContentBlock Value
  other_block : ContentBlock Value

pub record AnthropicMessage (Value : Type 0) : Type 0 where
  pub content : List (ContentBlock Value)
  pub input_tokens : ℕ
  pub output_tokens : ℕ

-- next((block for block in content if block.type == "tool_use"), None)
unfoldable pub first_tool_use : {Value : Type 0} → List (ContentBlock Value) → Option Value
first_tool_use [] = none
first_tool_use (tool_use v ∷ blocks) = some v
first_tool_use (other_block ∷ blocks) = first_tool_use blocks

-- The rest of AnthropicExtractor.extract, from the answer of the client.
unfoldable pub anthropic_result :
    {Value : Type 0} → Validator Value → Result String (AnthropicMessage Value) → ExtractionResult
anthropic_result validate (err exc) = failed_result (append "anthropic request failed: " exc)
anthropic_result validate (ok response) = elim (first_tool_use response.content) [
  | none ↦ failed_result "anthropic response had no tool_use block"
  | some input ↦ elim (validate input) [
    | err exc ↦ failed_result (append "malformed extraction output: " exc)
    | ok raw ↦ record {
      raw = some raw;
      error = none;
      prompt_tokens = some response.input_tokens;
      completion_tokens = some response.output_tokens;
    }
  ]
]

-- `messages.create` is called with the model, the system prompt and the text.
unfoldable pub anthropic_extractor :
    {Value : Type 0}
    → Settings
    → Validator Value
    → (ExtractionContext → String)
    → (String → String → String → Result String (AnthropicMessage Value))
    → LlmExtractor
anthropic_extractor settings validate build_system_prompt create = record {
  provider_name = "anthropic";
  model_name = settings.llm_model;
  extract = λ text ctx.
      ok (anthropic_result validate (create settings.llm_model (build_system_prompt ctx) text));
}

-- A Gemini response: an extraction where the client has parsed one, its text, and the token counts.
pub record GeminiResponse : Type 0 where
  pub parsed : Option RawExtraction
  pub text : Option String
  pub usage : Option (Option ℕ × Option ℕ)

abbrev prompt_count : Option (Option ℕ × Option ℕ) → Option ℕ
prompt_count none = none
prompt_count (some (p, c)) = p

abbrev candidates_count : Option (Option ℕ × Option ℕ) → Option ℕ
candidates_count none = none
candidates_count (some (p, c)) = c

abbrev gemini_usage : GeminiResponse → RawExtraction → ExtractionResult
gemini_usage response raw = record {
  raw = some raw;
  error = none;
  prompt_tokens = prompt_count response.usage;
  completion_tokens = candidates_count response.usage;
}

-- `if not response.text`, then RawExtraction.model_validate_json
unfoldable pub gemini_text : Validator String → GeminiResponse → Option String → ExtractionResult
gemini_text validate response none = failed_result "gemini returned an empty response"
gemini_text validate response (some text) =
    if str_eq text ""
    then failed_result "gemini returned an empty response"
    else elim (validate text) [
      | err exc ↦ failed_result (append "malformed extraction output: " exc)
      | ok raw ↦ gemini_usage response raw
    ]

unfoldable pub gemini_result : Validator String → Result String GeminiResponse → ExtractionResult
gemini_result validate (err exc) = failed_result (append "gemini request failed: " exc)
gemini_result validate (ok response) = elim response.parsed [
  | some raw ↦ gemini_usage response raw
  | none ↦ gemini_text validate response response.text
]

unfoldable pub gemini_extractor :
    Settings
    → Validator String
    → (ExtractionContext → String)
    → (String → String → String → Result String GeminiResponse)
    → LlmExtractor
gemini_extractor settings validate build_system_prompt generate = record {
  provider_name = "gemini";
  model_name = settings.llm_model;
  extract = λ text ctx.
      ok (gemini_result validate (generate settings.llm_model (build_system_prompt ctx) text));
}

-- get_extractor, over the two that it chooses from
unfoldable pub get_extractor : {A : Type 0} → Settings → A → A → A
get_extractor settings on_anthropic on_gemini = elim settings.llm_provider [
  | anthropic ↦ on_anthropic
  | gemini ↦ on_gemini
]

pub record Transcript : Type 0 where
  pub text : String
  pub language : Option String

-- `transcribe` takes the bytes of the audio and its MIME type.
pub record SttProvider : Type 0 where
  pub provider_name : String
  pub model_name : String
  pub transcribe : List ℕ → String → Result String Transcript

-- mime_type.split("/")[-1] or "m4a"
unfoldable pub audio_extension : String → String
audio_extension mime_type = elim (rsplit_slash mime_type) [
  | none ↦ or_text mime_type "m4a"
  | some (before, after) ↦ or_text after "m4a"
]

-- `create` is called with the model, the name of the file, the audio and the MIME type.
unfoldable pub groq_stt :
    Settings → (String → String → List ℕ → String → Result String String) → SttProvider
groq_stt settings create = record {
  provider_name = "groq";
  model_name = settings.stt_model;
  transcribe = λ audio mime_type.
      elim (create settings.stt_model (append "audio." (audio_extension mime_type)) audio
        mime_type) [ err exc ↦ err exc | ok text ↦ ok (record { text = text; language = none }) ];
}

-- The channels of a Deepgram response, each the transcripts of its alternatives; no results at all
-- read as no channels.
unfoldable pub deepgram_text : List (List String) → String
deepgram_text [] = ""
deepgram_text ([] ∷ channels) = ""
deepgram_text ((transcript ∷ alternatives) ∷ channels) = transcript

unfoldable pub deepgram_stt :
    Settings → (List ℕ → String → Result String (List (List String))) → SttProvider
deepgram_stt settings transcribe_file = record {
  provider_name = "deepgram";
  model_name = settings.stt_model;
  transcribe = λ audio mime_type. elim (transcribe_file audio settings.stt_model) [
    | err exc ↦ err exc
    | ok channels ↦ ok (record { text = deepgram_text channels; language = none })
  ];
}

-- get_stt_provider, over the two that it chooses from
unfoldable pub get_stt_provider : {A : Type 0} → Settings → A → A → A
get_stt_provider settings on_groq on_deepgram = elim settings.stt_provider [
  | groq ↦ on_groq
  | deepgram ↦ on_deepgram
]
