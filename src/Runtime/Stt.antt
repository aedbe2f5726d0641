-- ===== src/Runtime/Stt.antt =====
-- Speech to text: apps/api/src/voiceagent_api/adapters/stt.py.
use real_voice_agent_free.Prelude.{
  ℕ, max, String, ◌==◌, Bool, true, Option, [], ◌∷◌, concat, or_else, text_or, if◌then◌else◌,
}
use real_voice_agent_free.Json.{Json, float}
use real_voice_agent_free.Errors.{not_found, upstream_service_error}
use real_voice_agent_free.Env.{Env}
use real_voice_agent_free.Session.{M, pure, raise, ◌>>=◌, ◌>>◌, require}
use real_voice_agent_free.Runtime.Outside.{
  Reply, failure, reply, Services, non_empty, openai_enabled,
}

pub record TranscriptionRequest : Type 0 where
  pub call_id : String
  pub trace_id : String
  pub input_text : Option String
  pub audio_ref : Option String

pub record TranscriptionResult : Type 0 where
  pub provider : String
  pub text : String
  pub confidence : Json
  pub is_final : Bool
  pub latency_ms : ℕ

-- A text that was typed is its own transcript.
abbrev typed : String → ℕ → String → TranscriptionResult
typed provider latency_ms text = record {
  provider = provider;
  text = text;
  confidence = float "1.0";
  is_final = true;
  latency_ms = latency_ms;
}

unfoldable pub stub_transcribe : TranscriptionRequest → M TranscriptionResult
stub_transcribe request =
    if text_or request.input_text "" == ""
    then pure (record {
      provider = "stub-stt";
      text = concat ("Transcript from " ∷ or_else request.audio_ref "None" ∷ []);
      confidence = float "0.92";
      is_final = true;
      latency_ms = 120;
    })
    else pure (typed "stub-stt" 5 (text_or request.input_text ""))

unfoldable pub heard : Env → Services → Reply String → M TranscriptionResult
heard env s (failure exc) =
    raise (upstream_service_error (concat ("OpenAI transcription failed: " ∷ exc ∷ [])) 502)
heard env s (reply text elapsed) = do
  non_empty (s.strip text) "OpenAI transcription returned empty text"
  pure (record {
    provider = concat ("openai:" ∷ env.settings.openai_stt_model ∷ []);
    text = s.strip text;
    confidence = float "0.0";
    is_final = true;
    latency_ms = max 1 elapsed;
  })

unfoldable pub openai_transcribe : Env → Services → TranscriptionRequest → M TranscriptionResult
openai_transcribe env s request =
    if text_or request.input_text "" == ""
    then (do
      let audio_ref = text_or request.audio_ref ""
      non_empty audio_ref "Audio transcription requires audio_ref"
      path ←
          require (s.audio_file audio_ref)
            (not_found (concat ("Audio file not found: " ∷ audio_ref ∷ [])))
      heard env s (s.transcriptions path))
    else pure (typed "text-input" 1 (text_or request.input_text ""))

-- get_stt_adapter
unfoldable pub transcribe : Env → Services → TranscriptionRequest → M TranscriptionResult
transcribe env s request =
    if openai_enabled env then openai_transcribe env s request else stub_transcribe request
