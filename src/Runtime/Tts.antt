-- ===== src/Runtime/Tts.antt =====
-- Text to speech: apps/api/src/voiceagent_api/adapters/tts.py.
use real_voice_agent_free.Prelude.{
  ℕ, ◌*◌, max, String, Option, [], ◌∷◌, concat, text_or, text_length, if◌then◌else◌,
}
use real_voice_agent_free.Errors.{upstream_service_error}
use real_voice_agent_free.Env.{Env}
use real_voice_agent_free.Session.{M, pure, raise, ◌>>=◌, new_id}
use real_voice_agent_free.Runtime.Outside.{Reply, failure, reply, Services, openai_enabled}

pub record SynthesisRequest : Type 0 where
  pub call_id : String
  pub trace_id : String
  pub text : String
  pub voice_id : Option String

pub record SynthesisResult : Type 0 where
  pub provider : String
  pub audio_ref : String
  pub duration_ms : ℕ
  pub latency_ms : ℕ

abbrev audio_name : Env → SynthesisRequest → String
audio_name env request = concat (
    "tts_"
    ∷ request.call_id
    ∷ "_"
    ∷ text_or request.voice_id env.settings.runtime_default_voice_id
    ∷ "_"
    ∷ [])

abbrev duration : SynthesisRequest → ℕ
duration request = max 500 (text_length request.text * 45)

unfoldable pub stub_synthesize : Env → SynthesisRequest → M SynthesisResult
stub_synthesize env request = do
  audio_ref ← new_id env (audio_name env request) 8
  pure (record {
    provider = "stub-tts";
    audio_ref = audio_ref;
    duration_ms = duration request;
    latency_ms = 90;
  })

unfoldable pub spoken : Env → SynthesisRequest → String → Reply Unit → M SynthesisResult
spoken env request path (failure exc) =
    raise (upstream_service_error (concat ("OpenAI speech synthesis failed: " ∷ exc ∷ [])) 502)
spoken env request path (reply done elapsed) = pure (record {
  provider = concat ("openai:" ∷ env.settings.openai_tts_model ∷ []);
  audio_ref = path;
  duration_ms = duration request;
  latency_ms = max 1 elapsed;
})

unfoldable pub openai_synthesize : Env → Services → SynthesisRequest → M SynthesisResult
openai_synthesize env s request = do
  name ← new_id env (audio_name env request) 8
  let path = s.audio_path (concat (name ∷ "." ∷ env.settings.openai_tts_response_format ∷ []))
  spoken env request path
      (s.speech (text_or request.voice_id env.settings.runtime_default_voice_id) request.text path)

-- get_tts_adapter
unfoldable pub synthesize : Env → Services → SynthesisRequest → M SynthesisResult
synthesize env s request =
    if openai_enabled env then openai_synthesize env s request else stub_synthesize env request
