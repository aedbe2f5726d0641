-- ===== src/Runtime/Outside.antt =====
-- What a turn takes from outside: OpenAI (apps/api/src/voiceagent_api/adapters/openai_client.py), the texts
-- that `str.lower`, `str.strip`, `str.title` and `str.split` make, and the files of the server.
use real_voice_agent_free.Prelude.{ℕ, String, ◌==◌, Bool, true, false, Option, if◌then◌else◌}
use real_voice_agent_free.Errors.{upstream_service_error}
use real_voice_agent_free.Env.{Env}
use real_voice_agent_free.Session.{M, pure, raise}

-- How a call of OpenAI ends, and the milliseconds that it took.
pub data Reply (A : Type 0) : Type 0 where
  failure : String → Reply A
  reply : A → ℕ → Reply A

-- The text and the tokens of a response.
pub record Generated : Type 0 where
  pub output_text : String
  pub input_tokens : ℕ
  pub output_tokens : ℕ

pub record Services : Type 0 where
  pub lower : String → String
  pub strip : String → String
  pub title : String → String
  pub word_count : String → ℕ
  -- the path of an audio file that exists
  pub audio_file : String → Option String
  -- the path of a file in the directory of the runtime's audio
  pub audio_path : String → String
  pub transcriptions : String → Reply String
  pub responses : String → Reply Generated
  pub speech : String → String → String → Reply Unit

abbrev pub non_empty : String → String → M Unit
non_empty text message = if text == "" then raise (upstream_service_error message 502) else pure tt

unfoldable pub openai_enabled : Env → Bool
openai_enabled env = if env.settings.openai_api_key == "" then false else true
