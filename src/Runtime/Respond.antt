-- ===== src/Runtime/Respond.antt =====
-- apps/api/src/voiceagent_api/runtime.py: the transcription, the text and the speech of a turn.
use real_voice_agent_free.Prelude.{ℕ, ◌+◌, String, Option, some, List, [], ◌∷◌, length, text_or}
use real_voice_agent_free.Json.{Json, num, str, dict}
use real_voice_agent_free.Env.{Env}
use real_voice_agent_free.Session.{M, pure, ◌>>=◌}
use real_voice_agent_free.Runtime.Outside.{Services}
use real_voice_agent_free.Runtime.Stt.{TranscriptionResult, transcribe}
use real_voice_agent_free.Runtime.Llm.{Message, TurnGenerateResult, generate_turn}
use real_voice_agent_free.Runtime.Tts.{SynthesisResult, synthesize}

-- `conversation_history or []`: an absent history is an empty one.
pub record RuntimeTurnRequest : Type 0 where
  pub call_id : String
  pub agent_id : String
  pub turn_index : ℕ
  pub trace_id : String
  pub input_text : Option String
  pub audio_ref : Option String
  pub voice_id : Option String
  pub conversation_history : List Message

pub record RuntimeTurnResult : Type 0 where
  pub user_text : String
  pub assistant_text : String
  pub latency_ms : ℕ
  pub provider_breakdown : Json
  pub tool_calls : List Json
  pub response_audio_ref : String
  pub finish_reason : String

unfoldable pub turn_result :
    ℕ → TranscriptionResult → TurnGenerateResult → SynthesisResult → RuntimeTurnResult
turn_result history_messages transcription decision synthesis = record {
  user_text = transcription.text;
  assistant_text = decision.assistant_text;
  latency_ms = transcription.latency_ms + decision.latency_ms + synthesis.latency_ms;
  provider_breakdown = dict (
      ("stt_ms", num transcription.latency_ms)
      ∷ ("llm_ms", num decision.latency_ms)
      ∷ ("tts_ms", num synthesis.latency_ms)
      ∷ ("stt_provider", str transcription.provider)
      ∷ ("llm_provider", str decision.provider)
      ∷ ("tts_provider", str synthesis.provider)
      ∷ ("stt_confidence", transcription.confidence)
      ∷ ("tokens_in", num decision.tokens_in)
      ∷ ("tokens_out", num decision.tokens_out)
      ∷ ("tts_audio_ref", str synthesis.audio_ref)
      ∷ ("history_messages", num history_messages)
      ∷ []);
  tool_calls = decision.tool_calls;
  response_audio_ref = synthesis.audio_ref;
  finish_reason = decision.finish_reason;
}

unfoldable pub respond : Env → Services → RuntimeTurnRequest → M RuntimeTurnResult
respond env s request = do
  transcription ← transcribe env s (record {
    call_id = request.call_id;
    trace_id = request.trace_id;
    input_text = request.input_text;
    audio_ref = request.audio_ref;
  })
  decision ← generate_turn env s (record {
    call_id = request.call_id;
    agent_id = request.agent_id;
    turn_index = request.turn_index;
    user_text = transcription.text;
    trace_id = request.trace_id;
    conversation_history = request.conversation_history;
  })
  synthesis ← synthesize env s (record {
    call_id = request.call_id;
    trace_id = request.trace_id;
    text = decision.assistant_text;
    voice_id = some (text_or request.voice_id env.settings.runtime_default_voice_id);
  })
  pure (turn_result (length request.conversation_history) transcription decision synthesis)
