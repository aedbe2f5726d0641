-- ===== src/Runtime.antt =====
-- A turn of a call: apps/api/src/voiceagent_api/runtime.py, its adapters, and `respond_to_call` of
-- store.py.
mod Outside
mod Stt
mod Llm
mod Tts
mod Respond
mod Methods
pub mod Kept
pub mod Runs
pub use Outside.{Reply, failure, reply, Generated, Services}
unfoldable pub use Outside.{openai_enabled}
pub use Stt.{TranscriptionRequest, TranscriptionResult}
unfoldable pub use Stt.{stub_transcribe, heard, openai_transcribe, transcribe}
pub use Llm.{Message, TurnGenerateRequest, TurnGenerateResult}
unfoldable pub use Llm.{
  infer_tool_calls, stub_text, stub_generate_turn, history_lines, build_llm_input, generated,
  openai_generate_turn, generate_turn,
}
pub use Tts.{SynthesisRequest, SynthesisResult}
unfoldable pub use Tts.{stub_synthesize, spoken, openai_synthesize, synthesize}
pub use Respond.{RuntimeTurnRequest, RuntimeTurnResult}
unfoldable pub use Respond.{turn_result, respond}
pub use Methods.{CallRespondRequest, is_lookup}
unfoldable pub use Methods.{
  validate_runtime_input, look_up, executed, execute_tool_call, execute_all,
  execute_runtime_tool_calls, history_of, recent_turns, with_slots, answered_turn, turn_answered,
  answer_turn, respond_to_call,
}
