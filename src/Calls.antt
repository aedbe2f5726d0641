-- ===== src/Calls.antt =====
-- Calls: store.py of apps/api/src/voiceagent_api, the methods on calls, turns and summaries.
mod Defs
mod Methods
pub mod Turns
pub mod Runs
pub mod Outcome
pub use Defs.{CallCreateRequest, CallTurnCreateRequest, CallCompleteRequest, runtime_event}
unfoldable pub use Defs.{
  get_agent_or_404, get_call_or_404, new_call, call_started, new_turn, turn_completed, summary_of,
  final_status, ended_call, call_failed, call_escalated, call_ended,
}
pub use Methods.{put_summary}
unfoldable pub use Methods.{
  list_calls, list_calls_paginated, get_call, turns_of, list_call_turns, list_call_turns_paginated,
  transcript_lines, get_call_transcript, get_call_summary, start_call, create_call, add_turn,
  add_call_turn, announce, end_call, complete_call,
}
