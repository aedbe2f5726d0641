-- ===== src/Calls/Defs.antt =====
-- Calls (apps/api/src/voiceagent_api/store.py): the lookups, the requests of schemas.py, and the
-- rows and events that the methods of `AgentStore` build from them.
use real_voice_agent_free.Prelude.{
  ℕ, String, ◌==◌, Bool, false, ◌&&◌, Option, none, some, List, [], ◌∷◌, DateTime, text_or,
}
use real_voice_agent_free.Json.{Json, bool, num, str, arr, items, dict}
use real_voice_agent_free.Errors.{not_found}
use real_voice_agent_free.Models.{
  AgentModel, CallStatus, CallOutcome, CallModel, CallTurnModel, CallSummaryModel,
}
use real_voice_agent_free.Db.{agents, calls}
use real_voice_agent_free.Serialize.Values.{opt_str, opt_num, opt_outcome}
use real_voice_agent_free.Session.{M, ◌>>=◌, require, scalar}
use real_voice_agent_free.Webhooks.{Emission}

unfoldable pub get_agent_or_404 : String → String → M AgentModel
get_agent_or_404 agent_id organization_id = do
  agent ← scalar agents (λ a. a.id == agent_id && a.organization_id == organization_id)
  require agent (not_found "Agent not found")

unfoldable pub get_call_or_404 : String → String → M CallModel
get_call_or_404 call_id organization_id = do
  call ← scalar calls (λ c. c.id == call_id && c.organization_id == organization_id)
  require call (not_found "Call not found")

pub record CallCreateRequest : Type 0 where
  pub agent_id : String
  pub phone_number_id : Option String
  pub channel : String
  pub direction : String
  pub from_number : String
  pub to_number : String

pub record CallTurnCreateRequest : Type 0 where
  pub user_text : String
  pub assistant_text : String
  pub latency_ms : ℕ
  pub provider_breakdown : Json
  pub tool_calls : List Json

pub record CallCompleteRequest : Type 0 where
  pub outcome : CallOutcome
  pub duration_ms : ℕ
  pub recording_available : Bool
  pub summary_text : String
  pub structured_summary : Json
  pub failure_category : Option String
  pub failure_code : Option String
  pub failure_message : Option String
  pub escalation_reason : Option String
  pub escalation_target : Option String
  pub escalation_summary : Option String

-- An event of the runtime, for all hooks.
abbrev pub runtime_event : String → String → String → DateTime → Json → Emission
runtime_event organization_id event_type trace_id now payload = record {
  organization_id = organization_id;
  event_type = event_type;
  trace_id = trace_id;
  occurred_at = now;
  source = "runtime";
  payload = payload;
  only_webhook_id = none;
}

unfoldable pub new_call : String → CallCreateRequest → String → DateTime → CallModel
new_call id payload organization_id now = record {
  id = id;
  organization_id = organization_id;
  agent_id = payload.agent_id;
  phone_number_id = payload.phone_number_id;
  channel = payload.channel;
  direction = payload.direction;
  from_number = payload.from_number;
  to_number = payload.to_number;
  status = CallStatus.active;
  outcome = none;
  duration_ms = none;
  recording_available = false;
  started_at = now;
  ended_at = none;
  created_at = now;
  updated_at = now;
}

unfoldable pub call_started : CallModel → Json
call_started call = dict (
    ("call_id", str call.id)
    ∷ ("agent_id", str call.agent_id)
    ∷ ("phone_number_id", opt_str call.phone_number_id)
    ∷ ("channel", str call.channel)
    ∷ ("direction", str call.direction)
    ∷ ("from", str call.from_number)
    ∷ ("to", str call.to_number)
    ∷ [])

unfoldable pub new_turn : String → String → ℕ → CallTurnCreateRequest → DateTime → CallTurnModel
new_turn id call_id turn_index payload now = record {
  id = id;
  call_id = call_id;
  turn_index = turn_index;
  user_text = payload.user_text;
  assistant_text = payload.assistant_text;
  latency_ms = payload.latency_ms;
  provider_breakdown = payload.provider_breakdown;
  tool_calls = payload.tool_calls;
  response_audio_ref = none;
  finish_reason = none;
  created_at = now;
}

unfoldable pub turn_completed : CallTurnModel → Json
turn_completed turn = dict (
    ("call_id", str turn.call_id)
    ∷ ("turn_index", num turn.turn_index)
    ∷ ("user_text", str turn.user_text)
    ∷ ("assistant_text", str turn.assistant_text)
    ∷ ("latency_ms", num turn.latency_ms)
    ∷ ("provider_breakdown", turn.provider_breakdown)
    ∷ ("tool_calls", arr (items turn.tool_calls))
    ∷ [])

-- The summary of a completed call: a new one, or the old one with new texts.
unfoldable pub summary_of :
    String → CallCompleteRequest → DateTime → Option CallSummaryModel → CallSummaryModel
summary_of call_id payload now none = record {
  call_id = call_id;
  summary_text = payload.summary_text;
  structured_summary = payload.structured_summary;
  created_at = now;
  updated_at = now;
}
summary_of call_id payload now (some summary) = record summary {
  summary_text = payload.summary_text;
  structured_summary = payload.structured_summary;
  updated_at = now;
}

unfoldable pub final_status : CallOutcome → CallStatus
final_status CallOutcome.failed = CallStatus.failed
final_status CallOutcome.escalated = CallStatus.escalated
final_status _ = CallStatus.completed

unfoldable pub ended_call : CallModel → CallCompleteRequest → DateTime → CallModel
ended_call call payload now = record call {
  status = final_status payload.outcome;
  outcome = some payload.outcome;
  duration_ms = some payload.duration_ms;
  recording_available = payload.recording_available;
  ended_at = some now;
  updated_at = now;
}

unfoldable pub call_failed : CallModel → CallCompleteRequest → Json
call_failed call payload = dict (
    ("call_id", str call.id)
    ∷ ("category", str (text_or payload.failure_category "internal"))
    ∷ ("code", str (text_or payload.failure_code "unknown"))
    ∷ ("message", str (text_or payload.failure_message "Call failed"))
    ∷ [])

unfoldable pub call_escalated : CallModel → CallCompleteRequest → Json
call_escalated call payload = dict (
    ("call_id", str call.id)
    ∷ ("reason", str (text_or payload.escalation_reason "unknown"))
    ∷ ("target", str (text_or payload.escalation_target "operator_queue"))
    ∷ ("summary", opt_str payload.escalation_summary)
    ∷ [])

unfoldable pub call_ended : CallModel → Json
call_ended call = dict (
    ("call_id", str call.id)
    ∷ ("duration_ms", opt_num call.duration_ms)
    ∷ ("outcome", opt_outcome call.outcome)
    ∷ ("cost", dict (("currency", str "USD") ∷ ("amount", str "0.00") ∷ []))
    ∷ ("recording_available", bool call.recording_available)
    ∷ [])
