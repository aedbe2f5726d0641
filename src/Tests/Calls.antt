-- ===== src/Tests/Calls.antt =====
-- Instances of the theorems on calls.
use real_voice_agent_free.Prelude.{◌≡◌, refl, false, none, some, [], ◌∷◌, find}
use real_voice_agent_free.Json.{null}
use real_voice_agent_free.Errors.{ok}
use real_voice_agent_free.Env.{Env}
use real_voice_agent_free.Models.{CallModel, CallSummaryModel, CallStatus, CallOutcome}
use real_voice_agent_free.Db.{Db}
use real_voice_agent_free.Serialize.{serialize_call, serialize_call_summary}
use real_voice_agent_free.Session.{
  World, ◌>>=◌, new_id, select, scalar, get, require, insert, save, commit, session,
}
use real_voice_agent_free.Webhooks.{emit_event, listens, deliver_all}
use real_voice_agent_free.Calls.{
  CallTurnCreateRequest, CallCompleteRequest, get_call_or_404, get_call, get_call_summary,
  complete_call, end_call, announce, ended_call,
}
use real_voice_agent_free.Calls.Outcome.{
  complete_call-read_back, is_call, is_summary, IsEnded, IsSummary,
}
use real_voice_agent_free.Tests.World.{env_with, refused, db, world_of}

abbrev env : Env
env = env_with refused

abbrev pub call : CallModel
call = record {
  id = "call_1";
  organization_id = "org_default";
  agent_id = "agt_1";
  phone_number_id = none;
  channel = "voice";
  direction = "inbound";
  from_number = "+100000";
  to_number = "+200000";
  status = CallStatus.active;
  outcome = none;
  duration_ms = none;
  recording_available = false;
  started_at = 3;
  ended_at = none;
  created_at = 3;
  updated_at = 3;
}

abbrev pub with_call : Db
with_call = record db { calls = call ∷ []; webhook_subscriptions = [] }

abbrev start : World
start = world_of with_call

abbrev pub said : CallTurnCreateRequest
said = record {
  user_text = "hello";
  assistant_text = "hi";
  latency_ms = 12;
  provider_breakdown = null;
  tool_calls = [];
}

abbrev pub escalation : CallCompleteRequest
escalation = record {
  outcome = CallOutcome.escalated;
  duration_ms = 900;
  recording_available = false;
  summary_text = "to a person";
  structured_summary = null;
  failure_category = none;
  failure_code = none;
  failure_message = none;
  escalation_reason = some "asked";
  escalation_target = none;
  escalation_summary = none;
}

complete-ok :
    (complete_call env "call_1" escalation "org_default" "t3" 7 start).0
    ≡ ok (serialize_call (ended_call call escalation 7))
unfolding complete_call end_call get_call_or_404 announce emit_event listens deliver_all session
    new_id select scalar get require insert save commit ◌>>=◌
complete-ok = refl

complete_call-read_back_example :
    let w' = (complete_call env "call_1" escalation "org_default" "t3" 7 start).1 in
    (found : CallModel) × (c : CallModel) × (s : CallSummaryModel) × (find
        (is_call "call_1" "org_default")
        start.disk.calls
      ≡ some found)
    × IsEnded "call_1" "org_default" escalation 7 found c
    × IsSummary "call_1" "org_default" escalation 7
        (find (is_summary "call_1") start.disk.call_summaries)
        s
    × (serialize_call (ended_call call escalation 7) ≡ serialize_call c)
    × ((get_call "call_1" "org_default" w').0 ≡ ok (serialize_call (ended_call call escalation 7)))
    × ((get_call_summary "call_1" "org_default" w').0 ≡ ok (serialize_call_summary s))
complete_call-read_back_example =
    complete_call-read_back "call_1" "org_default" escalation 7 env "t3" start
      (serialize_call (ended_call call escalation 7)) complete-ok
