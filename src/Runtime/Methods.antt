-- ===== src/Runtime/Methods.antt =====
-- `_execute_runtime_tool_calls` and `respond_to_call` of store.py.
use real_voice_agent_free.Prelude.{
  ℕ, String, ◌==◌, Bool, false, ◌&&◌, not, Option, none, some, List, [], ◌∷◌, ◌++◌, map, take,
  concat, text_or, join_with, DateTime, aware, if◌then◌else◌,
}
use real_voice_agent_free.Json.{Json, str, bool, num, arr, items, dict, put, entry}
use real_voice_agent_free.Env.{Env, whole}
use real_voice_agent_free.Models.{AgentModel, CallModel, CallTurnModel}
use real_voice_agent_free.Db.{calls, call_turns}
use real_voice_agent_free.Serialize.{serialize_call_turn}
use real_voice_agent_free.Serialize.Values.{opt_str}
use real_voice_agent_free.Session.{
  M, pure, ◌>>=◌, ◌>>◌, new_id, select, count_rows, insert, save, commit, session,
}
use real_voice_agent_free.Webhooks.{emit_event}
use real_voice_agent_free.Calls.{get_agent_or_404, get_call_or_404, runtime_event}
use real_voice_agent_free.Availability.{
  Zones, Availability, Slot, build_agent_availability_payload, serialize_availability_slot,
}
use real_voice_agent_free.Runtime.Outside.{Services}
use real_voice_agent_free.Runtime.Llm.{Message}
use real_voice_agent_free.Runtime.Respond.{RuntimeTurnResult, respond}

pub record CallRespondRequest : Type 0 where
  pub input_text : Option String
  pub audio_ref : Option String
  pub voice_id : Option String

-- Whether the schema takes the request: a text or an audio is needed.
unfoldable pub validate_runtime_input : CallRespondRequest → Bool
validate_runtime_input payload =
    not (text_or payload.input_text "" == "" && text_or payload.audio_ref "" == "")

-- `tool_call.get("tool_name") == "calendar.lookup_slots"`
abbrev pub is_lookup : Json → Bool
is_lookup tool_call = elim (entry "tool_name" tool_call) [
  | some (str name) ↦ name == "calendar.lookup_slots"
  | _ ↦ false
]

unfoldable pub look_up : Env → Zones → AgentModel → String → DateTime → M Availability
look_up env z agent organization_id now = build_agent_availability_payload env z (record {
  agent = agent;
  organization_id = organization_id;
  generated_at = now;
  start_at = some (aware now);
  days = 5;
  slot_minutes = some env.settings.booking_slot_minutes;
  limit = 3;
  exclude_booking_id = none;
})

unfoldable pub executed : Zones → Json → Availability → Json
executed z tool_call found =
    put "available_slots" (arr (items (map (serialize_availability_slot z) found.slots))) (
      put "calendar_connected" (bool found.calendar_connected)
        (put "source" (str found.source) (put "status" (str "completed") tool_call)))

-- One round of the loop: the call as it is kept, and the availability if it was looked up.
unfoldable pub execute_tool_call :
    Env
    → Zones
    → AgentModel
    → String
    → DateTime
    → Option Availability
    → Json
    → M (Json × Option Availability)
execute_tool_call env z agent organization_id now before tool_call =
    if is_lookup tool_call
    then (do
      found ← look_up env z agent organization_id now
      pure (executed z tool_call found, some found))
    else pure (tool_call, before)

unfoldable pub execute_all :
    Env
    → Zones
    → AgentModel
    → String
    → DateTime
    → Option Availability
    → List Json
    → M (List Json × Option Availability)
execute_all env z agent organization_id now before [] = pure ([], before)
execute_all env z agent organization_id now before (tool_call ∷ tool_calls) = do
  one ← execute_tool_call env z agent organization_id now before tool_call
  rest ← execute_all env z agent organization_id now one.1 tool_calls
  pure (one.0 ∷ rest.0, rest.1)

unfoldable pub execute_runtime_tool_calls :
    Env → Zones → CallModel → String → List Json → DateTime → M (List Json × Option Availability)
execute_runtime_tool_calls env z call organization_id [] now = pure ([], none)
execute_runtime_tool_calls env z call organization_id (tool_call ∷ tool_calls) now = do
  agent ← get_agent_or_404 call.agent_id organization_id
  execute_all env z agent organization_id now none (tool_call ∷ tool_calls)

unfoldable pub history_of : List CallTurnModel → List Message
history_of [] = []
history_of (turn ∷ turns) =
    record { role = "user"; text = turn.user_text }
    ∷ record { role = "assistant"; text = turn.assistant_text }
    ∷ history_of turns

abbrev backwards : List CallTurnModel → List CallTurnModel
backwards [] = []
backwards (turn ∷ turns) = backwards turns ++ turn ∷ []

-- The last six turns, oldest first.
unfoldable pub recent_turns : Env → String → M (List CallTurnModel)
recent_turns env call_id = do
  found ← select call_turns (λ t. t.call_id == call_id)
  pure (backwards (take 6 (env.order_desc whole CallTurnModel (λ t. t.turn_index) found)))

abbrev offered : List Slot → String
offered slots = join_with ", " (map (λ slot. slot.local_label) (take 3 slots))

unfoldable pub with_slots : String → Option Availability → String
with_slots assistant_text none = assistant_text
with_slots assistant_text (some found) = elim found.slots [
  | [] ↦ concat (assistant_text ∷ " Пока свободных окон на ближайшие дни нет." ∷ [])
  | slot ∷ slots ↦ concat (assistant_text ∷ " Ближайшие окна: " ∷ offered (slot ∷ slots) ∷ "." ∷ [])
]

unfoldable pub answered_turn :
    String
    → String
    → ℕ
    → RuntimeTurnResult
    → List Json × Option Availability
    → DateTime
    → CallTurnModel
answered_turn id call_id turn_index runtime_turn tools now = record {
  id = id;
  call_id = call_id;
  turn_index = turn_index;
  user_text = runtime_turn.user_text;
  assistant_text = with_slots runtime_turn.assistant_text tools.1;
  latency_ms = runtime_turn.latency_ms;
  provider_breakdown = runtime_turn.provider_breakdown;
  tool_calls = tools.0;
  response_audio_ref = some runtime_turn.response_audio_ref;
  finish_reason = some runtime_turn.finish_reason;
  created_at = now;
}

unfoldable pub turn_answered : CallTurnModel → Json
turn_answered turn = dict (
    ("call_id", str turn.call_id)
    ∷ ("turn_index", num turn.turn_index)
    ∷ ("user_text", str turn.user_text)
    ∷ ("assistant_text", str turn.assistant_text)
    ∷ ("latency_ms", num turn.latency_ms)
    ∷ ("provider_breakdown", turn.provider_breakdown)
    ∷ ("tool_calls", arr (items turn.tool_calls))
    ∷ ("response_audio_ref", opt_str turn.response_audio_ref)
    ∷ ("finish_reason", opt_str turn.finish_reason)
    ∷ [])

-- The body of `respond_to_call`, which returns the new turn.
unfoldable pub answer_turn :
    Env
    → Zones
    → Services
    → String
    → CallRespondRequest
    → String
    → String
    → DateTime
    → M CallTurnModel
answer_turn env z s call_id payload organization_id trace_id now = do
  call ← get_call_or_404 call_id organization_id
  existing_count ← count_rows call_turns (λ t. t.call_id == call_id)
  recent ← recent_turns env call_id
  runtime_turn ← respond env s (record {
    call_id = call_id;
    agent_id = call.agent_id;
    turn_index = existing_count;
    trace_id = trace_id;
    input_text = payload.input_text;
    audio_ref = payload.audio_ref;
    voice_id = payload.voice_id;
    conversation_history = history_of recent;
  })
  tools ← execute_runtime_tool_calls env z call organization_id runtime_turn.tool_calls now
  id ← new_id env "turn_" 8
  let turn = answered_turn id call_id existing_count runtime_turn tools now
  save calls (record call { updated_at = now })
  insert call_turns turn
  emit_event env
      (runtime_event organization_id "call.turn.completed" trace_id now (turn_answered turn))
  pure turn

unfoldable pub respond_to_call :
    Env → Zones → Services → String → CallRespondRequest → String → String → DateTime → M Json
respond_to_call env z s call_id payload organization_id trace_id now = session (do
  turn ← answer_turn env z s call_id payload organization_id trace_id now
  commit
  pure (serialize_call_turn turn))
