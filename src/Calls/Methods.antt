-- ===== src/Calls/Methods.antt =====
-- The methods of `AgentStore` (store.py) on calls, their turns and their summaries. A body that
-- ends in a commit stands by itself.
use real_voice_agent_free.Prelude.{
  ℕ, String, ◌==◌, Option, none, some, List, [], ◌∷◌, ◌++◌, map, page, join_lines, DateTime, concat,
  if◌then◌else◌,
}
use real_voice_agent_free.Json.{Json, str, arr, items, dict}
use real_voice_agent_free.Errors.{not_found}
use real_voice_agent_free.Env.{Env, whole, limited}
use real_voice_agent_free.Models.{CallOutcome, CallModel, CallTurnModel, CallSummaryModel}
use real_voice_agent_free.Db.{calls, call_turns, call_summaries}
use real_voice_agent_free.Serialize.{serialize_call, serialize_call_turn, serialize_call_summary}
use real_voice_agent_free.Session.{
  M, pure, ◌>>=◌, ◌>>◌, require, new_id, select, count_rows, get, insert, save, commit, session,
}
use real_voice_agent_free.Webhooks.{emit_event}
use real_voice_agent_free.Calls.Defs.{
  get_agent_or_404, get_call_or_404, CallCreateRequest, CallTurnCreateRequest, CallCompleteRequest,
  runtime_event, new_call, call_started, new_turn, turn_completed, summary_of, ended_call,
  call_failed, call_escalated, call_ended,
}

unfoldable pub list_calls : Env → String → M (List Json)
list_calls env organization_id = session (do
  found ← select calls (λ c. c.organization_id == organization_id)
  pure (map serialize_call (env.order_desc whole CallModel (λ c. c.created_at) found)))

unfoldable pub list_calls_paginated : Env → String → ℕ → ℕ → M (List Json × ℕ)
list_calls_paginated env organization_id limit offset = session (do
  total ← count_rows calls (λ c. c.organization_id == organization_id)
  found ← select calls (λ c. c.organization_id == organization_id)
  pure (
    map serialize_call (
        page limit offset
          (env.order_desc (limited limit offset) CallModel (λ c. c.created_at) found)),
    total,
  ))

unfoldable pub get_call : String → String → M Json
get_call call_id organization_id =
    session (do call ← get_call_or_404 call_id organization_id; pure (serialize_call call))

-- the turns of a call, in their order
unfoldable pub turns_of : Env → String → M (List CallTurnModel)
turns_of env call_id = do
  found ← select call_turns (λ t. t.call_id == call_id)
  pure (env.order_asc whole CallTurnModel (λ t. t.turn_index) found)

unfoldable pub list_call_turns : Env → String → String → M (List Json)
list_call_turns env call_id organization_id = session (do
  get_call_or_404 call_id organization_id
  turns ← turns_of env call_id
  pure (map serialize_call_turn turns))

unfoldable pub list_call_turns_paginated : Env → String → String → ℕ → ℕ → M (List Json × ℕ)
list_call_turns_paginated env call_id organization_id limit offset = session (do
  get_call_or_404 call_id organization_id
  total ← count_rows call_turns (λ t. t.call_id == call_id)
  turns ← turns_of env call_id
  pure (map serialize_call_turn (page limit offset turns), total))

-- `if turn.user_text:`, and so on
abbrev said : String → String → List String
said who text = if text == "" then [] else concat (who ∷ text ∷ []) ∷ []

unfoldable pub transcript_lines : List CallTurnModel → List String
transcript_lines [] = []
transcript_lines (turn ∷ turns) =
    said "User: " turn.user_text ++ said "Assistant: " turn.assistant_text ++ transcript_lines turns

unfoldable pub get_call_transcript : Env → String → String → M Json
get_call_transcript env call_id organization_id = session (do
  get_call_or_404 call_id organization_id
  turns ← turns_of env call_id
  pure (
      dict (
        ("call_id", str call_id)
        ∷ ("transcript_text", str (join_lines (transcript_lines turns)))
        ∷ ("turns", arr (items (map serialize_call_turn turns)))
        ∷ [])))

unfoldable pub get_call_summary : String → String → M Json
get_call_summary call_id organization_id = session (do
  get_call_or_404 call_id organization_id
  found ← get call_summaries call_id
  summary ← require found (not_found "Call summary not found")
  pure (serialize_call_summary summary))

unfoldable pub start_call : Env → CallModel → String → DateTime → M CallModel
start_call env call trace_id now = do
  get_agent_or_404 call.agent_id call.organization_id
  insert calls call
  emit_event env
      (runtime_event call.organization_id "call.started" trace_id now (call_started call))
  pure call

unfoldable pub create_call : Env → CallCreateRequest → String → String → DateTime → M Json
create_call env payload organization_id trace_id now = do
  id ← new_id env "call_" 8
  session (do
    call ← start_call env (new_call id payload organization_id now) trace_id now
    commit
    pure (serialize_call call))

unfoldable pub add_turn :
    Env → String → CallTurnCreateRequest → String → String → DateTime → M CallTurnModel
add_turn env call_id payload organization_id trace_id now = do
  call ← get_call_or_404 call_id organization_id
  existing_count ← count_rows call_turns (λ t. t.call_id == call_id)
  id ← new_id env "turn_" 8
  let turn = new_turn id call_id existing_count payload now
  save calls (record call { updated_at = now })
  insert call_turns turn
  emit_event env
      (runtime_event organization_id "call.turn.completed" trace_id now (turn_completed turn))
  pure turn

unfoldable pub add_call_turn :
    Env → String → CallTurnCreateRequest → String → String → DateTime → M Json
add_call_turn env call_id payload organization_id trace_id now = session (do
  turn ← add_turn env call_id payload organization_id trace_id now
  commit
  pure (serialize_call_turn turn))

-- `session.add(summary)`, of a new row or of one that was read
abbrev pub put_summary : Option CallSummaryModel → CallSummaryModel → M Unit
put_summary none summary = insert call_summaries summary
put_summary (some old) summary = save call_summaries summary

-- The event of a failure or of an escalation, before the one that every call ends with.
unfoldable pub announce :
    Env → CallModel → CallCompleteRequest → String → String → DateTime → CallOutcome → M Unit
announce env call payload organization_id trace_id now CallOutcome.failed = do
  emit_event env
      (runtime_event organization_id "call.failed" trace_id now (call_failed call payload))
  pure tt
announce env call payload organization_id trace_id now CallOutcome.escalated = do
  emit_event env
      (runtime_event organization_id "call.escalated" trace_id now (call_escalated call payload))
  pure tt
announce env call payload organization_id trace_id now _ = pure tt

unfoldable pub end_call :
    Env → String → CallCompleteRequest → String → String → DateTime → M CallModel
end_call env call_id payload organization_id trace_id now = do
  found ← get_call_or_404 call_id organization_id
  old ← get call_summaries call_id
  let call = ended_call found payload now
  put_summary old (summary_of call_id payload now old)
  save calls call
  announce env call payload organization_id trace_id now payload.outcome
  emit_event env (runtime_event organization_id "call.ended" trace_id now (call_ended call))
  pure call

unfoldable pub complete_call :
    Env → String → CallCompleteRequest → String → String → DateTime → M Json
complete_call env call_id payload organization_id trace_id now = session (do
  call ← end_call env call_id payload organization_id trace_id now
  commit
  pure (serialize_call call))
