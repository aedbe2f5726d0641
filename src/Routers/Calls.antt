-- ===== src/Routers/Calls.antt =====
-- The routes of apps/api/src/voiceagent_api/routers/calls.py.
use real_voice_agent_free.Prelude.{ℕ, ℤ, String, Option, List}
use real_voice_agent_free.Json.{Json}
use real_voice_agent_free.Env.{Env}
use real_voice_agent_free.Session.{M}
use real_voice_agent_free.Auth.{AuthContext}
use real_voice_agent_free.Routers.Http.{Web, Incoming, once_traced}
use real_voice_agent_free.Routers.Pages.{normalize_pagination}
use real_voice_agent_free.Availability.{Zones}
use real_voice_agent_free.Calls.{
  CallCreateRequest, CallTurnCreateRequest, CallCompleteRequest, list_calls_paginated, create_call,
  get_call, list_call_turns_paginated, get_call_transcript, add_call_turn, complete_call,
  get_call_summary,
}
use real_voice_agent_free.Runtime.{Services, CallRespondRequest, respond_to_call}

unfoldable pub list_calls_route : Env → AuthContext → Option ℤ → ℤ → M (List Json × ℕ)
list_calls_route env auth limit offset =
    let effective = normalize_pagination limit offset in
    list_calls_paginated env auth.organization_id effective.0 effective.1

unfoldable pub create_call_route : Env → Web → Incoming → CallCreateRequest → M Json
create_call_route env web i payload =
    once_traced env web i (web.model_dump CallCreateRequest payload)
      λ trace_id. create_call env payload i.auth.organization_id trace_id i.now

unfoldable pub get_call_route : AuthContext → String → M Json
get_call_route auth call_id = get_call call_id auth.organization_id

unfoldable pub list_call_turns_route : Env → AuthContext → String → Option ℤ → ℤ → M (List Json × ℕ)
list_call_turns_route env auth call_id limit offset =
    let effective = normalize_pagination limit offset in
    list_call_turns_paginated env call_id auth.organization_id effective.0 effective.1

unfoldable pub get_call_transcript_route : Env → AuthContext → String → M Json
get_call_transcript_route env auth call_id = get_call_transcript env call_id auth.organization_id

unfoldable pub add_call_turn_route : Env → Web → Incoming → String → CallTurnCreateRequest → M Json
add_call_turn_route env web i call_id payload =
    once_traced env web i (web.model_dump CallTurnCreateRequest payload)
      λ trace_id. add_call_turn env call_id payload i.auth.organization_id trace_id i.now

unfoldable pub respond_to_call_route :
    Env → Zones → Services → Web → Incoming → String → CallRespondRequest → M Json
respond_to_call_route env z s web i call_id payload =
    once_traced env web i (web.model_dump CallRespondRequest payload)
      λ trace_id. respond_to_call env z s call_id payload i.auth.organization_id trace_id i.now

unfoldable pub complete_call_route : Env → Web → Incoming → String → CallCompleteRequest → M Json
complete_call_route env web i call_id payload =
    once_traced env web i (web.model_dump CallCompleteRequest payload)
      λ trace_id. complete_call env call_id payload i.auth.organization_id trace_id i.now

unfoldable pub get_call_summary_route : AuthContext → String → M Json
get_call_summary_route auth call_id = get_call_summary call_id auth.organization_id
