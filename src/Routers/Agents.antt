-- ===== src/Routers/Agents.antt =====
-- The routes of apps/api/src/voiceagent_api/routers/agents.py.
use real_voice_agent_free.Prelude.{ℕ, ℤ, String, Option, List, Stamp}
use real_voice_agent_free.Json.{Json}
use real_voice_agent_free.Env.{Env}
use real_voice_agent_free.Session.{M, pure, ◌>>=◌}
use real_voice_agent_free.Auth.{AuthContext}
use real_voice_agent_free.Routers.Http.{Web, Incoming, once, once_traced}
use real_voice_agent_free.Routers.Pages.{apply_pagination, normalize_pagination}
use real_voice_agent_free.Availability.{Zones, Availability, get_agent_availability}
use real_voice_agent_free.Agents.{
  AgentCreateRequest, AgentUpdateRequest, TemplateInstantiateRequest, list_agents_paginated,
  create_agent, get_agent, update_agent, list_versions, get_version, publish_agent, rollback_agent,
  list_templates, instantiate_template,
}

unfoldable pub list_agents_route : Env → AuthContext → Option ℤ → ℤ → M (List Json × ℕ)
list_agents_route env auth limit offset =
    let effective = normalize_pagination limit offset in
    list_agents_paginated env auth.organization_id effective.0 effective.1

unfoldable pub create_agent_route : Env → Web → Incoming → AgentCreateRequest → M Json
create_agent_route env web i payload =
    once env web i (web.model_dump AgentCreateRequest payload)
      (create_agent env payload i.auth.organization_id i.now)

unfoldable pub get_agent_route : AuthContext → String → M Json
get_agent_route auth agent_id = get_agent agent_id auth.organization_id

unfoldable pub get_agent_availability_route :
    Env → Zones → Incoming → String → Option Stamp → ℕ → Option ℕ → ℕ → M Availability
get_agent_availability_route env z i agent_id start_at days slot_minutes limit =
    get_agent_availability env z agent_id i.auth.organization_id start_at days slot_minutes limit
      i.now

unfoldable pub update_agent_route : Env → Web → Incoming → String → AgentUpdateRequest → M Json
update_agent_route env web i agent_id payload =
    once env web i (web.model_dump AgentUpdateRequest payload)
      (update_agent agent_id payload i.auth.organization_id i.now)

unfoldable pub list_agent_versions_route :
    Env → AuthContext → String → Option ℤ → ℤ → M (List Json × ℕ)
list_agent_versions_route env auth agent_id limit offset = do
  raw_items ← list_versions env agent_id auth.organization_id
  pure (apply_pagination raw_items limit offset)

unfoldable pub get_agent_version_route : AuthContext → String → String → M Json
get_agent_version_route auth agent_id version_id =
    get_version agent_id version_id auth.organization_id

pub record PublishAgentRequest : Type 0 where
  pub target_environment : String

unfoldable pub publish_agent_route : Env → Web → Incoming → String → PublishAgentRequest → M Json
publish_agent_route env web i agent_id payload =
    once_traced env web i (web.model_dump PublishAgentRequest payload) λ trace_id.
      publish_agent env agent_id i.auth.organization_id payload.target_environment trace_id i.now

pub record RollbackAgentRequest : Type 0 where
  pub version_id : Option String

unfoldable pub rollback_agent_route : Env → Web → Incoming → String → RollbackAgentRequest → M Json
rollback_agent_route env web i agent_id payload =
    once_traced env web i (web.model_dump RollbackAgentRequest payload) λ trace_id.
      rollback_agent env agent_id i.auth.organization_id payload.version_id trace_id i.now

unfoldable pub list_templates_route : Env → Option ℤ → ℤ → M (List Json × ℕ)
list_templates_route env limit offset = do
  raw_items ← list_templates env
  pure (apply_pagination raw_items limit offset)

unfoldable pub instantiate_template_route :
    Env → Web → Incoming → String → TemplateInstantiateRequest → M Json
instantiate_template_route env web i template_id payload =
    once env web i (web.model_dump TemplateInstantiateRequest payload)
      (instantiate_template env template_id payload i.auth.organization_id i.now)
