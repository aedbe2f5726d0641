-- ===== src/Agents/Methods.antt =====
-- The methods of `AgentStore` (store.py) on agents, their versions, and the templates of agents.
use real_voice_agent_free.Prelude.{
  ℕ, String, ◌==◌, ◌&&◌, Option, none, some, List, map, page, DateTime, if◌then◌else◌,
}
use real_voice_agent_free.Json.{Json}
use real_voice_agent_free.Errors.{not_found}
use real_voice_agent_free.Env.{Env, whole, limited}
use real_voice_agent_free.Models.{AgentModel, AgentVersionModel, TemplateModel}
use real_voice_agent_free.Db.{agents, agent_versions, templates}
use real_voice_agent_free.Serialize.{serialize_agent, serialize_template, serialize_version}
use real_voice_agent_free.Session.{
  M, pure, raise, ◌>>=◌, ◌>>◌, require, new_id, select, scalar, count_rows, get, insert, save,
  commit, session,
}
use real_voice_agent_free.Webhooks.{emit_event}
use real_voice_agent_free.Calls.{get_agent_or_404}
use real_voice_agent_free.Agents.Defs.{
  AgentCreateRequest, AgentUpdateRequest, TemplateInstantiateRequest, new_agent, agent_of_template,
  updated_agent, new_version, restored_agent, published_agent, agent_published, publication,
  target_version,
}

unfoldable pub list_agents : Env → String → M (List Json)
list_agents env organization_id = session (do
  found ← select agents (λ a. a.organization_id == organization_id)
  pure (map serialize_agent (env.order_asc whole AgentModel (λ a. a.created_at) found)))

unfoldable pub list_agents_paginated : Env → String → ℕ → ℕ → M (List Json × ℕ)
list_agents_paginated env organization_id limit offset = session (do
  total ← count_rows agents (λ a. a.organization_id == organization_id)
  found ← select agents (λ a. a.organization_id == organization_id)
  pure (
    map serialize_agent (
        page limit offset
          (env.order_asc (limited limit offset) AgentModel (λ a. a.created_at) found)),
    total,
  ))

unfoldable pub create_agent : Env → AgentCreateRequest → String → DateTime → M Json
create_agent env payload organization_id now = do
  id ← new_id env "agt_" 8
  let agent = new_agent id payload organization_id now
  session (do insert agents agent; commit; pure (serialize_agent agent))

unfoldable pub get_agent : String → String → M Json
get_agent agent_id organization_id =
    session (do agent ← get_agent_or_404 agent_id organization_id; pure (serialize_agent agent))

unfoldable pub update_agent : String → AgentUpdateRequest → String → DateTime → M Json
update_agent agent_id payload organization_id now = session (do
  agent ← get_agent_or_404 agent_id organization_id
  save agents (updated_agent agent payload now)
  commit
  pure (serialize_agent (updated_agent agent payload now)))

unfoldable pub list_versions : Env → String → String → M (List Json)
list_versions env agent_id organization_id = session (do
  get_agent_or_404 agent_id organization_id
  found ← select agent_versions (λ v. v.agent_id == agent_id)
  pure (map serialize_version (env.order_desc whole AgentVersionModel (λ v. v.created_at) found)))

unfoldable pub get_version : String → String → String → M Json
get_version agent_id version_id organization_id = session (do
  get_agent_or_404 agent_id organization_id
  found ← scalar agent_versions (λ v. v.version_id == version_id && v.agent_id == agent_id)
  version ← require found (not_found "Agent version not found")
  pure (serialize_version version))

unfoldable pub list_templates : Env → M (List Json)
list_templates env = session (do
  found ← select templates (λ t. t.is_active)
  pure (map serialize_template (env.order_by_text whole TemplateModel (λ t. t.name) found)))

-- `if template is None or not template.is_active`
unfoldable pub active_template : Option TemplateModel → M TemplateModel
active_template none = raise (not_found "Template not found")
active_template (some template) =
    if template.is_active then pure template else raise (not_found "Template not found")

unfoldable pub instantiate_template :
    Env → String → TemplateInstantiateRequest → String → DateTime → M Json
instantiate_template env template_id payload organization_id now = session (do
  found ← get templates template_id
  template ← active_template found
  id ← new_id env "agt_" 8
  let agent = agent_of_template id template payload organization_id now
  insert agents agent
  commit
  pure (serialize_agent agent))

-- The body of `publish_agent`, which returns the new version.
unfoldable pub publish : Env → String → String → String → String → DateTime → M AgentVersionModel
publish env agent_id organization_id target_environment trace_id now = do
  agent ← get_agent_or_404 agent_id organization_id
  version_id ← new_id env "ver_" 8
  let version = new_version version_id agent target_environment now
  insert agent_versions version
  save agents (published_agent agent version_id now)
  emit_event env (agent_published agent version "api_key" organization_id trace_id now)
  pure version

unfoldable pub publish_agent : Env → String → String → String → String → DateTime → M Json
publish_agent env agent_id organization_id target_environment trace_id now = session (do
  version ← publish env agent_id organization_id target_environment trace_id now
  commit
  pure (publication version.agent_id version.version_id version.target_environment))

-- The body of `rollback_agent`, which returns the version that is published again.
unfoldable pub rollback :
    Env → String → String → Option String → String → DateTime → M (AgentModel × AgentVersionModel)
rollback env agent_id organization_id target_version_id trace_id now = do
  agent ← get_agent_or_404 agent_id organization_id
  found ← target_version env agent_id target_version_id
  version ← require found (not_found "Agent version not found")
  save agents (restored_agent agent version now)
  emit_event env (agent_published agent version "rollback" organization_id trace_id now)
  pure (agent, version)

unfoldable pub rollback_agent : Env → String → String → Option String → String → DateTime → M Json
rollback_agent env agent_id organization_id target_version_id trace_id now = session (do
  done ← rollback env agent_id organization_id target_version_id trace_id now
  commit
  pure (publication done.0.id done.1.version_id done.1.target_environment))
