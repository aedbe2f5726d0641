-- ===== src/Agents/Defs.antt =====
-- Agents and their versions (apps/api/src/voiceagent_api/store.py): the requests of schemas.py, the
-- rows that the methods of `AgentStore` build, and the snapshot of an agent and its way back.
use real_voice_agent_free.Prelude.{
  String, ◌==◌, ◌&&◌, Option, none, some, List, [], ◌∷◌, DateTime, BusinessHours, or_else, text_or,
}
use real_voice_agent_free.Json.{Json, str, obj, dict, entry}
use real_voice_agent_free.Env.{Env, whole}
use real_voice_agent_free.Models.{AgentStatus, AgentModel, AgentVersionModel, TemplateModel}
use real_voice_agent_free.Db.{agent_versions}
use real_voice_agent_free.Serialize.Values.{opt_str, hours, hours_of, agent_status_text}
use real_voice_agent_free.Session.{M, pure, ◌>>=◌, select, scalar}
use real_voice_agent_free.Webhooks.{Emission}

pub record AgentCreateRequest : Type 0 where
  pub name : String
  pub template_id : String
  pub timezone : String
  pub default_language : String
  pub business_hours : BusinessHours

pub record AgentUpdateRequest : Type 0 where
  pub name : Option String
  pub template_id : Option String
  pub timezone : Option String
  pub default_language : Option String
  pub business_hours : Option BusinessHours

pub record TemplateInstantiateRequest : Type 0 where
  pub name : String
  pub timezone : Option String
  pub default_language : Option String
  pub business_hours : Option BusinessHours

unfoldable pub new_agent : String → AgentCreateRequest → String → DateTime → AgentModel
new_agent id payload organization_id now = record {
  id = id;
  organization_id = organization_id;
  name = payload.name;
  template_id = payload.template_id;
  timezone = payload.timezone;
  default_language = payload.default_language;
  business_hours = payload.business_hours;
  status = AgentStatus.draft;
  published_version_id = none;
  created_at = now;
  updated_at = now;
}

unfoldable pub agent_of_template :
    String → TemplateModel → TemplateInstantiateRequest → String → DateTime → AgentModel
agent_of_template id template payload organization_id now = record {
  id = id;
  organization_id = organization_id;
  name = payload.name;
  template_id = template.id;
  timezone = text_or payload.timezone template.timezone;
  default_language = text_or payload.default_language template.default_language;
  business_hours = or_else payload.business_hours template.business_hours;
  status = AgentStatus.draft;
  published_version_id = none;
  created_at = now;
  updated_at = now;
}

unfoldable pub updated_agent : AgentModel → AgentUpdateRequest → DateTime → AgentModel
updated_agent agent payload now = record agent {
  name = or_else payload.name agent.name;
  template_id = or_else payload.template_id agent.template_id;
  timezone = or_else payload.timezone agent.timezone;
  default_language = or_else payload.default_language agent.default_language;
  business_hours = or_else payload.business_hours agent.business_hours;
  updated_at = now;
}

unfoldable pub snapshot_of : AgentModel → Json
snapshot_of agent = dict (
    ("id", str agent.id)
    ∷ ("name", str agent.name)
    ∷ ("template_id", str agent.template_id)
    ∷ ("timezone", str agent.timezone)
    ∷ ("default_language", str agent.default_language)
    ∷ ("business_hours", hours agent.business_hours)
    ∷ ("status", str (agent_status_text agent.status))
    ∷ ("published_version_id", opt_str agent.published_version_id)
    ∷ [])

unfoldable pub new_version : String → AgentModel → String → DateTime → AgentVersionModel
new_version version_id agent target_environment now = record {
  version_id = version_id;
  agent_id = agent.id;
  target_environment = target_environment;
  snapshot = snapshot_of agent;
  created_at = now;
}

-- `snapshot.get(key, default)`, of an entry that is a text and of one that holds business hours
abbrev text_at : String → Json → String → String
text_at key snapshot default = elim (entry key snapshot) [ some (str s) ↦ s | _ ↦ default ]

abbrev hours_at : String → Json → BusinessHours → BusinessHours
hours_at key snapshot default = elim (entry key snapshot) [
  | some (obj fs) ↦ hours_of fs
  | _ ↦ default
]

-- The agent after its rollback to a version.
unfoldable pub restored_agent : AgentModel → AgentVersionModel → DateTime → AgentModel
restored_agent agent version now = record agent {
  name = text_at "name" version.snapshot agent.name;
  template_id = text_at "template_id" version.snapshot agent.template_id;
  timezone = text_at "timezone" version.snapshot agent.timezone;
  default_language = text_at "default_language" version.snapshot agent.default_language;
  business_hours = hours_at "business_hours" version.snapshot agent.business_hours;
  status = AgentStatus.published;
  published_version_id = some version.version_id;
  updated_at = now;
}

-- The agent after its publication.
unfoldable pub published_agent : AgentModel → String → DateTime → AgentModel
published_agent agent version_id now = record agent {
  status = AgentStatus.published;
  published_version_id = some version_id;
  updated_at = now;
}

unfoldable pub agent_published :
    AgentModel → AgentVersionModel → String → String → String → DateTime → Emission
agent_published agent version published_by organization_id trace_id now = record {
  organization_id = organization_id;
  event_type = "agent.published";
  trace_id = trace_id;
  occurred_at = now;
  source = "control_plane";
  payload = dict (
      ("agent_id", str agent.id)
      ∷ ("version_id", str version.version_id)
      ∷ ("environment", str version.target_environment)
      ∷ ("published_by", str published_by)
      ∷ []);
  only_webhook_id = none;
}

-- What `publish_agent` and `rollback_agent` return.
unfoldable pub publication : String → String → String → Json
publication agent_id version_id target_environment = dict (
    ("agent_id", str agent_id)
    ∷ ("version_id", str version_id)
    ∷ ("status", str "published")
    ∷ ("target_environment", str target_environment)
    ∷ [])

abbrev first : {A : Type 0} → List A → Option A
first [] = none
first (x ∷ xs) = some x

-- The version to roll back to: the one that is asked for, or the latest one.
unfoldable pub target_version : Env → String → Option String → M (Option AgentVersionModel)
target_version env agent_id (some (String.◌∷◌ c s)) =
    scalar agent_versions (λ v. v.version_id == String.◌∷◌ c s && v.agent_id == agent_id)
target_version env agent_id _ = do
  versions ← select agent_versions (λ v. v.agent_id == agent_id)
  pure (first (env.order_desc whole AgentVersionModel (λ v. v.created_at) versions))
