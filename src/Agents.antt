-- ===== src/Agents.antt =====
-- Agents: store.py of apps/api/src/voiceagent_api, the methods on agents, versions and templates.
mod Defs
mod Methods
pub mod Publication
pub mod Rollback
pub use Defs.{AgentCreateRequest, AgentUpdateRequest, TemplateInstantiateRequest}
unfoldable pub use Defs.{
  new_agent, agent_of_template, updated_agent, snapshot_of, new_version, restored_agent,
  published_agent, agent_published, publication, target_version,
}
unfoldable pub use Methods.{
  list_agents, list_agents_paginated, create_agent, get_agent, update_agent, list_versions,
  get_version, list_templates, active_template, instantiate_template, publish, publish_agent,
  rollback, rollback_agent,
}
