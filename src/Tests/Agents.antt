-- ===== src/Tests/Agents.antt =====
-- Instances of the theorems on agents.
use real_voice_agent_free.Prelude.{◌≡◌, refl, none, some, [], ◌∷◌, find}
use real_voice_agent_free.Errors.{ok}
use real_voice_agent_free.Env.{Env}
use real_voice_agent_free.Models.{AgentModel, AgentStatus}
use real_voice_agent_free.Session.{
  World, ◌>>=◌, new_id, select, scalar, require, insert, save, commit, session,
}
use real_voice_agent_free.Webhooks.{
  emit_event, listens, deliver_all, deliver_to, subscribed, check_overflow,
  attempt_webhook_delivery, dispatch, settle,
}
use real_voice_agent_free.Calls.{get_agent_or_404}
use real_voice_agent_free.Agents.{
  AgentUpdateRequest, new_version, publication, publish, publish_agent, update_agent, rollback,
  rollback_agent, target_version, agent_published, published_agent, updated_agent,
}
use real_voice_agent_free.Agents.Publication.{is_agent, is_version, with_configuration}
use real_voice_agent_free.Agents.Rollback.{publish_agent-rolled_back}
use real_voice_agent_free.Tests.World.{env_with, accepted, db, world_of}

abbrev env : Env
env = env_with accepted

abbrev pub agent : AgentModel
agent = record {
  id = "agt_1";
  organization_id = "org_default";
  name = "Reception";
  template_id = "tpl_1";
  timezone = "Europe/Moscow";
  default_language = "ru";
  business_hours = ("mon_fri", "09:00-18:00" ∷ []) ∷ [];
  status = AgentStatus.draft;
  published_version_id = none;
  created_at = 1;
  updated_at = 1;
}

abbrev start : World
start = world_of (record db { agents = agent ∷ [] })

abbrev renaming : AgentUpdateRequest
renaming = record {
  name = some "Night desk";
  template_id = none;
  timezone = none;
  default_language = none;
  business_hours = some [];
}

abbrev published : World
published = (publish_agent env "agt_1" "org_default" "production" "t1" 5 start).1

abbrev renamed : World
renamed = (update_agent "agt_1" renaming "org_default" 6 published).1

abbrev republished : World
republished = (publish_agent env "agt_1" "org_default" "production" "t3" 7 renamed).1

publish-ok :
    (publish_agent env "agt_1" "org_default" "production" "t1" 5 start).0
    ≡ ok (publication "agt_1" "ver_00000000" "production")
unfolding publish_agent publish get_agent_or_404 emit_event listens deliver_all deliver_to
    subscribed check_overflow attempt_webhook_delivery dispatch new_version session new_id select
    scalar require insert save commit ◌>>=◌ agent_published
publish-ok = refl

first-stays :
    find (is_version "ver_00000000" "agt_1") republished.disk.agent_versions
    ≡ find (is_version "ver_00000000" "agt_1") published.disk.agent_versions
unfolding update_agent session get_agent_or_404 scalar save commit require ◌>>=◌ publish_agent
    publish emit_event listens deliver_all deliver_to subscribed check_overflow
    attempt_webhook_delivery dispatch new_version new_id select insert agent_published
    published_agent updated_agent settle
first-stays = refl

rollback-ok :
    (rollback_agent env "agt_1" "org_default" (some "ver_00000000") "t2" 9 republished).0
    ≡ ok (publication "agt_1" "ver_00000000" "production")
unfolding rollback_agent rollback target_version update_agent session get_agent_or_404 scalar save
    commit require ◌>>=◌ publish_agent publish emit_event listens deliver_all deliver_to subscribed
    check_overflow attempt_webhook_delivery dispatch new_version new_id select insert
    agent_published published_agent updated_agent settle
rollback-ok = refl

-- The agent is published, renamed and closed for all hours, published again, and rolled back to
-- the first of the two versions.
publish_agent-rolled_back_example :
    (a : AgentModel) × (b : AgentModel) × (find (is_agent "agt_1" "org_default") start.disk.agents
      ≡ some a)
    × (find (is_agent "agt_1" "org_default") republished.disk.agents ≡ some b)
    × (find
          (is_agent "agt_1" "org_default")
          (rollback_agent env "agt_1" "org_default"
            (some "ver_00000000")
            "t2"
            9
            republished).1.disk.agents
        ≡ some (with_configuration b a "ver_00000000" 9))
publish_agent-rolled_back_example =
    publish_agent-rolled_back "agt_1" "org_default" env "production" "t1" 5 "v" "er_00000000" start
      publish-ok republished first-stays "t2" 9 (publication "agt_1" "ver_00000000" "production")
      rollback-ok
