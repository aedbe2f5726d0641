-- ===== src/Agents/Publication.antt =====
-- Publication of an agent (store.py, `publish_agent`): the version that it adds, and the agent as
-- that version restores it.
use real_voice_agent_free.Prelude.{
  String, ◌==◌, ◌≡◌, refl, sym, ap, ◌∙◌, Bool, true, ◌&&◌, some, List, find, find-test, find-append,
  find-of_any, DateTime, arith, eq_refl,
}
use real_voice_agent_free.Env.{Env}
use real_voice_agent_free.Models.{AgentModel, AgentStatus, AgentVersionModel}
use real_voice_agent_free.Db.{Db, agents, agent_versions}
use real_voice_agent_free.Session.Does.{
  Does, Does-bind, Does-found, Does-given, Does-new_id, Does-save, Does-insert, Does-pure,
  Does-Keeps,
}
use real_voice_agent_free.Serialize.Values.{hours_of-hours_fields}
use real_voice_agent_free.Webhooks.Emits.{Sees-emit_event}
use real_voice_agent_free.Calls.{get_agent_or_404}
use real_voice_agent_free.Agents.{snapshot_of, new_version, restored_agent, publish}

abbrev pub is_agent : String → String → AgentModel → Bool
is_agent id org a = a.id == id && a.organization_id == org

abbrev pub is_version : String → String → AgentVersionModel → Bool
is_version version_id agent_id v = v.version_id == version_id && v.agent_id == agent_id

-- `b` with the configuration of `a`, published under `version_id`.
abbrev pub with_configuration : AgentModel → AgentModel → String → DateTime → AgentModel
with_configuration b a version_id now = record b {
  name = a.name;
  template_id = a.template_id;
  timezone = a.timezone;
  default_language = a.default_language;
  business_hours = a.business_hours;
  status = AgentStatus.published;
  published_version_id = some version_id;
  updated_at = now;
}

pub restored_agent-new_version :
    (a b : AgentModel) (version_id target : String) (published now : DateTime)
    → restored_agent b (new_version version_id a target published) now
      ≡ with_configuration b a version_id now
unfolding restored_agent new_version snapshot_of
restored_agent-new_version a b version_id target published now =
    rw (hours_of-hours_fields a.business_hours) refl

module _ (id org : String) where
  pub get_agent-Found :
      (P : Db → Type 0)
      → Does P (get_agent_or_404 id org) (λ a d. P d × (find (is_agent id org) d.agents ≡ some a))
  unfolding get_agent_or_404
  get_agent-Found P = Does-found agents (is_agent id org) _

  -- The version that `publish` adds: the only one of its number, with the agent xs it was found.
  abbrev pub Published : List AgentModel → String → DateTime → AgentVersionModel → Db → Type 0
  Published xs target now v d =
      (a : AgentModel) × (find (is_agent id org) xs ≡ some a)
      × (v ≡ new_version v.version_id a target now)
      × (find (is_version v.version_id id) d.agent_versions ≡ some v)

  new_version-is_version :
      (version_id target : String) (now : DateTime) (xs : List AgentModel) (a : AgentModel)
      → find (is_agent id org) xs ≡ some a
      → is_version version_id id (new_version version_id a target now) ≡ true
  unfolding new_version
  new_version-is_version version_id target now xs a h =
      ground (arith, find-test (is_agent id org) xs a h, eq_refl version_id)

  pub publish-Published :
      (env : Env) (target trace : String) (now : DateTime) (xs : List AgentModel)
      → Does (λ d. d.agents ≡ xs) (publish env id org target trace now) (Published xs target now)
  unfolding publish new_version
  publish-Published env target trace now xs =
      Does-bind _ _ (get_agent-Found (λ d. d.agents ≡ xs)) λ a.
        Does-bind _ _ (Does-new_id env "ver_" 8) λ vid.
          Does-given {F = find (is_agent id org) xs ≡ some a} _
            (λ d (h : (d.agents ≡ xs) × (find (is_agent id org) d.agents ≡ some a)).
              ap (find (is_agent id org)) (sym h.0) ∙ h.1)
            λ here.
              Does-bind _ _
                (Does-insert (Published xs target now (new_version vid a target now)) agent_versions
                  _
                  λ d h free. (
                    a,
                    here,
                    refl,
                    find-append (is_version vid id) d.agent_versions _
                        (find-of_any (λ v. v.version_id == vid) (λ v. v.agent_id == id)
                          d.agent_versions free)
                        (new_version-is_version vid target now xs a here),
                  ))
                λ u.
                  Does-bind _ _
                    (Does-save (Published xs target now (new_version vid a target now)) agents _
                      (λ d h. h))
                    λ u'.
                      Does-bind _ _
                        (Does-Keeps _ (
                          Sees-emit_event env
                            (Published xs target now (new_version vid a target now)) (λ d rows h. h)
                            (λ d rows h. h) _))
                        λ e. Does-pure (Published xs target now) _ λ d h. h
