-- ===== src/Agents/Rollback.antt =====
-- Rollback of an agent to a version that was published (store.py, `rollback_agent`).
use Prim.Native.Char.{Char}
use real_voice_agent_free.Prelude.{
  String, ◌==◌, ◌≡◌, refl, sym, subst, ap, ◌∙◌, true, some, List, find, find-test, DateTime, arith,
  eq_iff,
}
use real_voice_agent_free.Json.{Json}
use real_voice_agent_free.Errors.{ok}
use real_voice_agent_free.Env.{Env}
use real_voice_agent_free.Models.{AgentModel, AgentVersionModel}
use real_voice_agent_free.Db.{Db, agents, agent_versions}
use real_voice_agent_free.Session.{World}
use real_voice_agent_free.Session.Frame.{find-replace}
use real_voice_agent_free.Session.Does.{
  Does, Does-bind, Does-scalar, Does-require, Does-given, Does-save, Does-pure, Does-Keeps,
  session-commits,
}
use real_voice_agent_free.Webhooks.Emits.{Sees-emit_event}
use real_voice_agent_free.Agents.{
  restored_agent, publication, target_version, publish, publish_agent, rollback, rollback_agent,
}
use real_voice_agent_free.Agents.Publication.{
  is_agent, is_version, with_configuration, restored_agent-new_version, get_agent-Found,
  publish-Published,
}

some_inj : (v w : AgentVersionModel) → some v ≡ some w → v ≡ w
some_inj v w h = cc

module _ (id org : String) where
  -- The agent and the version that `rollback` finds in `xs` and `vs`.
  abbrev RolledBack :
      List AgentModel → AgentVersionModel → DateTime → AgentModel × AgentVersionModel → Db → Type 0
  RolledBack xs v now done d =
      (b : AgentModel) × (find (is_agent id org) xs ≡ some b)
      × (done ≡ (b, v))
      × (find (is_agent id org) d.agents ≡ some (restored_agent b v now))

  restored_agent-is_agent :
      (b : AgentModel) (v : AgentVersionModel) (now : DateTime)
      → is_agent id org b ≡ true
      → is_agent id org (restored_agent b v now) ≡ true
  unfolding restored_agent
  restored_agent-is_agent b v now h = h

  same_key :
      (b : AgentModel) (v : AgentVersionModel) (now : DateTime)
      → is_agent id org b ≡ true
      → (x : AgentModel) → is_agent id org x ≡ true
      → (x.id == (restored_agent b v now).id) ≡ true
  unfolding restored_agent
  same_key b v now hb x hx = ground (arith, eq_iff b.id id, eq_iff x.id id, eq_iff x.id b.id)

  target_version-Found :
      (P : Db → Type 0) (env : Env) (c : Char) (s : String)
      → Does P
          (target_version env id (some (String.◌∷◌ c s)))
          (λ o d. P d × (find (is_version (String.◌∷◌ c s) id) d.agent_versions ≡ o))
  unfolding target_version
  target_version-Found P env c s = Does-scalar agent_versions (is_version (String.◌∷◌ c s) id)

  rollback-RolledBack :
      (env : Env) (c : Char) (s trace : String) (now : DateTime) (xs : List AgentModel)
      (v : AgentVersionModel)
      → Does
          (λ d. (d.agents ≡ xs) × (find (is_version (String.◌∷◌ c s) id) d.agent_versions ≡ some v))
          (rollback env id org (some (String.◌∷◌ c s)) trace now)
          (RolledBack xs v now)
  unfolding rollback
  rollback-RolledBack env c s trace now xs v = Does-bind _ _ (get_agent-Found id org _) λ b.
      Does-bind _ _ (target_version-Found _ env c s) λ o. Does-bind _ _ (Does-require o _) λ v'.
        Does-given {F = (find (is_agent id org) xs ≡ some b) × (v' ≡ v)} _
          (λ d
              (h : ((((d.agents ≡ xs)
                      × (find (is_version (String.◌∷◌ c s) id) d.agent_versions ≡ some v))
                    × (find (is_agent id org) d.agents ≡ some b))
                  × (find (is_version (String.◌∷◌ c s) id) d.agent_versions ≡ o))
                × (o ≡ some v')).
            (
              ap (find (is_agent id org)) (sym h.0.0.0.0) ∙ h.0.0.1,
              some_inj v' v (sym h.1 ∙ sym h.0.1 ∙ h.0.0.0.1),
            ))
          λ f.
            Does-bind _ _
              (Does-save (λ d. find (is_agent id org) d.agents ≡ some (restored_agent b v now))
                agents _
                λ d h. rw f.1 (
                  find-replace (λ x. x.id) (is_agent id org) (restored_agent b v now) d.agents b
                    h.0.0.1 (restored_agent-is_agent b v now (find-test (is_agent id org) xs b f.0))
                    (same_key b v now (find-test (is_agent id org) xs b f.0))))
              λ u.
                Does-bind _ _
                  (Does-Keeps _ (
                    Sees-emit_event env
                      (λ d. find (is_agent id org) d.agents ≡ some (restored_agent b v now))
                      (λ d rows h. h) (λ d rows h. h) _))
                  λ e. Does-pure (RolledBack xs v now) _ λ d h. (b, f.0, rw f.1 refl, h)

  publication_inj : (i j v w t u : String) → publication i v t ≡ publication j w u → (v ≡ w)
  unfolding publication
  publication_inj i j v w t u h = cc

  -- A published version can be rolled back to, whatever has happened since to the agent and
  -- whatever other versions were published: if `publish_agent` returned the version, the row under
  -- its number is still the one that was added, and `rollback_agent` to that number returns, then
  -- the agent that it finds has again the name, the template, the time zone, the language and the
  -- business hours that it had when it was published, and nothing else of it changes but the
  -- status, the published version and `updated_at`. The number of the version is not the empty
  -- text.
  pub publish_agent-rolled_back :
      (env : Env) (target trace : String) (now : DateTime) (c : Char) (s : String) (w : World)
      → (publish_agent env id org target trace now w).0
        ≡ ok (publication id (String.◌∷◌ c s) target)
      → (later : World)
      → find (is_version (String.◌∷◌ c s) id) later.disk.agent_versions
        ≡ find
            (is_version (String.◌∷◌ c s) id)
            (publish_agent env id org target trace now w).1.disk.agent_versions
      → (trace' : String) (now' : DateTime) (body : Json)
      → (rollback_agent env id org (some (String.◌∷◌ c s)) trace' now' later).0 ≡ ok body
      → (a : AgentModel) × (b : AgentModel) × (find (is_agent id org) w.disk.agents ≡ some a)
        × (find (is_agent id org) later.disk.agents ≡ some b)
        × (find
              (is_agent id org)
              (rollback_agent env id org (some (String.◌∷◌ c s)) trace' now' later).1.disk.agents
            ≡ some (with_configuration b a (String.◌∷◌ c s) now'))
  unfolding publish_agent rollback_agent
  publish_agent-rolled_back env target trace now c s w ran later versions trace' now' body ran' =
      let (v, is, made) =
        session-commits (publish env id org target trace now)
          (λ v. publication v.agent_id v.version_id v.target_environment)
          (publish-Published id org env target trace now w.disk.agents) w _ refl ran in
      let (a, here, new, kept) = made in
      let number : v.version_id ≡ String.◌∷◌ c s =
        publication_inj v.agent_id id v.version_id (String.◌∷◌ c s) v.target_environment target
          is in
      let found : find (is_version (String.◌∷◌ c s) id) later.disk.agent_versions ≡ some v =
        versions
        ∙ subst
            (λ (k : String).
              find (is_version k id)
                (publish_agent env id org target trace now w).1.disk.agent_versions
              ≡ some v)
            number kept in
      let (done, is', restored) =
        session-commits (rollback env id org (some (String.◌∷◌ c s)) trace' now')
          (λ done. publication done.0.id done.1.version_id done.1.target_environment)
          (rollback-RolledBack env c s trace' now' later.disk.agents v) later body (refl, found)
          ran' in
      let (b, there, pair, after) = restored in
      (
        a,
        b,
        here,
        there,
        after
            ∙ ap some (
                ap (λ (x : AgentVersionModel). restored_agent b x now') new
                ∙ restored_agent-new_version a b v.version_id target now now'
                ∙ ap (λ (k : String). with_configuration b a k now') number),
      )
