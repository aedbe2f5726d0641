-- ===== src/Resources/Integrations.antt =====
-- An integration that was connected (store.py, `connect_integration`, `test_integration`).
use real_voice_agent_free.Prelude.{
  String, ◌==◌, ◌≡◌, refl, Bool, true, Option, none, some, List, [], ◌∷◌, find, find-test,
  find-append, DateTime, aware, eq_refl, Bool-cases, inl, inr,
}
use real_voice_agent_free.Json.{Json, str, datetime, dict}
use real_voice_agent_free.Errors.{ok}
use real_voice_agent_free.Env.{Env}
use real_voice_agent_free.Models.{IntegrationModel}
use real_voice_agent_free.Db.{Db, integrations}
use real_voice_agent_free.Serialize.{serialize_integration}
use real_voice_agent_free.Session.{
  World, pure, ◌>>=◌, scalar, require, save, commit, session, replace,
}
use real_voice_agent_free.Session.Does.{
  Does, Does-bind, Does-scalar, Does-before, Does-new_id, Does-save, Does-insert, Does-pure,
  session-commits,
}
use real_voice_agent_free.Organizations.{Words}
use real_voice_agent_free.Resources.Methods.{
  normalized, is_integration, connected, put_integration, connect, connect_integration,
  integration_report, test_integration,
}

find-replaced :
    {A : Type 0} (key : A → String) (p : A → Bool) (r a : A) (xs : List A)
    → find p xs ≡ some a
    → p r ≡ true
    → (key a == key r) ≡ true
    → find p (replace key r xs) ≡ some r
find-replaced key p r a [] h t same = absurd (cc)
find-replaced key p r a (x ∷ xs) h t same = elim (Bool-cases (key x == key r)) [
  | inl e ↦ rw e (rw t refl)
  | inr e ↦ elim (Bool-cases (p x)) [
    | inl here ↦ let is : some x ≡ some a = rw here at h in absurd (let x_is : x ≡ a = cc in cc)
    | inr there ↦ rw e (rw there (find-replaced key p r a xs (rw there at h) t same))
  ]
]

module _ (org provider : String) (config : Json) where
  -- The integration stands in the table, connected, with its configuration.
  abbrev Connected : IntegrationModel → Db → Type 0
  Connected i d =
      (find (is_integration org provider) d.integrations ≡ some i)
      × (i.status ≡ "connected")
      × (i.config ≡ config)

  connected-is_integration :
      (id : String) (now : DateTime)
      → is_integration org provider (connected id org provider config now none) ≡ true
  unfolding connected
  connected-is_integration id now = rw (eq_refl org, eq_refl provider) refl

  put_integration-Connected :
      (env : Env) (now : DateTime) (found : Option IntegrationModel)
      → Does
          (λ d. find (is_integration org provider) d.integrations ≡ found)
          (put_integration env org provider config now found)
          Connected
  unfolding put_integration connected
  put_integration-Connected env now none = Does-bind _ _ (Does-new_id env "int_" 8) λ id.
      let new = connected id org provider config now none in
      Does-bind _ _
        (Does-insert (Connected new) integrations new λ d h free. (
          find-append (is_integration org provider) d.integrations new h
              (connected-is_integration id now),
          refl,
          refl,
        ))
        λ u. Does-pure Connected new λ d h. h
  put_integration-Connected env now (some i) =
      let changed = connected i.id org provider config now (some i) in
      Does-bind _ _
        (Does-save (Connected changed) integrations changed λ d h. (
          find-replaced (λ x. x.id) (is_integration org provider) changed i d.integrations h
              (find-test (is_integration org provider) d.integrations i h) (eq_refl i.id),
          refl,
          refl,
        ))
        λ u. Does-pure Connected changed λ d h. h

  connect-Connected :
      (env : Env) (now : DateTime)
      → Does (λ d. Unit) (connect env provider org config now) Connected
  unfolding connect
  connect-Connected env now =
      Does-bind _ _ (Does-scalar integrations (is_integration org provider))
        λ found. Does-before _ (λ d h. h.1) (put_integration-Connected env now found)

-- What test_integration does where the table holds the integration: it reports on it, and the row
-- keeps all but the times of its last test and of its last change, in place of the old one.
test_integration-Tested :
    (words : Words) (spelling org : String) (now : DateTime) (w : World) (i : IntegrationModel)
    → find (is_integration org (normalized words spelling)) w.disk.integrations ≡ some i
    → ((test_integration words spelling org now w).0
        ≡ ok (integration_report (normalized words spelling) i now))
      × (find
            (is_integration org (normalized words spelling))
            (test_integration words spelling org now w).1.disk.integrations
          ≡ some (record i { last_tested_at = some now; updated_at = now }))
unfolding test_integration session scalar require save commit pure ◌>>=◌
test_integration-Tested words spelling org now w i found = rw found (
  refl,
  find-replaced (λ x. x.id) (is_integration org (normalized words spelling))
      (record i { last_tested_at = some now; updated_at = now }) i w.disk.integrations found
      (find-test (is_integration org (normalized words spelling)) w.disk.integrations i found)
      (eq_refl i.id),
)

-- Once connect_integration has returned, for a provider that was connected before or not, its answer
-- is the integration that the table holds for the provider: connected, with the given
-- configuration. test_integration of any spelling of the provider that is normalized alike then
-- reports `healthy` and the status `connected` at the time of the test, and the table holds that
-- integration with this time as that of its last test and of its last change.
pub connect_integration-tested :
    (env : Env) (words : Words) (provider spelling : String) (config : Json) (org : String)
    (now now' : DateTime) (w : World) (body : Json)
    → normalized words spelling ≡ normalized words provider
    → (connect_integration env words provider config org now w).0 ≡ ok body
    → let w' = (connect_integration env words provider config org now w).1 in
      let tested = test_integration words spelling org now' w' in
      (i : IntegrationModel) × (serialize_integration i ≡ body)
      × (find (is_integration org (normalized words provider)) w'.disk.integrations ≡ some i)
      × (i.status ≡ "connected")
      × (i.config ≡ config)
      × (tested.0
          ≡ ok (
              dict (
                ("provider", str (normalized words provider))
                ∷ ("status", str "healthy")
                ∷ ("checked_at", datetime (aware now'))
                ∷ ("details", dict (("connection", str "connected") ∷ []))
                ∷ [])))
      × (find (is_integration org (normalized words provider)) tested.1.disk.integrations
          ≡ some (record i { last_tested_at = some now'; updated_at = now' }))
unfolding connect_integration integration_report
connect_integration-tested env words provider spelling config org now now' w body same ran =
    let (i, is, (found, status, kept)) =
      session-commits (connect env (normalized words provider) org config now) serialize_integration
        (connect-Connected org (normalized words provider) config env now) w body tt ran in
    let w' = (connect_integration env words provider config org now w).1 in
    let (reports, holds) = test_integration-Tested words spelling org now' w' i (rw same found) in
    (i, is, found, status, kept, rw same at (rw status at reports), rw same at holds)
