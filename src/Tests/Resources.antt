-- ===== src/Tests/Resources.antt =====
-- Instances of the theorems on organizations and integrations.
use real_voice_agent_free.Prelude.{
  ℕ, zero, suc, String, ◌≡◌, refl, sym, ap, ◌∙◌, true, false, none, some, [], ◌∷◌, text_length,
  find, aware,
}
use real_voice_agent_free.Json.{null, str, datetime, dict}
use real_voice_agent_free.Errors.{ok}
use real_voice_agent_free.Env.{Env}
use real_voice_agent_free.Models.{OrganizationModel, IntegrationModel}
use real_voice_agent_free.Serialize.{serialize_integration}
use real_voice_agent_free.Session.{
  World, ◌>>=◌, pure, new_id, select, scalar, insert, commit, session,
}
use real_voice_agent_free.Organizations.{
  Words, WritesNumbers, candidate, is_taken, generate_unique_slug, first_free,
}
use real_voice_agent_free.Organizations.Slugs.{generate_unique_slug-free}
use real_voice_agent_free.Resources.{
  connect_integration, connect, put_integration, connected, is_integration, test_integration,
}
use real_voice_agent_free.Resources.Integrations.{connect_integration-tested}
use real_voice_agent_free.Tests.World.{env_with, accepted, db, world_of}

abbrev env : Env
env = env_with accepted

-- Numbers, written as so many strokes.
abbrev strokes : ℕ → String
strokes zero = ""
strokes (suc n) = String.◌∷◌ "1" (strokes n)

length-strokes : (n : ℕ) → text_length (strokes n) ≡ n
length-strokes zero = refl
length-strokes (suc n) = ap suc (length-strokes n)

abbrev words : Words
words = record { strip = λ s. s; lower = λ s. s; is_alnum = λ c. true; decimal = strokes }

words-WritesNumbers : WritesNumbers words
words-WritesNumbers = record {
  decimal_inj = λ m n h. sym (length-strokes m) ∙ ap text_length h ∙ length-strokes n;
}

abbrev clinic : OrganizationModel
clinic = record { id = "org_1"; name = "Clinic"; slug = "clinic"; created_at = 1; updated_at = 1 }

abbrev two_clinics : World
two_clinics =
    world_of (record db {
      organizations = clinic ∷ record clinic { id = "org_2"; slug = "clinic-11" } ∷ [];
    })

generate_unique_slug-free_example :
    (slug : String) × ((generate_unique_slug words "clinic" two_clinics).0 ≡ ok slug)
    × (is_taken slug two_clinics.view.organizations ≡ false)
    × ((k : ℕ) × (slug ≡ candidate words "clinic" k))
generate_unique_slug-free_example =
    generate_unique_slug-free words words-WritesNumbers "clinic" two_clinics

third_slug : (generate_unique_slug words "clinic" two_clinics).0 ≡ ok "clinic-111"
unfolding generate_unique_slug first_free select pure ◌>>=◌
third_slug = refl

abbrev calendar : IntegrationModel
calendar = record {
  id = "int_00000000";
  organization_id = "org_default";
  provider = "calendar";
  status = "connected";
  config = null;
  last_tested_at = none;
  created_at = 7;
  updated_at = 7;
}

abbrev start : World
start = world_of db

connect-ok :
    (connect_integration env words "calendar" null "org_default" 7 start).0
    ≡ ok (serialize_integration calendar)
unfolding connect_integration connect put_integration connected session new_id scalar insert commit
    pure ◌>>=◌
connect-ok = refl

connect_integration-tested_example :
    let w' = (connect_integration env words "calendar" null "org_default" 7 start).1 in
    let tested = test_integration words "calendar" "org_default" 9 w' in
    (i : IntegrationModel) × (serialize_integration i ≡ serialize_integration calendar)
    × (find (is_integration "org_default" "calendar") w'.disk.integrations ≡ some i)
    × (i.status ≡ "connected")
    × (i.config ≡ null)
    × (tested.0
        ≡ ok (
            dict (
              ("provider", str "calendar")
              ∷ ("status", str "healthy")
              ∷ ("checked_at", datetime (aware 9))
              ∷ ("details", dict (("connection", str "connected") ∷ []))
              ∷ [])))
    × (find (is_integration "org_default" "calendar") tested.1.disk.integrations
        ≡ some (record i { last_tested_at = some 9; updated_at = 9 }))
connect_integration-tested_example =
    connect_integration-tested env words "calendar" "calendar" null "org_default" 7 9 start
      (serialize_integration calendar) refl connect-ok
