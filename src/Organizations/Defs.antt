-- ===== src/Organizations/Defs.antt =====
-- Organizations and partners (apps/api/src/voiceagent_api/store.py): the lookups, the slugs, and the
-- requests of schemas.py. `str.strip`, `str.lower`, `str.isalnum` and `str(int)` are parameters.
use Prim.Native.Char.{code}
use Prim.Native.String
use real_voice_agent_free.Prelude.{
  ℕ, zero, suc, ◌+◌, String, ◌==◌, ◌≡◌, Bool, true, false, ◌&&◌, ◌||◌, Option, none, some, List, [],
  ◌∷◌, any, length, nat_eq, concat, text_or, or_else, aware, if◌then◌else◌,
}
use real_voice_agent_free.Json.{Json, str, datetime, dict}
use real_voice_agent_free.Errors.{not_found, integrity_error}
use real_voice_agent_free.Env.{Env}
use real_voice_agent_free.Models.{OrganizationModel, PartnerModel, PartnerAccountModel}
use real_voice_agent_free.Db.{organizations, partners}
use real_voice_agent_free.Session.{
  M, pure, fail, ◌>>=◌, require, new_id, select, scalar, count_rows,
}

pub record Words : Type 0 where
  pub strip : String → String
  pub lower : String → String
  pub is_alnum : ℕ → Bool
  pub decimal : ℕ → String

-- Two numbers are written alike only if they are the same.
pub record WritesNumbers (words : Words) : Type 0 where
  pub decimal_inj : (m n : ℕ) → words.decimal m ≡ words.decimal n → m ≡ n

pub record OrganizationUpdateRequest : Type 0 where
  pub name : Option String
  pub slug : Option String

pub record PartnerAccountCreateRequest : Type 0 where
  pub name : String
  pub slug : Option String

unfoldable pub get_partner_or_404 : String → M PartnerModel
get_partner_or_404 organization_id = do
  partner ← scalar partners (λ p. p.organization_id == organization_id && p.is_active)
  require partner (not_found "Partner not found")

-- The letters, digits and dashes of a text, where a blank counts as a dash.
unfoldable pub dashed : Words → String → String
dashed words String.[] = ""
dashed words (String.◌∷◌ c s) =
    let rest = dashed words s in
    if nat_eq (code c) 32
    then String.◌++◌ "-" rest
    else if words.is_alnum (code c) || nat_eq (code c) b'-'
    then String.◌∷◌ c rest
    else rest

abbrev non_empty_slug : Env → String → M String
non_empty_slug env slug = if slug == "" then new_id env "org-" 6 else pure slug

unfoldable pub base_slug_of : Env → Words → PartnerAccountCreateRequest → M String
base_slug_of env words payload =
    non_empty_slug env
      (dashed words (words.lower (words.strip (text_or payload.slug payload.name))))

-- The slug that the loop tries in its n-th round, from 0.
abbrev pub candidate : Words → String → ℕ → String
candidate words base_slug zero = base_slug
candidate words base_slug (suc n) = concat (base_slug ∷ "-" ∷ words.decimal (n + 2) ∷ [])

abbrev pub is_taken : String → List OrganizationModel → Bool
is_taken slug rows = any (λ o. o.slug == slug) rows

-- The loop, for so many rounds.
unfoldable pub first_free : Words → String → List OrganizationModel → ℕ → ℕ → Option String
first_free words base_slug rows zero n = none
first_free words base_slug rows (suc rounds) n =
    elim (is_taken (candidate words base_slug n) rows) [
      | true ↦ first_free words base_slug rows rounds (n + 1)
      | false ↦ some (candidate words base_slug n)
    ]

-- One round more than there are organizations, which is enough.
unfoldable pub generate_unique_slug : Words → String → M String
generate_unique_slug words base_slug = do
  rows ← select organizations (λ o. true)
  pure (or_else (first_free words base_slug rows (suc (length rows)) 0) base_slug)

-- The unique index on `organizations.slug` refuses a slug that another organization has.
unfoldable pub check_slug : OrganizationModel → M Unit
check_slug organization = do
  others ←
      count_rows organizations
        (λ o. (o.slug == organization.slug) && (if o.id == organization.id then false else true))
  if nat_eq others 0 then pure tt else fail (integrity_error organization.slug)

unfoldable pub serialize_partner_account : PartnerAccountModel → OrganizationModel → Json
serialize_partner_account model organization = dict (
    ("id", str model.id)
    ∷ ("partner_id", str model.partner_id)
    ∷ ("organization_id", str model.organization_id)
    ∷ ("organization_name", str organization.name)
    ∷ ("organization_slug", str organization.slug)
    ∷ ("created_at", datetime (aware model.created_at))
    ∷ [])
