-- ===== src/Organizations/Methods.antt =====
-- The methods of `AgentStore` (store.py) on organizations and partners.
use real_voice_agent_free.Prelude.{
  String, ◌==◌, none, List, [], ◌∷◌, ◌++◌, map, filter, or_else, true, DateTime,
}
use real_voice_agent_free.Json.{Json, str, dict}
use real_voice_agent_free.Errors.{not_found}
use real_voice_agent_free.Env.{Env, whole}
use real_voice_agent_free.Models.{OrganizationModel, PartnerModel, PartnerAccountModel}
use real_voice_agent_free.Db.{organizations, partner_accounts}
use real_voice_agent_free.Serialize.{serialize_organization, serialize_partner}
use real_voice_agent_free.Session.{
  M, pure, ◌>>=◌, ◌>>◌, require, new_id, select, get, insert, save, commit, session,
}
use real_voice_agent_free.Webhooks.{Emission, emit_event}
use real_voice_agent_free.Organizations.Defs.{
  Words, OrganizationUpdateRequest, PartnerAccountCreateRequest, get_partner_or_404, base_slug_of,
  generate_unique_slug, check_slug, serialize_partner_account,
}

unfoldable pub get_current_organization : String → M Json
get_current_organization organization_id = session (do
  found ← get organizations organization_id
  organization ← require found (not_found "Organization not found")
  pure (serialize_organization organization))

unfoldable pub updated_organization :
    OrganizationModel → OrganizationUpdateRequest → DateTime → OrganizationModel
updated_organization organization payload now = record organization {
  name = or_else payload.name organization.name;
  slug = or_else payload.slug organization.slug;
  updated_at = now;
}

unfoldable pub update_organization : OrganizationUpdateRequest → String → DateTime → M Json
update_organization payload organization_id now = session (do
  found ← get organizations organization_id
  organization ← require found (not_found "Organization not found")
  let changed = updated_organization organization payload now
  check_slug changed
  save organizations changed
  commit
  pure (serialize_organization changed))

unfoldable pub get_partner : String → M Json
get_partner organization_id =
    session (do partner ← get_partner_or_404 organization_id; pure (serialize_partner partner))

-- The JOIN of the accounts with their organizations.
unfoldable pub joined :
    List PartnerAccountModel
    → List OrganizationModel
    → List (PartnerAccountModel × OrganizationModel)
joined [] orgs = []
joined (account ∷ accounts) orgs =
    map (λ org. (account, org)) (filter (λ o. o.id == account.organization_id) orgs)
    ++ joined accounts orgs

unfoldable pub list_partner_accounts : Env → String → M (List Json)
list_partner_accounts env organization_id = session (do
  partner ← get_partner_or_404 organization_id
  accounts ← select partner_accounts (λ a. a.partner_id == partner.id)
  orgs ← select organizations (λ o. true)
  pure (
      map (λ row. serialize_partner_account row.0 row.1)
        (env.order_desc whole (PartnerAccountModel × OrganizationModel) (λ row. row.0.created_at)
          (joined accounts orgs))))

abbrev referral : PartnerModel → PartnerAccountModel → String → DateTime → Emission
referral partner account trace_id now = record {
  organization_id = partner.organization_id;
  event_type = "partner.referral.created";
  trace_id = trace_id;
  occurred_at = now;
  source = "control_plane";
  payload = dict (
      ("partner_id", str partner.id)
      ∷ ("referral_id", str account.id)
      ∷ ("referred_account_id", str account.organization_id)
      ∷ []);
  only_webhook_id = none;
}

-- The body of `create_partner_account`, which returns the new rows.
unfoldable pub refer :
    Env
    → Words
    → PartnerAccountCreateRequest
    → String
    → String
    → DateTime
    → M (PartnerAccountModel × OrganizationModel)
refer env words payload organization_id trace_id now = do
  partner ← get_partner_or_404 organization_id
  base_slug ← base_slug_of env words payload
  slug ← generate_unique_slug words base_slug
  id ← new_id env "org_" 8
  account_id ← new_id env "pac_" 8
  let organization : OrganizationModel = record {
    id = id;
    name = payload.name;
    slug = slug;
    created_at = now;
    updated_at = now;
  }
  let account : PartnerAccountModel = record {
    id = account_id;
    partner_id = partner.id;
    organization_id = id;
    created_at = now;
  }
  check_slug organization
  insert organizations organization
  insert partner_accounts account
  emit_event env (referral partner account trace_id now)
  pure (account, organization)

unfoldable pub create_partner_account :
    Env → Words → PartnerAccountCreateRequest → String → String → DateTime → M Json
create_partner_account env words payload organization_id trace_id now = session (do
  rows ← refer env words payload organization_id trace_id now
  commit
  pure (serialize_partner_account rows.0 rows.1))
