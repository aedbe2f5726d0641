-- ===== src/Routers/Organizations.antt =====
-- The routes of apps/api/src/voiceagent_api/routers/organizations.py and partners.py.
use real_voice_agent_free.Prelude.{ℕ, ℤ, Option, List}
use real_voice_agent_free.Json.{Json}
use real_voice_agent_free.Env.{Env}
use real_voice_agent_free.Session.{M, pure, ◌>>=◌}
use real_voice_agent_free.Auth.{AuthContext}
use real_voice_agent_free.Organizations.{
  Words, OrganizationUpdateRequest, PartnerAccountCreateRequest, get_current_organization,
  update_organization, get_partner, list_partner_accounts, create_partner_account,
}
use real_voice_agent_free.Routers.Http.{Web, Incoming, once_traced}
use real_voice_agent_free.Routers.Pages.{apply_pagination}

unfoldable pub get_current_organization_route : AuthContext → M Json
get_current_organization_route auth = get_current_organization auth.organization_id

unfoldable pub update_current_organization_route : Incoming → OrganizationUpdateRequest → M Json
update_current_organization_route i payload =
    update_organization payload i.auth.organization_id i.now

unfoldable pub get_current_partner_route : AuthContext → M Json
get_current_partner_route auth = get_partner auth.organization_id

unfoldable pub list_partner_accounts_route : Env → AuthContext → Option ℤ → ℤ → M (List Json × ℕ)
list_partner_accounts_route env auth limit offset = do
  raw_items ← list_partner_accounts env auth.organization_id
  pure (apply_pagination raw_items limit offset)

unfoldable pub create_partner_account_route :
    Env → Words → Web → Incoming → PartnerAccountCreateRequest → M Json
create_partner_account_route env words web i payload =
    once_traced env web i (web.model_dump PartnerAccountCreateRequest payload)
      λ trace_id. create_partner_account env words payload i.auth.organization_id trace_id i.now
