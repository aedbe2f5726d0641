-- ===== src/Routers/Accounts.antt =====
-- The routes of apps/api/src/voiceagent_api/routers/api_keys.py and billing.py that list, and the
-- one that revokes an API key.
use real_voice_agent_free.Prelude.{ℕ, ℤ, String, Option, List}
use real_voice_agent_free.Json.{Json}
use real_voice_agent_free.Env.{Env}
use real_voice_agent_free.Session.{M, pure, ◌>>=◌}
use real_voice_agent_free.Auth.{AuthContext, list_api_keys, delete_api_key}
use real_voice_agent_free.Billing.{list_plans, list_subscriptions, list_licenses}
use real_voice_agent_free.Routers.Pages.{apply_pagination}

unfoldable pub list_api_keys_route : Env → AuthContext → Option ℤ → ℤ → M (List Json × ℕ)
list_api_keys_route env auth limit offset = do
  raw_items ← list_api_keys env auth.organization_id
  pure (apply_pagination raw_items limit offset)

unfoldable pub delete_api_key_route : AuthContext → String → M Json
delete_api_key_route auth key_id = delete_api_key key_id auth.organization_id

unfoldable pub list_plans_route : Env → Option ℤ → ℤ → M (List Json × ℕ)
list_plans_route env limit offset = do
  raw_items ← list_plans env
  pure (apply_pagination raw_items limit offset)

unfoldable pub list_subscriptions_route : Env → AuthContext → Option ℤ → ℤ → M (List Json × ℕ)
list_subscriptions_route env auth limit offset = do
  raw_items ← list_subscriptions env auth.organization_id
  pure (apply_pagination raw_items limit offset)

unfoldable pub list_licenses_route : Env → AuthContext → Option ℤ → ℤ → M (List Json × ℕ)
list_licenses_route env auth limit offset = do
  raw_items ← list_licenses env auth.organization_id
  pure (apply_pagination raw_items limit offset)
