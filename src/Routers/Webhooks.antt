-- ===== src/Routers/Webhooks.antt =====
-- The routes of apps/api/src/voiceagent_api/routers/webhooks.py and of events.py.
use real_voice_agent_free.Prelude.{ℕ, ℤ, pos, negsuc, max, min, String, Option, some, List, [], ◌∷◌}
use real_voice_agent_free.Json.{Json, str, dict}
use real_voice_agent_free.Env.{Env}
use real_voice_agent_free.Session.{M, pure, ◌>>=◌}
use real_voice_agent_free.Auth.{AuthContext}
use real_voice_agent_free.Routers.Http.{Web, Incoming, once, once_traced}
use real_voice_agent_free.Routers.Pages.{apply_pagination, normalize_pagination}
use real_voice_agent_free.Webhooks.{
  Report, list_events_paginated, list_webhooks_paginated, create_webhook, delete_webhook,
  list_webhook_deliveries, process_webhook_deliveries, retry_webhook_delivery, test_webhook,
}

unfoldable pub list_webhooks_route : Env → AuthContext → Option ℤ → ℤ → M (List Json × ℕ)
list_webhooks_route env auth limit offset =
    let effective = normalize_pagination limit offset in
    list_webhooks_paginated env auth.organization_id effective.0 effective.1

unfoldable pub delete_webhook_route : Incoming → String → M Json
delete_webhook_route i webhook_id = delete_webhook webhook_id i.auth.organization_id i.now

pub record WebhookCreateRequest : Type 0 where
  pub target_url : String
  pub event_types : List String

unfoldable pub create_webhook_route : Env → Web → Incoming → WebhookCreateRequest → M Json
create_webhook_route env web i payload =
    once env web i (web.model_dump WebhookCreateRequest payload)
      (create_webhook env payload.target_url payload.event_types i.auth.organization_id i.now)

-- The page is cut twice, the second time with what the first normalization gave.
unfoldable pub list_webhook_deliveries_route :
    Env → AuthContext → String → Option ℤ → ℤ → M (List Json × ℕ)
list_webhook_deliveries_route env auth webhook_id limit offset = do
  raw_items ← list_webhook_deliveries env webhook_id auth.organization_id
  let effective = normalize_pagination limit offset
  pure (apply_pagination raw_items (some (pos effective.0)) (pos effective.1))

-- `max(1, min(limit, 100))`
abbrev batch_limit : ℤ → ℕ
batch_limit (pos limit) = max 1 (min limit 100)
batch_limit (negsuc n) = 1

unfoldable pub process_webhook_deliveries_route : Env → Incoming → ℤ → M Report
process_webhook_deliveries_route env i limit =
    process_webhook_deliveries env i.auth.organization_id i.now (some (batch_limit limit))

unfoldable pub retry_webhook_delivery_route : Env → Web → Incoming → String → String → M Json
retry_webhook_delivery_route env web i webhook_id delivery_id =
    once env web i (dict (("webhook_id", str webhook_id) ∷ ("delivery_id", str delivery_id) ∷ []))
      (retry_webhook_delivery env webhook_id delivery_id i.auth.organization_id i.now)

unfoldable pub test_webhook_route : Env → Web → Incoming → String → M Json
test_webhook_route env web i webhook_id =
    once_traced env web i (dict (("webhook_id", str webhook_id) ∷ []))
      λ trace_id. test_webhook env webhook_id i.auth.organization_id trace_id i.now

unfoldable pub list_events_route : Env → AuthContext → Option ℤ → ℤ → M (List Json × ℕ)
list_events_route env auth limit offset =
    let effective = normalize_pagination limit offset in
    list_events_paginated env auth.organization_id effective.0 effective.1
