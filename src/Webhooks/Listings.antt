-- ===== src/Webhooks/Listings.antt =====
-- The methods of `AgentStore` (store.py) that list events, subscriptions and deliveries.
use real_voice_agent_free.Prelude.{ℕ, String, ◌==◌, List, map, page, false}
use real_voice_agent_free.Json.{Json}
use real_voice_agent_free.Env.{Env, whole, limited}
use real_voice_agent_free.Models.{EventModel, WebhookSubscriptionModel, WebhookDeliveryModel}
use real_voice_agent_free.Db.{events, webhook_subscriptions, webhook_deliveries}
use real_voice_agent_free.Serialize.{serialize_event, serialize_delivery}
use real_voice_agent_free.Session.{M, pure, ◌>>=◌, ◌>>◌, select, count_rows, session}
use real_voice_agent_free.Webhooks.Defs.{get_webhook_or_404}
use real_voice_agent_free.Webhooks.Methods.{serialize_webhook}

unfoldable pub list_events : Env → String → M (List Json)
list_events env organization_id = session (do
  found ← select events (λ e. e.tenant_id == organization_id)
  pure (map serialize_event (env.order_desc whole EventModel (λ e. e.occurred_at) found)))

unfoldable pub list_events_paginated : Env → String → ℕ → ℕ → M (List Json × ℕ)
list_events_paginated env organization_id limit offset = session (do
  total ← count_rows events (λ e. e.tenant_id == organization_id)
  found ← select events (λ e. e.tenant_id == organization_id)
  pure (
    map serialize_event (
        page limit offset
          (env.order_desc (limited limit offset) EventModel (λ e. e.occurred_at) found)),
    total,
  ))

unfoldable pub list_webhooks : Env → String → M (List Json)
list_webhooks env organization_id = session (do
  found ← select webhook_subscriptions (λ h. h.organization_id == organization_id)
  pure (
      map (λ h. serialize_webhook h false)
        (env.order_asc whole WebhookSubscriptionModel (λ h. h.created_at) found)))

unfoldable pub list_webhooks_paginated : Env → String → ℕ → ℕ → M (List Json × ℕ)
list_webhooks_paginated env organization_id limit offset = session (do
  total ← count_rows webhook_subscriptions (λ h. h.organization_id == organization_id)
  found ← select webhook_subscriptions (λ h. h.organization_id == organization_id)
  pure (
    map (λ h. serialize_webhook h false)
        (page limit offset (
          env.order_asc (limited limit offset) WebhookSubscriptionModel (λ h. h.created_at) found)),
    total,
  ))

unfoldable pub list_webhook_deliveries : Env → String → String → M (List Json)
list_webhook_deliveries env webhook_id organization_id = session (do
  get_webhook_or_404 webhook_id organization_id
  found ← select webhook_deliveries (λ d. d.webhook_id == webhook_id)
  pure (
      map serialize_delivery (env.order_desc whole WebhookDeliveryModel (λ d. d.created_at) found)))
