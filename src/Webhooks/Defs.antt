-- ===== src/Webhooks/Defs.antt =====
-- Webhook deliveries (apps/api/src/voiceagent_api/store.py): one attempt, and the fan-out of an
-- event to the subscriptions of its organization.
use real_voice_agent_free.Prelude.{
  ℕ, ◌+◌, ◌-◌, ◌*◌, ◌^◌, max, String, ◌==◌, Bool, true, ◌&&◌, ◌||◌, Option, none, some, List, [],
  ◌∷◌, any, leb, ltb, seconds, DateTime, is_some, if◌then◌else◌,
}
use real_voice_agent_free.Json.{Json}
use real_voice_agent_free.Errors.{not_found, overflow_error}
use real_voice_agent_free.Env.{Env, Settings, DispatchStatus, DeliveryResult}
use real_voice_agent_free.Models.{
  DeliveryStatus, EventModel, WebhookSubscriptionModel, WebhookDeliveryModel,
}
use real_voice_agent_free.Db.{events, webhook_subscriptions, webhook_deliveries}
use real_voice_agent_free.Serialize.{serialize_event}
use real_voice_agent_free.Session.{
  M, pure, fail, ◌>>=◌, ◌>>◌, require, new_id, select, scalar, insert, save,
}

-- the lookups that raise NotFoundError
unfoldable pub get_webhook_or_404 : String → String → M WebhookSubscriptionModel
get_webhook_or_404 webhook_id organization_id = do
  hook ←
      scalar webhook_subscriptions (λ h. h.id == webhook_id && h.organization_id == organization_id)
  require hook (not_found "Webhook not found")

unfoldable pub get_webhook_delivery_or_404 : String → String → M WebhookDeliveryModel
get_webhook_delivery_or_404 webhook_id delivery_id = do
  delivery ← scalar webhook_deliveries (λ d. d.id == delivery_id && d.webhook_id == webhook_id)
  require delivery (not_found "Webhook delivery not found")

-- When to try again after `attempt_count` attempts, if at all.
unfoldable pub next_webhook_attempt_at : Settings → ℕ → DateTime → Option DateTime
next_webhook_attempt_at settings attempt_count now =
    if leb settings.webhook_max_attempts attempt_count
    then none
    else (let multiplier = 2 ^ max 0 (attempt_count - 1) in
        let delay_seconds = max 1 settings.webhook_retry_backoff_seconds * multiplier in
        some (now + seconds delay_seconds))

-- The row after an attempt, from what the dispatcher returned.
unfoldable pub settle :
    Settings → WebhookDeliveryModel → DeliveryResult → DateTime → WebhookDeliveryModel
settle settings delivery result attempted_at =
    let attempt_count = delivery.attempt_count + 1 in
    let retry_at = next_webhook_attempt_at settings attempt_count attempted_at in
    elim result.status [
      | DispatchStatus.delivered ↦ record delivery {
        attempt_count = attempt_count;
        response_code = result.response_code;
        response_body = result.response_body;
        last_attempt_at = some attempted_at;
        status = DeliveryStatus.delivered;
        delivered_at = some attempted_at;
        next_attempt_at = none;
        last_error = none;
      }
      | DispatchStatus.failed ↦ record delivery {
        attempt_count = attempt_count;
        response_code = result.response_code;
        response_body = result.response_body;
        last_attempt_at = some attempted_at;
        delivered_at = none;
        last_error = result.response_body;
        next_attempt_at = retry_at;
        status = if is_some retry_at then DeliveryStatus.retry_scheduled else DeliveryStatus.failed;
      }
    ]

unfoldable pub dispatch : Env → String → String → Json → M DeliveryResult
dispatch env target_url secret event w =
    let (r, posts) = env.dispatcher target_url secret event w.posts in
    (r, record w { posts = posts })

-- `now + timedelta(...)`, in `_next_webhook_attempt_at`, raises past the last datetime. It is reached
-- where the dispatcher's answer is a failure.
unfoldable pub check_overflow : Env → DispatchStatus → Option DateTime → M Unit
check_overflow env DispatchStatus.failed (some retry_at) =
    if ltb env.last_datetime retry_at then fail overflow_error else pure tt
check_overflow env _ _ = pure tt

unfoldable pub attempt_webhook_delivery :
    Env → WebhookDeliveryModel → WebhookSubscriptionModel → Json → DateTime → M WebhookDeliveryModel
attempt_webhook_delivery env delivery hook event attempted_at = do
  result ← dispatch env hook.target_url hook.secret event
  check_overflow env result.status
      (next_webhook_attempt_at env.settings (delivery.attempt_count + 1) attempted_at)
  save webhook_deliveries (settle env.settings delivery result attempted_at)
  pure (settle env.settings delivery result attempted_at)

-- The arguments of `_emit_event` beside the session.
pub record Emission : Type 0 where
  pub organization_id : String
  pub event_type : String
  pub trace_id : String
  pub occurred_at : DateTime
  pub source : String
  pub payload : Json
  pub only_webhook_id : Option String

abbrev pub new_event : String → Emission → EventModel
new_event event_id e = record {
  event_id = event_id;
  event_type = e.event_type;
  event_version = "v1";
  occurred_at = e.occurred_at;
  trace_id = e.trace_id;
  tenant_id = e.organization_id;
  source = e.source;
  payload = e.payload;
}

abbrev pub new_delivery : String → String → String → Emission → WebhookDeliveryModel
new_delivery delivery_id webhook_id event_id e = record {
  id = delivery_id;
  webhook_id = webhook_id;
  event_id = event_id;
  event_type = e.event_type;
  status = DeliveryStatus.pending;
  attempt_count = 0;
  response_code = none;
  response_body = none;
  last_attempt_at = none;
  next_attempt_at = some e.occurred_at;
  last_error = none;
  delivered_at = none;
  created_at = e.occurred_at;
}

-- the WHERE clause of the hooks query
unfoldable pub listens : Emission → WebhookSubscriptionModel → Bool
listens e hook =
    hook.is_active
    && (hook.organization_id == e.organization_id)
    && elim e.only_webhook_id [ none ↦ true | some webhook_id ↦ hook.id == webhook_id ]

unfoldable pub subscribed : Emission → WebhookSubscriptionModel → Bool
subscribed e hook =
    is_some e.only_webhook_id
    || any (λ t. t == "*") hook.event_types
    || any (λ t. t == e.event_type) hook.event_types

-- One round of the loop over the hooks: a delivery is created and tried at once.
unfoldable pub deliver_to :
    Env → Emission → String → Json → WebhookSubscriptionModel → M WebhookDeliveryModel
deliver_to env e event_id event_body hook = do
  delivery_id ← new_id env "wd_" 8
  insert webhook_deliveries (new_delivery delivery_id hook.id event_id e)
  attempt_webhook_delivery env (new_delivery delivery_id hook.id event_id e) hook event_body
      e.occurred_at

-- The loop, with the first delivery and its status so far.
abbrev pub FirstDelivery : Type 0
FirstDelivery = Option (String × DeliveryStatus)

abbrev pub first_or : FirstDelivery → WebhookDeliveryModel → FirstDelivery
first_or none delivery = some (delivery.id, delivery.status)
first_or (some f) delivery = some f

unfoldable pub deliver_all :
    Env → Emission → String → Json → FirstDelivery → List WebhookSubscriptionModel → M FirstDelivery
deliver_all env e event_id event_body first [] = pure first
deliver_all env e event_id event_body first (hook ∷ hooks) =
    if subscribed e hook
    then (deliver_to env e event_id event_body hook >>= λ delivery.
        deliver_all env e event_id event_body (first_or first delivery) hooks)
    else deliver_all env e event_id event_body first hooks

unfoldable pub emit_event : Env → Emission → M (String × FirstDelivery)
emit_event env e = do
  event_id ← new_id env "evt_" 10
  insert events (new_event event_id e)
  hooks ← select webhook_subscriptions (listens e)
  first ← deliver_all env e event_id (serialize_event (new_event event_id e)) none hooks
  pure (event_id, first)
