-- ===== src/Webhooks/Methods.antt =====
-- The webhook methods of `AgentStore` (store.py): subscriptions, the delivery queue, retries.
use real_voice_agent_free.Prelude.{
  ℕ, ◌+◌, min, max, String, ◌==◌, Bool, true, false, ◌&&◌, Option, none, some, List, [], ◌∷◌, ◌++◌,
  any, take, leb, nat_eq, DateTime, or_else, aware, if◌then◌else◌,
}
use real_voice_agent_free.Json.{Json, str, datetime, bool, dict, null}
use real_voice_agent_free.Errors.{not_found}
use real_voice_agent_free.Env.{Env, whole, Settings}
use real_voice_agent_free.Models.{
  DeliveryStatus, EventModel, WebhookSubscriptionModel, WebhookDeliveryModel,
}
use real_voice_agent_free.Db.{events, webhook_subscriptions, webhook_deliveries}
use real_voice_agent_free.Serialize.{serialize_event, serialize_delivery}
use real_voice_agent_free.Serialize.Values.{strings, delivery_status_text}
use real_voice_agent_free.Session.{
  M, pure, ◌>>=◌, ◌>>◌, require, new_id, select, get, insert, save, commit, session,
}
use real_voice_agent_free.Webhooks.Defs.{
  get_webhook_or_404, get_webhook_delivery_or_404, attempt_webhook_delivery, Emission,
  FirstDelivery, emit_event,
}

abbrev webhook_fields : WebhookSubscriptionModel → List (String × Json)
webhook_fields model =
    ("id", str model.id)
    ∷ ("target_url", str model.target_url)
    ∷ ("event_types", strings model.event_types)
    ∷ ("is_active", bool model.is_active)
    ∷ ("created_at", datetime (aware model.created_at))
    ∷ ("updated_at", datetime (aware model.updated_at))
    ∷ []

unfoldable pub serialize_webhook : WebhookSubscriptionModel → Bool → Json
serialize_webhook model include_secret = dict (
    if include_secret
    then webhook_fields model ++ ("secret", str model.secret) ∷ []
    else webhook_fields model)

unfoldable pub create_webhook : Env → String → List String → String → DateTime → M Json
create_webhook env target_url event_types organization_id now = do
  id ← new_id env "wh_" 8
  secret ← new_id env "whsec_" 16
  let hook : WebhookSubscriptionModel = record {
    id = id;
    organization_id = organization_id;
    target_url = target_url;
    event_types = event_types;
    secret = secret;
    is_active = true;
    created_at = now;
    updated_at = now;
  }
  session (do insert webhook_subscriptions hook; commit; pure (serialize_webhook hook true))

unfoldable pub delete_webhook : String → String → DateTime → M Json
delete_webhook webhook_id organization_id now = session (do
  hook ← get_webhook_or_404 webhook_id organization_id
  save webhook_subscriptions (record hook { is_active = false; updated_at = now })
  commit
  pure (serialize_webhook (record hook { is_active = false; updated_at = now }) false))

-- Which deliveries are due: the JOIN and the WHERE clause of the queue's query.
unfoldable pub is_due :
    String → DateTime → List WebhookSubscriptionModel → WebhookDeliveryModel → Bool
is_due organization_id now hooks d =
    any (λ h. (h.id == d.webhook_id) && (h.organization_id == organization_id) && h.is_active) hooks
    && elim d.status [
      | DeliveryStatus.pending ↦ true
      | DeliveryStatus.retry_scheduled ↦ true
      | _ ↦ false
    ]
    && elim d.next_attempt_at [ none ↦ true | some t ↦ leb t now ]

unfoldable pub batch_size : Settings → Option ℕ → ℕ
batch_size settings limit =
    let asked : ℕ =
      if nat_eq (or_else limit 0) 0
      then settings.webhook_delivery_batch_size
      else or_else limit 0 in
    max 1 (min asked 100)

-- The row of a delivery that has lost its subscription or its event.
abbrev pub orphaned : WebhookDeliveryModel → DateTime → WebhookDeliveryModel
orphaned delivery now = record delivery {
  status = DeliveryStatus.failed;
  last_attempt_at = some now;
  next_attempt_at = none;
  last_error = some "Missing webhook subscription or event";
}

unfoldable pub process_found :
    Env
    → DateTime
    → WebhookDeliveryModel
    → Option WebhookSubscriptionModel
    → Option EventModel
    → M WebhookDeliveryModel
process_found env now delivery (some hook) (some event) =
    attempt_webhook_delivery env delivery hook (serialize_event event) now
process_found env now delivery _ _ = do
  save webhook_deliveries (orphaned delivery now)
  pure (orphaned delivery now)

unfoldable pub process_one : Env → DateTime → WebhookDeliveryModel → M WebhookDeliveryModel
process_one env now delivery = do
  hook ← get webhook_subscriptions delivery.webhook_id
  event ← get events delivery.event_id
  process_found env now delivery hook event

-- What `process_webhook_deliveries` returns.
pub record Report : Type 0 where
  pub processed : ℕ
  pub delivered : ℕ
  pub retry_scheduled : ℕ
  pub failed : ℕ
  pub items : List Json

abbrev pub no_report : Report
no_report = record { processed = 0; delivered = 0; retry_scheduled = 0; failed = 0; items = [] }

-- One round of the loop's bookkeeping; `processed` is the length of `items`.
unfoldable pub tally : WebhookDeliveryModel → Report → Report
tally d r = record {
  processed = r.processed + 1;
  delivered = elim d.status [ DeliveryStatus.delivered ↦ r.delivered + 1 | _ ↦ r.delivered ];
  retry_scheduled = elim d.status [
    | DeliveryStatus.retry_scheduled ↦ r.retry_scheduled + 1
    | _ ↦ r.retry_scheduled
  ];
  failed = elim d.status [
    | DeliveryStatus.delivered ↦ r.failed
    | DeliveryStatus.retry_scheduled ↦ r.failed
    | _ ↦ r.failed + 1
  ];
  items = r.items ++ serialize_delivery d ∷ [];
}

unfoldable pub process_all : Env → DateTime → Report → List WebhookDeliveryModel → M Report
process_all env now report [] = pure report
process_all env now report (delivery ∷ deliveries) =
    process_one env now delivery >>= λ d. process_all env now (tally d report) deliveries

unfoldable pub process_webhook_deliveries : Env → String → DateTime → Option ℕ → M Report
process_webhook_deliveries env organization_id now limit = session (do
  hooks ← select webhook_subscriptions (λ h. true)
  due ← select webhook_deliveries (is_due organization_id now hooks)
  report ← process_all env now no_report (
      take (batch_size env.settings limit)
        (env.order_asc whole WebhookDeliveryModel (λ d. d.created_at) due))
  commit
  pure report)

-- A delivery that has arrived is not sent again.
unfoldable pub retry_found :
    Env
    → DateTime
    → WebhookDeliveryModel
    → WebhookSubscriptionModel
    → EventModel
    → DeliveryStatus
    → M WebhookDeliveryModel
retry_found env now delivery hook event DeliveryStatus.delivered = pure delivery
retry_found env now delivery hook event _ = do
  d ← attempt_webhook_delivery env delivery hook (serialize_event event) now
  commit
  pure d

unfoldable pub retry_webhook_delivery : Env → String → String → String → DateTime → M Json
retry_webhook_delivery env webhook_id delivery_id organization_id now = session (do
  hook ← get_webhook_or_404 webhook_id organization_id
  delivery ← get_webhook_delivery_or_404 webhook_id delivery_id
  found ← get events delivery.event_id
  event ← require found (not_found "Event not found")
  d ← retry_found env now delivery hook event delivery.status
  pure (serialize_delivery d))

abbrev pub test_emission : WebhookSubscriptionModel → String → String → String → DateTime → Emission
test_emission hook webhook_id organization_id trace_id now = record {
  organization_id = organization_id;
  event_type = "webhook.test";
  trace_id = trace_id;
  occurred_at = now;
  source = "control_plane";
  payload = dict (("webhook_id", str webhook_id) ∷ ("target_url", str hook.target_url) ∷ []);
  only_webhook_id = some webhook_id;
}

abbrev delivery_report : FirstDelivery → List (String × Json)
delivery_report none = ("delivery_id", null) ∷ ("status", str "simulated") ∷ []
delivery_report (some (id, status)) =
    ("delivery_id", str id) ∷ ("status", str (delivery_status_text status)) ∷ []

unfoldable pub test_webhook : Env → String → String → String → DateTime → M Json
test_webhook env webhook_id organization_id trace_id now = session (do
  hook ← get_webhook_or_404 webhook_id organization_id
  emitted ← emit_event env (test_emission hook webhook_id organization_id trace_id now)
  commit
  pure (
      dict
        (("webhook_id", str webhook_id) ∷ ("event_id", str emitted.0) ∷ delivery_report emitted.1)))
