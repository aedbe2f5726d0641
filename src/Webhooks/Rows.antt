-- ===== src/Webhooks/Rows.antt =====
-- The rows of deliveries under the methods of store.py: each method keeps them valid.
use real_voice_agent_free.Prelude.{ℕ, String, refl, List, [], ◌∷◌, DateTime, inl, inr, Bool-cases}
use real_voice_agent_free.Json.{Json}
use real_voice_agent_free.Env.{Env}
use real_voice_agent_free.Models.{
  DeliveryStatus, EventModel, WebhookSubscriptionModel, WebhookDeliveryModel,
}
use real_voice_agent_free.Db.{events, webhook_subscriptions, webhook_deliveries}
use real_voice_agent_free.Session.{World, M, save, insert, new_id, commit, session}
use real_voice_agent_free.Session.Keeps.{
  Keeps, Holds, keeps_rules, Keeps-bind, Holds-insert, Holds-save, Holds-commit, Holds-new_id,
  Holds-session, Holds-insert_apart, Holds-save_apart,
}
use real_voice_agent_free.Webhooks.Overflow.{Keeps-check_overflow}
use real_voice_agent_free.Webhooks.Defs.{
  get_webhook_or_404, get_webhook_delivery_or_404, dispatch, attempt_webhook_delivery, Emission,
  FirstDelivery, new_delivery, subscribed, deliver_to, deliver_all, emit_event,
}
use real_voice_agent_free.Webhooks.Methods.{
  create_webhook, delete_webhook, retry_found, retry_webhook_delivery, test_webhook,
}
use real_voice_agent_free.Webhooks.Valid.{DeliveryIsValid, settle-DeliveryIsValid}

module _ (env : Env) where
  abbrev pub RowsAreValid : World → Type 0
  RowsAreValid = Holds webhook_deliveries (DeliveryIsValid env.settings)

  pub dispatch-Valid : (u s : String) (e : Json) → Keeps RowsAreValid (dispatch env u s e)
  unfolding dispatch
  dispatch-Valid u s e = record { at = λ w h. record { on_disk = h.on_disk; in_view = h.in_view } }

  pub save-Valid :
      (d : WebhookDeliveryModel)
      → DeliveryIsValid env.settings d
      → Keeps RowsAreValid (save webhook_deliveries d)
  save-Valid d v = Holds-save webhook_deliveries (DeliveryIsValid env.settings) (λ xs d. refl) d v

  pub commit-Valid : Keeps RowsAreValid commit
  commit-Valid = Holds-commit webhook_deliveries (DeliveryIsValid env.settings)

  pub new_id-Valid : (kind : String) (n : ℕ) → Keeps RowsAreValid (new_id env kind n)
  new_id-Valid = Holds-new_id webhook_deliveries (DeliveryIsValid env.settings) env

  pub session-Valid : {A : Type 0} (m : M A) → Keeps RowsAreValid m → Keeps RowsAreValid (session m)
  session-Valid m = Holds-session webhook_deliveries (DeliveryIsValid env.settings) m

  pub insert_event-Valid : (e : EventModel) → Keeps RowsAreValid (insert events e)
  insert_event-Valid e =
      Holds-insert_apart webhook_deliveries (DeliveryIsValid env.settings) events (λ xs d. refl) e

  pub insert_hook-Valid :
      (h : WebhookSubscriptionModel) → Keeps RowsAreValid (insert webhook_subscriptions h)
  insert_hook-Valid h =
      Holds-insert_apart webhook_deliveries (DeliveryIsValid env.settings) webhook_subscriptions
        (λ xs d. refl) h

  pub save_hook-Valid :
      (h : WebhookSubscriptionModel) → Keeps RowsAreValid (save webhook_subscriptions h)
  save_hook-Valid h =
      Holds-save_apart webhook_deliveries (DeliveryIsValid env.settings) webhook_subscriptions
        (λ xs d. refl) h

  pub ruleset row_rules = (
    keeps_rules, dispatch-Valid, save-Valid, commit-Valid, new_id-Valid, session-Valid,
    insert_event-Valid, insert_hook-Valid, save_hook-Valid,
  )

  pub attempt-Valid :
      (d : WebhookDeliveryModel) (h : WebhookSubscriptionModel) (e : Json) (now : DateTime)
      → Keeps RowsAreValid (attempt_webhook_delivery env d h e now)
  unfolding attempt_webhook_delivery
  attempt-Valid d h e now =
      search (keeps_rules, Keeps-check_overflow, dispatch-Valid, save-Valid, settle-DeliveryIsValid)

  deliver_to-Valid :
      (e : Emission) (id : String) (body : Json) (h : WebhookSubscriptionModel)
      → Keeps RowsAreValid (deliver_to env e id body h)
  unfolding deliver_to
  deliver_to-Valid e id body h = Keeps-bind _ _ (Holds-new_id _ _ env "wd_" 8) λ delivery_id.
      Keeps-bind _ _
        (Holds-insert webhook_deliveries (DeliveryIsValid env.settings) (λ xs d. refl)
          (new_delivery delivery_id h.id id e) (refl, refl))
        λ _. attempt-Valid (new_delivery delivery_id h.id id e) h body e.occurred_at

  deliver_all-Valid :
      (e : Emission) (id : String) (body : Json) (first : FirstDelivery)
      (hooks : List WebhookSubscriptionModel)
      → Keeps RowsAreValid (deliver_all env e id body first hooks)
  unfolding deliver_all
  deliver_all-Valid e id body first [] = search keeps_rules
  deliver_all-Valid e id body first (h ∷ hooks) = elim (Bool-cases (subscribed e h)) [
    | inl yes_hook ↦
        rw yes_hook
          (Keeps-bind _ _ (deliver_to-Valid e id body h) λ d. deliver_all-Valid e id body _ hooks)
    | inr no_hook ↦ rw no_hook (deliver_all-Valid e id body first hooks)
  ]

  pub emit_event-Valid : (e : Emission) → Keeps RowsAreValid (emit_event env e)
  unfolding emit_event
  emit_event-Valid e = search (row_rules, deliver_all-Valid) depth 12

  pub create_webhook-Valid :
      (url : String) (types : List String) (org : String) (now : DateTime)
      → Keeps RowsAreValid (create_webhook env url types org now)
  unfolding create_webhook
  create_webhook-Valid url types org now = search row_rules depth 12

  get_webhook-Valid : (id org : String) → Keeps RowsAreValid (get_webhook_or_404 id org)
  unfolding get_webhook_or_404
  get_webhook-Valid id org = search row_rules

  get_webhook_delivery-Valid :
      (id delivery_id : String) → Keeps RowsAreValid (get_webhook_delivery_or_404 id delivery_id)
  unfolding get_webhook_delivery_or_404
  get_webhook_delivery-Valid id delivery_id = search row_rules

  pub delete_webhook-Valid :
      (id org : String) (now : DateTime) → Keeps RowsAreValid (delete_webhook id org now)
  unfolding delete_webhook
  delete_webhook-Valid id org now = search (row_rules, get_webhook-Valid) depth 12

  pub test_webhook-Valid :
      (id org trace : String) (now : DateTime)
      → Keeps RowsAreValid (test_webhook env id org trace now)
  unfolding test_webhook
  test_webhook-Valid id org trace now =
      search (row_rules, get_webhook-Valid, emit_event-Valid) depth 12

  retry_found-Valid :
      (now : DateTime) (d : WebhookDeliveryModel) (h : WebhookSubscriptionModel) (e : EventModel)
      (status : DeliveryStatus)
      → Keeps RowsAreValid (retry_found env now d h e status)
  unfolding retry_found
  retry_found-Valid now d h e DeliveryStatus.delivered = search row_rules
  retry_found-Valid now d h e _ = search (row_rules, attempt-Valid) depth 8

  pub retry-Valid :
      (id delivery_id org : String) (now : DateTime)
      → Keeps RowsAreValid (retry_webhook_delivery env id delivery_id org now)
  unfolding retry_webhook_delivery
  retry-Valid id delivery_id org now =
      search (row_rules, get_webhook-Valid, get_webhook_delivery-Valid, retry_found-Valid) depth 12
