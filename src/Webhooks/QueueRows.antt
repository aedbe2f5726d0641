-- ===== src/Webhooks/QueueRows.antt =====
-- The rows of deliveries under a run of the queue (store.py, `process_webhook_deliveries`).
use real_voice_agent_free.Prelude.{
  ℕ, String, ◌≡◌, refl, subst, ◌∙◌, Bool, true, false, Option, none, some, List, [], ◌∷◌, DateTime,
  arith, filter, All, All-take, All-of_count-not, count-not_of_All, not, is_some, inl, inr,
  Bool-cases,
}
use real_voice_agent_free.Env.{Env, whole, OrdersRows}
use real_voice_agent_free.Errors.{ok}
use real_voice_agent_free.Models.{
  DeliveryStatus, EventModel, WebhookSubscriptionModel, WebhookDeliveryModel,
}
use real_voice_agent_free.Db.{webhook_deliveries}
use real_voice_agent_free.Session.{World, select}
use real_voice_agent_free.Session.Keeps.{
  Keeps, Keeps-bind, Keeps-bind-with, keeps_rules, Keeps-select,
}
use real_voice_agent_free.Session.Inversion.{ok_inj}
use real_voice_agent_free.Webhooks.Methods.{
  is_due, batch_size, process_found, process_one, Report, no_report, tally, process_all, orphaned,
  process_webhook_deliveries,
}
use real_voice_agent_free.Webhooks.Valid.{DeliveryIsValid}
use real_voice_agent_free.Webhooks.Rows.{
  RowsAreValid, attempt-Valid, commit-Valid, session-Valid, row_rules,
}

-- A row that is due has not arrived.
abbrev pending_or_scheduled : DeliveryStatus → Bool
pending_or_scheduled DeliveryStatus.pending = true
pending_or_scheduled DeliveryStatus.retry_scheduled = true
pending_or_scheduled _ = false

module _ (env : Env) where
  abbrev Undelivered : WebhookDeliveryModel → Type 0
  Undelivered d = d.delivered_at ≡ none

  orphaned-Valid :
      (d : WebhookDeliveryModel) (now : DateTime)
      → Undelivered d
      → DeliveryIsValid env.settings (orphaned d now)
  orphaned-Valid d now h = (refl, h)

  due-Undelivered :
      (org : String) (now : DateTime) (hooks : List WebhookSubscriptionModel)
      (d : WebhookDeliveryModel)
      → is_due org now hooks d ≡ true
      → DeliveryIsValid env.settings d
      → Undelivered d
  unfolding is_due
  due-Undelivered org now hooks d due v = ground arith

  process_found-Valid :
      (now : DateTime) (d : WebhookDeliveryModel) (h : Option WebhookSubscriptionModel)
      (e : Option EventModel)
      → Undelivered d
      → Keeps (RowsAreValid env) (process_found env now d h e)
  unfolding process_found
  process_found-Valid now d (some h) (some e) u = attempt-Valid env d h _ now
  process_found-Valid now d _ _ u = search (row_rules, orphaned-Valid) depth 8

  process_one-Valid :
      (now : DateTime) (d : WebhookDeliveryModel)
      → Undelivered d
      → Keeps (RowsAreValid env) (process_one env now d)
  unfolding process_one
  process_one-Valid now d u = search (keeps_rules, process_found-Valid) depth 8

  process_all-Valid :
      (now : DateTime) (r : Report) (ds : List WebhookDeliveryModel)
      → All Undelivered ds
      → Keeps (RowsAreValid env) (process_all env now r ds)
  unfolding process_all
  process_all-Valid now r [] u = search keeps_rules
  process_all-Valid now r (d ∷ ds) u =
      Keeps-bind _ _ (process_one-Valid now d u.0) λ x. process_all-Valid now (tally x r) ds u.1

  undelivered : WebhookDeliveryModel → Bool
  undelivered d = not (is_some d.delivered_at)

  All-undelivered :
      (org : String) (now : DateTime) (hooks : List WebhookSubscriptionModel)
      (ds : List WebhookDeliveryModel)
      → All (DeliveryIsValid env.settings) ds
      → All (λ d. undelivered d ≡ true) (filter (is_due org now hooks) ds)
  unfolding undelivered
  All-undelivered org now hooks [] v = tt
  All-undelivered org now hooks (d ∷ ds) v = elim (Bool-cases (is_due org now hooks d)) [
    | inl due ↦ rw due (
      ground (arith, due-Undelivered org now hooks d due v.0),
      All-undelivered org now hooks ds v.1,
    )
    | inr late ↦ rw late (All-undelivered org now hooks ds v.1)
  ]

  All-Undelivered :
      (ds : List WebhookDeliveryModel) → All (λ d. undelivered d ≡ true) ds → All Undelivered ds
  unfolding undelivered
  All-Undelivered [] h = tt
  All-Undelivered (d ∷ ds) h = (ground (arith, h.0), All-Undelivered ds h.1)

  due_rows :
      (org : String) (now : DateTime) (hooks : List WebhookSubscriptionModel) (w : World)
      (due : List WebhookDeliveryModel)
      → RowsAreValid env w
      → (select webhook_deliveries (is_due org now hooks) w).0 ≡ ok due
      → All (λ d. undelivered d ≡ true) due
  unfolding select
  due_rows org now hooks w due h e =
      subst (λ ds. All (λ d. undelivered d ≡ true) ds) (ok_inj _ _ e)
        (All-undelivered org now hooks w.view.webhook_deliveries h.in_view)

  module _ (laws : OrdersRows env) where
    All-order_asc :
        (p : WebhookDeliveryModel → Bool) (key : WebhookDeliveryModel → ℕ)
        (ds : List WebhookDeliveryModel)
        → All (λ d. p d ≡ true) ds
        → All (λ d. p d ≡ true) (env.order_asc whole WebhookDeliveryModel key ds)
    All-order_asc p key ds h = All-of_count-not p _ (
        laws.count-order_asc whole WebhookDeliveryModel key (λ d. not (p d)) ds
        ∙ count-not_of_All p ds h)

    -- A run of the queue keeps every delivery row valid, whatever the dispatcher answers.
    pub process_webhook_deliveries-Valid :
        (org : String) (now : DateTime) (limit : Option ℕ)
        → Keeps (RowsAreValid env) (process_webhook_deliveries env org now limit)
    unfolding process_webhook_deliveries
    process_webhook_deliveries-Valid org now limit = session-Valid env _ (
        Keeps-bind _ _ (search keeps_rules) λ hooks.
          Keeps-bind-with (All (λ d. undelivered d ≡ true))
            (select webhook_deliveries (is_due org now hooks)) _ (Keeps-select _ _).at
            (due_rows org now hooks)
            λ due u.
              Keeps-bind _ _
                (process_all-Valid now no_report _ (
                  All-Undelivered _ (
                    All-take (λ d. undelivered d ≡ true) (batch_size env.settings limit) _
                      (All-order_asc undelivered (λ d. d.created_at) due u))))
                λ report. search (keeps_rules, commit-Valid env))
