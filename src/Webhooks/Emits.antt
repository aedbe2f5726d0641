-- ===== src/Webhooks/Emits.antt =====
-- What the emission of an event (store.py, `_emit_event`) leaves alone: every condition on the
-- tables that the tables of events and of deliveries have no part in.
use real_voice_agent_free.Prelude.{
  ℕ, String, List, [], ◌∷◌, DateTime, any, ◌==◌, inl, inr, Bool-cases,
}
use real_voice_agent_free.Json.{Json}
use real_voice_agent_free.Env.{Env}
use real_voice_agent_free.Models.{WebhookSubscriptionModel, WebhookDeliveryModel}
use real_voice_agent_free.Db.{Db, Table, events, webhook_deliveries}
use real_voice_agent_free.Session.{save, insert, new_id}
use real_voice_agent_free.Session.Does.{Sees}
use real_voice_agent_free.Session.Frame.{DiskIs, disk_rules}
use real_voice_agent_free.Session.Keeps.{Keeps, keeps_rules, Keeps-bind}
use real_voice_agent_free.Webhooks.Overflow.{Keeps-check_overflow}
use real_voice_agent_free.Webhooks.Defs.{
  dispatch, attempt_webhook_delivery, Emission, FirstDelivery, new_delivery, subscribed, deliver_to,
  deliver_all, emit_event,
}

-- Writing the table changes nothing that `P` tells.
abbrev pub Ignores : {A : Type 0} → (Db → Type 0) → Table A → Type 0
Ignores {A} P t = (d : Db) (rows : List A) → P d → P (t.write rows d)

module _ {A : Type 0} (P : Db → Type 0) (t : Table A) (ignores : Ignores P t) where
  pub Sees-save : (r : A) → Keeps (Sees P) (save t r)
  unfolding save
  Sees-save r = record { at = λ w h. record { seen = ignores w.view _ h.seen } }

  pub Sees-insert : (r : A) → Keeps (Sees P) (insert t r)
  unfolding insert
  Sees-insert r = record {
    at = λ w h. elim (Bool-cases (any (λ x. t.key x == t.key r) (t.rows w.view))) [
      | inl e ↦ rw e h
      | inr e ↦ rw e (record { seen = ignores w.view _ h.seen })
    ];
  }

module _ (env : Env) (P : Db → Type 0) where
  pub Sees-new_id : (kind : String) (n : ℕ) → Keeps (Sees P) (new_id env kind n)
  unfolding new_id
  Sees-new_id kind n = record { at = λ w h. record { seen = h.seen } }

  Sees-dispatch : (u s : String) (e : Json) → Keeps (Sees P) (dispatch env u s e)
  unfolding dispatch
  Sees-dispatch u s e = record { at = λ w h. record { seen = h.seen } }

  module _ (no_events : Ignores P events) (no_deliveries : Ignores P webhook_deliveries) where
    Sees-attempt :
        (d : WebhookDeliveryModel) (h : WebhookSubscriptionModel) (e : Json) (now : DateTime)
        → Keeps (Sees P) (attempt_webhook_delivery env d h e now)
    unfolding attempt_webhook_delivery
    Sees-attempt d h e now =
        search
          (
            keeps_rules,
            Keeps-check_overflow,
            Sees-dispatch,
            Sees-save P webhook_deliveries no_deliveries,
          )
          depth 8

    Sees-deliver_to :
        (e : Emission) (id : String) (body : Json) (h : WebhookSubscriptionModel)
        → Keeps (Sees P) (deliver_to env e id body h)
    unfolding deliver_to
    Sees-deliver_to e id body h = Keeps-bind _ _ (Sees-new_id "wd_" 8) λ delivery_id.
        Keeps-bind _ _
          (Sees-insert P webhook_deliveries no_deliveries (new_delivery delivery_id h.id id e))
          λ _. Sees-attempt (new_delivery delivery_id h.id id e) h body e.occurred_at

    Sees-deliver_all :
        (e : Emission) (id : String) (body : Json) (first : FirstDelivery)
        (hooks : List WebhookSubscriptionModel)
        → Keeps (Sees P) (deliver_all env e id body first hooks)
    unfolding deliver_all
    Sees-deliver_all e id body first [] = search keeps_rules
    Sees-deliver_all e id body first (h ∷ hooks) = elim (Bool-cases (subscribed e h)) [
      | inl on ↦
          rw on
            (Keeps-bind _ _ (Sees-deliver_to e id body h) λ d. Sees-deliver_all e id body _ hooks)
      | inr off ↦ rw off (Sees-deliver_all e id body first hooks)
    ]

    pub Sees-emit_event : (e : Emission) → Keeps (Sees P) (emit_event env e)
    unfolding emit_event
    Sees-emit_event e =
        search (keeps_rules, Sees-new_id, Sees-insert P events no_events, Sees-deliver_all) depth 12

-- Nothing is committed either.
module _ (env : Env) (committed : Db) where
  pub DiskIs-dispatch : (u s : String) (e : Json) → Keeps (DiskIs committed) (dispatch env u s e)
  unfolding dispatch
  DiskIs-dispatch u s e = record { at = λ w h. record { same = h.same } }

  DiskIs-deliver_to :
      (e : Emission) (id : String) (body : Json) (h : WebhookSubscriptionModel)
      → Keeps (DiskIs committed) (deliver_to env e id body h)
  unfolding deliver_to attempt_webhook_delivery
  DiskIs-deliver_to e id body h =
      search (disk_rules, Keeps-check_overflow, DiskIs-dispatch) depth 12

  DiskIs-deliver_all :
      (e : Emission) (id : String) (body : Json) (first : FirstDelivery)
      (hooks : List WebhookSubscriptionModel)
      → Keeps (DiskIs committed) (deliver_all env e id body first hooks)
  unfolding deliver_all
  DiskIs-deliver_all e id body first [] = search keeps_rules
  DiskIs-deliver_all e id body first (h ∷ hooks) = elim (Bool-cases (subscribed e h)) [
    | inl on ↦
        rw on
          (Keeps-bind _ _ (DiskIs-deliver_to e id body h) λ d. DiskIs-deliver_all e id body _ hooks)
    | inr off ↦ rw off (DiskIs-deliver_all e id body first hooks)
  ]

  pub DiskIs-emit_event : (e : Emission) → Keeps (DiskIs committed) (emit_event env e)
  unfolding emit_event
  DiskIs-emit_event e = search (disk_rules, DiskIs-deliver_all) depth 12
