-- ===== src/Webhooks/Closed.antt =====
-- Invariants that every step of a method's body keeps, but for the commit: random draws, requests of
-- the dispatcher (store.py, `_emit_event`), and the rows of all tables but `idempotency_keys`.
use real_voice_agent_free.Prelude.{
  ℕ, String, ◌≡◌, List, [], ◌∷◌, DateTime, refl, inl, inr, Bool-cases,
}
use real_voice_agent_free.Json.{Json}
use real_voice_agent_free.Env.{Env}
use real_voice_agent_free.Models.{WebhookSubscriptionModel, WebhookDeliveryModel}
use real_voice_agent_free.Db.{Db, Table, events, webhook_deliveries}
use real_voice_agent_free.Session.{World, insert, save, new_id}
use real_voice_agent_free.Session.Keeps.{Keeps, keeps_rules, Keeps-bind}
use real_voice_agent_free.Webhooks.Overflow.{Keeps-check_overflow}
use real_voice_agent_free.Webhooks.Defs.{
  dispatch, attempt_webhook_delivery, Emission, FirstDelivery, new_delivery, subscribed, deliver_to,
  deliver_all, emit_event,
}

-- A table whose rows are no stored responses.
abbrev pub IsPlain : {A : Type 0} → Table A → Type 0
IsPlain {A} t = (rows : List A) (d : Db) → (t.write rows d).idempotency_keys ≡ d.idempotency_keys

pub record IsClosed (env : Env) (P : World → Type 0) : Type 1 where
  pub by_new_id : (kind : String) (n : ℕ) → Keeps P (new_id env kind n)
  pub by_dispatch : (u s : String) (e : Json) → Keeps P (dispatch env u s e)
  pub by_insert : {A : Type 0} (t : Table A) → IsPlain t → (r : A) → Keeps P (insert t r)
  pub by_save : {A : Type 0} (t : Table A) → IsPlain t → (r : A) → Keeps P (save t r)

module _ (env : Env) (P : World → Type 0) (closed : IsClosed env P) where
  pub Closed-attempt :
      (d : WebhookDeliveryModel) (h : WebhookSubscriptionModel) (e : Json) (now : DateTime)
      → Keeps P (attempt_webhook_delivery env d h e now)
  unfolding attempt_webhook_delivery
  Closed-attempt d h e now =
      search
        (
          keeps_rules,
          Keeps-check_overflow,
          closed.by_dispatch,
          closed.by_save webhook_deliveries (λ rows db. refl),
        )
        depth 8

  Closed-deliver_to :
      (e : Emission) (id : String) (body : Json) (h : WebhookSubscriptionModel)
      → Keeps P (deliver_to env e id body h)
  unfolding deliver_to
  Closed-deliver_to e id body h = Keeps-bind _ _ (closed.by_new_id "wd_" 8) λ delivery_id.
      Keeps-bind _ _
        (closed.by_insert webhook_deliveries (λ rows db. refl) (new_delivery delivery_id h.id id e))
        λ _. Closed-attempt (new_delivery delivery_id h.id id e) h body e.occurred_at

  Closed-deliver_all :
      (e : Emission) (id : String) (body : Json) (first : FirstDelivery)
      (hooks : List WebhookSubscriptionModel)
      → Keeps P (deliver_all env e id body first hooks)
  unfolding deliver_all
  Closed-deliver_all e id body first [] = search keeps_rules
  Closed-deliver_all e id body first (h ∷ hooks) = elim (Bool-cases (subscribed e h)) [
    | inl on ↦
        rw on
          (Keeps-bind _ _ (Closed-deliver_to e id body h) λ d. Closed-deliver_all e id body _ hooks)
    | inr off ↦ rw off (Closed-deliver_all e id body first hooks)
  ]

  pub Closed-emit_event : (e : Emission) → Keeps P (emit_event env e)
  unfolding emit_event
  Closed-emit_event e =
      search
        (
          keeps_rules,
          closed.by_new_id,
          closed.by_insert events (λ rows db. refl),
          Closed-deliver_all,
        )
        depth 12
