-- ===== src/Webhooks/Attempts.antt =====
-- The first attempt of a delivery (store.py, `_emit_event` and `_attempt_webhook_delivery`).
use real_voice_agent_free.Prelude.{
  ◌+◌, String, ◌==◌, ◌≡◌, ◌↔◌, sym, ap, subst, ◌∙◌, false, List, [], ◌∷◌, ◌++◌, DateTime, arith,
  any, eq_iff,
}
use real_voice_agent_free.Json.{Json}
use real_voice_agent_free.Env.{Env, Settings, DeliveryResult, DispatchStatus}
use real_voice_agent_free.Errors.{Result, ok}
use real_voice_agent_free.Models.{DeliveryStatus, WebhookSubscriptionModel, WebhookDeliveryModel}
use real_voice_agent_free.Db.{webhook_deliveries}
use real_voice_agent_free.Session.{World, pure, ◌>>=◌, new_id, insert, save, replace}
use real_voice_agent_free.Session.Inversion.{>>=-eq-ok, ok_inj, insert-eq-ok}
use real_voice_agent_free.Webhooks.Overflow.{check_overflow-world}
use real_voice_agent_free.Webhooks.Defs.{
  next_webhook_attempt_at, check_overflow, settle, dispatch, attempt_webhook_delivery, Emission,
  new_delivery, deliver_to,
}

-- The last row of a table, under a key that no other row has, is the one that a save replaces.
replace-append_new :
    {A : Type 0} (key : A → String) (xs : List A) (x r : A)
    → any (λ y. key y == key r) xs ≡ false
    → key x ≡ key r
    → replace key r (xs ++ x ∷ []) ≡ xs ++ r ∷ []
replace-append_new key [] x r fresh same = ground (arith, eq_iff (key x) (key r))
replace-append_new key (y ∷ ys) x r fresh same =
    ground (arith, replace-append_new key ys x r (ground arith) same)

-- What one attempt with that answer has made of a new delivery to the hook.
pub record Tried (e : Emission) (event_id : String) (hook : WebhookSubscriptionModel)
    (r : DeliveryResult) (d : WebhookDeliveryModel) : Type 0 where
  pub of_hook : d.webhook_id ≡ hook.id
  pub of_event : d.event_id ≡ event_id
  pub of_type : d.event_type ≡ e.event_type
  pub once : d.attempt_count ≡ 1
  pub created : d.created_at ≡ e.occurred_at
  pub arrived : (d.status ≡ DeliveryStatus.delivered) ↔ (r.status ≡ DispatchStatus.delivered)
  pub code : d.response_code ≡ r.response_code

settle-arrived :
    (s : Settings) (d : WebhookDeliveryModel) (r : DeliveryResult) (t : DateTime)
    → ((settle s d r t).status ≡ DeliveryStatus.delivered) ↔ (r.status ≡ DispatchStatus.delivered)
unfolding settle
settle-arrived s d r t = ground arith

settle-Tried :
    (s : Settings) (e : Emission) (event_id id : String) (hook : WebhookSubscriptionModel)
    (r : DeliveryResult)
    → Tried e event_id hook r (settle s (new_delivery id hook.id event_id e) r e.occurred_at)
settle-Tried s e event_id id hook r = record {
  of_hook = unfold settle in ground arith;
  of_event = unfold settle in ground arith;
  of_type = unfold settle in ground arith;
  once = unfold settle in ground arith;
  created = unfold settle in ground arith;
  arrived = settle-arrived s (new_delivery id hook.id event_id e) r e.occurred_at;
  code = unfold settle in ground arith;
}

key-settle :
    (s : Settings) (d : WebhookDeliveryModel) (r : DeliveryResult) (t : DateTime)
    → (settle s d r t).id ≡ d.id
unfolding settle
key-settle s d r t = ground arith

-- An attempt that returned has asked the dispatcher once, and has replaced the row by what its
-- answer makes of it.
attempt-eq-ok :
    (env : Env) (d : WebhookDeliveryModel) (hook : WebhookSubscriptionModel) (body : Json)
    (t : DateTime) (w : World) (d' : WebhookDeliveryModel)
    → (attempt_webhook_delivery env d hook body t w).0 ≡ ok d'
    → let asked = env.dispatcher hook.target_url hook.secret body w.posts in
      (r : DeliveryResult) × (asked.0 ≡ ok r)
      × (d' ≡ settle env.settings d r t)
      × ((attempt_webhook_delivery env d hook body t w).1.view ≡ record w.view {
        webhook_deliveries =
            replace (λ x. x.id) (settle env.settings d r t) w.view.webhook_deliveries;
      })
      × ((attempt_webhook_delivery env d hook body t w).1.posts ≡ asked.1)
unfolding attempt_webhook_delivery
attempt-eq-ok env d hook body t w d' h =
    let m = dispatch env hook.target_url hook.secret body in
    let check = λ (r : DeliveryResult).
      check_overflow env r.status (next_webhook_attempt_at env.settings (d.attempt_count + 1) t) in
    let write = λ (r : DeliveryResult). save webhook_deliveries (settle env.settings d r t) >>= λ _.
    pure (settle env.settings d r t) in
    let first = λ (y : Result WebhookDeliveryModel × World). y.0 in
    let (r, answered, run) = >>=-eq-ok m (λ r. check r >>= λ _. write r) w d' h in
    let (u, fine, run') = >>=-eq-ok (check r) (λ _. write r) (m w).1 d' (ap first (sym run) ∙ h) in
    let all =
      run
      ∙ run'
      ∙ ap (write r) (
          check_overflow-world env r.status
            (next_webhook_attempt_at env.settings (d.attempt_count + 1) t) (m w).1) in
    (
      r,
      unfold dispatch in answered,
      sym (unfold save ◌>>=◌ in ok_inj _ _ (ap first (sym all) ∙ h)),
      unfold save dispatch ◌>>=◌ in ap (λ (y : Result WebhookDeliveryModel × World). y.1.view) all,
      unfold save dispatch ◌>>=◌ in ap (λ (y : Result WebhookDeliveryModel × World). y.1.posts) all,
    )

-- One round of the loop: the dispatcher is asked once, and a row is added.
pub deliver_to-eq-ok :
    (env : Env) (e : Emission) (event_id : String) (body : Json) (hook : WebhookSubscriptionModel)
    (w : World) (d : WebhookDeliveryModel)
    → (deliver_to env e event_id body hook w).0 ≡ ok d
    → let asked = env.dispatcher hook.target_url hook.secret body w.posts in
      ((deliver_to env e event_id body hook w).1.view
        ≡ record w.view { webhook_deliveries = w.view.webhook_deliveries ++ d ∷ [] })
      × ((deliver_to env e event_id body hook w).1.posts ≡ asked.1)
      × ((r : DeliveryResult) × (asked.0 ≡ ok r) × Tried e event_id hook r d)
unfolding deliver_to new_id
deliver_to-eq-ok env e event_id body hook w d h =
    let key = λ (x : WebhookDeliveryModel). x.id in
    let rows = w.view.webhook_deliveries in
    let first = λ (p : Result WebhookDeliveryModel × World). p.0 in
    let try_it = λ (id : String).
      attempt_webhook_delivery env (new_delivery id hook.id event_id e) hook body e.occurred_at in
    let body_of = λ (id : String).
      insert webhook_deliveries (new_delivery id hook.id event_id e) >>= λ _. try_it id in
    let (id, drawn, run1) = >>=-eq-ok (new_id env "wd_" 8) body_of w d h in
    let w1 : World = record w { draws = w.draws + 1 } in
    let h1 = ap first (sym run1) ∙ h in
    let new = new_delivery id hook.id event_id e in
    let (u, ins, run2) = >>=-eq-ok (insert webhook_deliveries new) (λ _. try_it id) w1 d h1 in
    let (free, inserted) = insert-eq-ok webhook_deliveries new w1 u ins in
    let (r, answered, same, view, posts) =
      attempt-eq-ok env new hook body e.occurred_at (insert webhook_deliveries new w1).1 d
        (ap first (sym run2) ∙ h1) in
    let s = settle env.settings new r e.occurred_at in
    let key_of_new = key-settle env.settings new r e.occurred_at in
    let asked = λ (x : World). env.dispatcher hook.target_url hook.secret body x.posts in
    (
      ap (λ (p : Result WebhookDeliveryModel × World). p.1.view) (run1 ∙ run2)
          ∙ view
          ∙ ap
              (λ (x : World). record x.view {
                webhook_deliveries = replace key s x.view.webhook_deliveries;
              })
              inserted
          ∙ ap (λ (xs : List WebhookDeliveryModel). record w.view { webhook_deliveries = xs })
              (replace-append_new key rows new s (rw key_of_new free) (sym key_of_new)
                ∙ ap (λ (y : WebhookDeliveryModel). rows ++ y ∷ []) (sym same)),
      ap (λ (p : Result WebhookDeliveryModel × World). p.1.posts) (run1 ∙ run2)
          ∙ posts
          ∙ ap (λ (x : World). (asked x).1) inserted,
      (
        r,
        ap (λ (x : World). (asked x).0) (sym inserted) ∙ answered,
        subst (Tried e event_id hook r) (sym same) (settle-Tried env.settings e event_id id hook r),
      ),
    )
