-- ===== src/Webhooks/Fanout.antt =====
-- The fan-out of an event (store.py, `_emit_event`): one delivery for each hook that listens.
use real_voice_agent_free.Prelude.{
  ◌+◌, String, ◌==◌, ◌≡◌, ◌&&◌, ◌||◌, Bool, Option, some, refl, sym, ap, subst, concat, prefix, ◌∙◌,
  none, List, [], ◌∷◌, ◌++◌, arith, filter, any, inl, inr, Bool-cases,
}
use mathlib.Core.List.{append-nil, append_assoc}
use real_voice_agent_free.Env.{Env, Post, DeliveryResult}
use real_voice_agent_free.Errors.{Result, ok}
use real_voice_agent_free.Models.{WebhookSubscriptionModel, WebhookDeliveryModel}
use real_voice_agent_free.Db.{Db, events, webhook_subscriptions}
use real_voice_agent_free.Serialize.{serialize_event}
use real_voice_agent_free.Session.{World, M, pure, ◌>>=◌, new_id, select, insert}
use real_voice_agent_free.Session.Inversion.{>>=-eq-ok, ok_inj, insert-eq-ok}
use real_voice_agent_free.Webhooks.Defs.{
  Emission, FirstDelivery, first_or, new_event, listens, subscribed, deliver_to, deliver_all,
  emit_event,
}
use real_voice_agent_free.Webhooks.Attempts.{Tried, deliver_to-eq-ok}

-- The hooks that an event is for: the active ones of its organization that listen to its type or to
-- all; where the event names one, this one, whatever it listens to.
abbrev pub is_called : Emission → WebhookSubscriptionModel → Bool
is_called e hook =
    hook.is_active && (hook.organization_id == e.organization_id) && elim e.only_webhook_id [
      | none ↦ any (λ t. t == "*" || (t == e.event_type)) hook.event_types
      | some webhook_id ↦ hook.id == webhook_id
    ]

any-or :
    (p q : String → Bool) (xs : List String) → any (λ t. p t || q t) xs ≡ (any p xs || any q xs)
any-or p q [] = refl
any-or p q (x ∷ xs) = ground (arith, any-or p q xs)

is_called_lem :
    (e : Emission) (hook : WebhookSubscriptionModel)
    → (listens e hook && subscribed e hook) ≡ is_called e hook
unfolding listens subscribed
is_called_lem e hook = go e.only_webhook_id refl
  where
    go :
        (only : Option String)
        → e.only_webhook_id ≡ only
        → (listens e hook && subscribed e hook) ≡ is_called e hook
    go none is =
        ground (arith, is, any-or (λ t. t == "*") (λ t. t == e.event_type) hook.event_types)
    go (some webhook_id) is = ground (arith, is)

filter-is_called :
    (e : Emission) (hooks : List WebhookSubscriptionModel)
    → filter (subscribed e) (filter (listens e) hooks) ≡ filter (is_called e) hooks
filter-is_called e [] = refl
filter-is_called e (hook ∷ hooks) = ground (arith, is_called_lem e hook, filter-is_called e hooks)

module _ (env : Env) (e : Emission) (event_id : String) where
  abbrev asked : WebhookSubscriptionModel → List Post → Result DeliveryResult × List Post
  asked hook = env.dispatcher hook.target_url hook.secret (serialize_event (new_event event_id e))

  -- The dispatcher is asked once for each hook, in this order, with the serialized event, and there
  -- is one row for each, as its answer makes it; `sent` grows to `sent'` by these requests alone.
  abbrev pub Attempts :
      List WebhookSubscriptionModel → List WebhookDeliveryModel → List Post → List Post → Type 0
  Attempts [] [] sent sent' = sent' ≡ sent
  Attempts [] (d ∷ ds) sent sent' = ⊥
  Attempts (hook ∷ hooks) [] sent sent' = ⊥
  Attempts (hook ∷ hooks) (d ∷ ds) sent sent' =
      ((r : DeliveryResult) × ((asked hook sent).0 ≡ ok r) × Tried e event_id hook r d)
      × Attempts hooks ds (asked hook sent).1 sent'

  -- The rows of these attempts are added, and nothing else of these tables changes.
  pub record FannedOut (hooks : List WebhookSubscriptionModel) (before after : Db)
      (sent sent' : List Post) : Type 0 where
    pub new : List WebhookDeliveryModel
    pub rows : after.webhook_deliveries ≡ before.webhook_deliveries ++ new
    pub attempts : Attempts hooks new sent sent'
    pub events_stay : after.events ≡ before.events
    pub hooks_stay : after.webhook_subscriptions ≡ before.webhook_subscriptions

  extend :
      (hook : WebhookSubscriptionModel) (hooks : List WebhookSubscriptionModel)
      (d : WebhookDeliveryModel) (before mid after : Db) (sent now_sent sent' : List Post)
      → mid ≡ record before { webhook_deliveries = before.webhook_deliveries ++ d ∷ [] }
      → now_sent ≡ (asked hook sent).1
      → ((r : DeliveryResult) × ((asked hook sent).0 ≡ ok r) × Tried e event_id hook r d)
      → FannedOut hooks mid after now_sent sent'
      → FannedOut (hook ∷ hooks) before after sent sent'
  extend hook hooks d before mid after sent now_sent sent' added posted tried rest = record {
    new = d ∷ rest.new;
    rows =
        rest.rows
        ∙ ap (λ (x : Db). x.webhook_deliveries ++ rest.new) added
        ∙ append_assoc before.webhook_deliveries (d ∷ []) rest.new;
    attempts =
        (tried, subst (λ (ps : List Post). Attempts hooks rest.new ps sent') posted rest.attempts);
    events_stay = rest.events_stay ∙ ap (λ (x : Db). x.events) added;
    hooks_stay = rest.hooks_stay ∙ ap (λ (x : Db). x.webhook_subscriptions) added;
  }

  -- The loop asks for each hook that is subscribed.
  deliver_all-FannedOut :
      (first : FirstDelivery) (hooks : List WebhookSubscriptionModel) (w : World)
      (last : FirstDelivery)
      → let body = serialize_event (new_event event_id e) in
        (deliver_all env e event_id body first hooks w).0 ≡ ok last
        → FannedOut
            (filter (subscribed e) hooks)
            w.view
            (deliver_all env e event_id body first hooks w).1.view
            w.posts
            (deliver_all env e event_id body first hooks w).1.posts
  unfolding deliver_all
  deliver_all-FannedOut first [] w last h =
      unfold pure in
      record {
        new = [];
        rows = sym (append-nil w.view.webhook_deliveries);
        attempts = refl;
        events_stay = refl;
        hooks_stay = refl;
      }
  deliver_all-FannedOut first (hook ∷ hooks) w last h = elim (Bool-cases (subscribed e hook)) [
    | inl on ↦
        let body = serialize_event (new_event event_id e) in
        let m = deliver_to env e event_id body hook in
        let f =
          λ (d : WebhookDeliveryModel). deliver_all env e event_id body (first_or first d) hooks in
        let (d, ran, run) = >>=-eq-ok m f w last (rw on at h) in
        let rest =
          deliver_all-FannedOut (first_or first d) hooks (m w).1 last
            (ap (λ (p : Result FirstDelivery × World). p.0) (sym run) ∙ (rw on at h)) in
        let step = deliver_to-eq-ok env e event_id body hook w d ran in
        rw (on, run)
          (extend hook (filter (subscribed e) hooks) d w.view (m w).1.view _ w.posts (m w).1.posts _
            step.0 step.1 step.2 rest)
    | inr off ↦ rw off (deliver_all-FannedOut first hooks w last (rw off at h))
  ]

abbrev pub with_event : Db → String → Emission → Db
with_event d event_id e = record d { events = d.events ++ new_event event_id e ∷ [] }

-- what `emit_event` does once it has an id
abbrev emission : Env → Emission → String → M (String × FirstDelivery)
emission env e id = insert events (new_event id e) >>= λ _.
    select webhook_subscriptions (listens e) >>= λ hooks.
    deliver_all env e id (serialize_event (new_event id e)) none hooks >>= λ first. pure (id, first)

emission-FannedOut :
    (env : Env) (e : Emission) (id : String) (w : World) (event_id : String) (first : FirstDelivery)
    → (emission env e id w).0 ≡ ok (event_id, first)
    → (id ≡ event_id)
      × FannedOut env e id
          (filter (is_called e) w.view.webhook_subscriptions)
          (with_event w.view id e)
          (emission env e id w).1.view
          w.posts
          (emission env e id w).1.posts
unfolding select ◌>>=◌
emission-FannedOut env e id w event_id first h =
    let value = λ (p : Result (String × FirstDelivery) × World). p.0 in
    let hooks = filter (listens e) w.view.webhook_subscriptions in
    let w1 : World = record w { view = with_event w.view id e } in
    let body = serialize_event (new_event id e) in
    let after = λ (_ : Unit {0}). select webhook_subscriptions (listens e) >>= λ hooks.
    deliver_all env e id body none hooks >>= λ first. pure (id, first) in
    let (u, ins, run1) = >>=-eq-ok (insert events (new_event id e)) after w (event_id, first) h in
    let inserted = (insert-eq-ok events (new_event id e) w u ins).1 in
    let run2 = run1 ∙ ap (after u) inserted in
    let loop = deliver_all env e id body none hooks in
    let finish = λ (f : FirstDelivery). pure (id, f) in
    let (f, ran, run3) = >>=-eq-ok loop finish w1 (event_id, first) (ap value (sym run2) ∙ h) in
    let all = run2 ∙ run3 in
    (
      ap (λ (p : String × FirstDelivery). p.0) (ok_inj _ _ (ap value (sym all) ∙ h)),
      subst
          (λ (p : Result (String × FirstDelivery) × World).
            FannedOut env e id (filter (is_called e) w.view.webhook_subscriptions)
              (with_event w.view id e) p.1.view w.posts p.1.posts)
          (sym all)
          (subst
            (λ (called : List WebhookSubscriptionModel).
              FannedOut env e id called (with_event w.view id e) (loop w1).1.view w.posts
                (loop w1).1.posts)
            (filter-is_called e w.view.webhook_subscriptions)
            (deliver_all-FannedOut env e id none hooks w1 f ran)),
    )

-- A call of `_emit_event` that returns has added the event. It has asked the dispatcher, with the
-- serialized event, once for each active hook of the organization that listens to the type of the
-- event or to all (once for the one hook that the event names, if it is active and of the
-- organization), in the order of the hooks, and each time the dispatcher answered; no other request
-- was sent. It has added one delivery for each of these, of one attempt, delivered exactly if the
-- answer says so; the rows that were there stay.
pub emit_event-FannedOut :
    (env : Env) (e : Emission) (w : World) (event_id : String) (first : FirstDelivery)
    → (emit_event env e w).0 ≡ ok (event_id, first)
    → FannedOut env e event_id
        (filter (is_called e) w.view.webhook_subscriptions)
        (with_event w.view event_id e)
        (emit_event env e w).1.view
        w.posts
        (emit_event env e w).1.posts
unfolding emit_event new_id ◌>>=◌
emit_event-FannedOut env e w event_id first h =
    let id = concat ("evt_" ∷ prefix 10 (env.uuid_hex w.draws) ∷ []) in
    let w1 : World = record w { draws = w.draws + 1 } in
    let (same, out) = emission-FannedOut env e id w1 event_id first h in
    subst
      (λ (i : String).
        FannedOut env e i (filter (is_called e) w.view.webhook_subscriptions)
          (with_event w.view i e) (emission env e id w1).1.view w.posts
          (emission env e id w1).1.posts)
      same out
