-- ===== src/Webhooks/Untouched.antt =====
-- What a run of the queue leaves alone (store.py, `process_webhook_deliveries`).
use real_voice_agent_free.Prelude.{
  ℕ, String, ◌==◌, ◌≡◌, refl, ◌∙◌, Bool, true, false, Option, some, List, [], ◌∷◌, DateTime, arith,
  filter, find, any, any-eq-false, All, All-take, All-of_count-not, count-not_of_All, filter_all,
  not,
}
use real_voice_agent_free.Json.{Json}
use real_voice_agent_free.Env.{Env, whole, Settings, DeliveryResult, OrdersRows}
use real_voice_agent_free.Errors.{Failure, Result, ok, err}
use real_voice_agent_free.Models.{EventModel, WebhookSubscriptionModel, WebhookDeliveryModel}
use real_voice_agent_free.Db.{Db, webhook_deliveries}
use real_voice_agent_free.Session.{World, ◌>>=◌, select, save, session}
use real_voice_agent_free.Session.Keeps.{Keeps, Keeps-bind, keeps_rules}
use real_voice_agent_free.Session.Frame.{
  DiskIs, disk_rules, committed-rolls_back, RowIs, RowIs-save_ne,
}
use real_voice_agent_free.Webhooks.Overflow.{Keeps-check_overflow}
use real_voice_agent_free.Webhooks.Defs.{settle, dispatch, attempt_webhook_delivery}
use real_voice_agent_free.Webhooks.Methods.{
  is_due, batch_size, process_found, process_one, Report, no_report, tally, process_all, orphaned,
  process_webhook_deliveries,
}
use real_voice_agent_free.Webhooks.Queue.{batch, process_eq_ok}

id-settle :
    (s : Settings) (d : WebhookDeliveryModel) (r : DeliveryResult) (t : DateTime)
    → (settle s d r t).id ≡ d.id
unfolding settle
id-settle s d r t = ground arith

module _ (env : Env) (now : DateTime) where
  -- the committed state, before the final commit
  module _ (d0 : Db) where
    dispatch-DiskIs : (u s : String) (e : Json) → Keeps (DiskIs d0) (dispatch env u s e)
    unfolding dispatch
    dispatch-DiskIs u s e = record { at = λ w h. record { same = h.same } }

    attempt-DiskIs :
        (d : WebhookDeliveryModel) (h : WebhookSubscriptionModel) (e : Json) (t : DateTime)
        → Keeps (DiskIs d0) (attempt_webhook_delivery env d h e t)
    unfolding attempt_webhook_delivery
    attempt-DiskIs d h e t = search (disk_rules, Keeps-check_overflow, dispatch-DiskIs) depth 8

    process_found-DiskIs :
        (d : WebhookDeliveryModel) (h : Option WebhookSubscriptionModel) (e : Option EventModel)
        → Keeps (DiskIs d0) (process_found env now d h e)
    unfolding process_found
    process_found-DiskIs d (some h) (some e) = search attempt-DiskIs
    process_found-DiskIs d _ _ = search disk_rules depth 8

    process_one-DiskIs : (d : WebhookDeliveryModel) → Keeps (DiskIs d0) (process_one env now d)
    unfolding process_one
    process_one-DiskIs d = search (disk_rules, process_found-DiskIs) depth 8

    process_all-DiskIs :
        (r : Report) (ds : List WebhookDeliveryModel) → Keeps (DiskIs d0) (process_all env now r ds)
    unfolding process_all
    process_all-DiskIs r [] = search disk_rules
    process_all-DiskIs r (d ∷ ds) =
        Keeps-bind _ _ (process_one-DiskIs d) λ x. process_all-DiskIs (tally x r) ds

  -- the row under a key that no delivery of the batch has
  module _ (k : String) (o : Option WebhookDeliveryModel) where
    abbrev RowStays : World → Type 0
    RowStays = RowIs webhook_deliveries k o

    save-RowStays :
        (d : WebhookDeliveryModel)
        → (d.id == k) ≡ false
        → Keeps RowStays (save webhook_deliveries d)
    save-RowStays d ne = RowIs-save_ne webhook_deliveries k o (λ xs d. refl) d ne

    attempt-RowStays :
        (d : WebhookDeliveryModel) (h : WebhookSubscriptionModel) (e : Json) (t : DateTime)
        → (d.id == k) ≡ false
        → Keeps RowStays (attempt_webhook_delivery env d h e t)
    unfolding attempt_webhook_delivery
    attempt-RowStays d h e t ne =
        search
          (keeps_rules, Keeps-check_overflow, dispatch-RowStays, save-RowStays, settle-RowStays)
          depth 8
      where
        dispatch-RowStays : (u s : String) (e : Json) → Keeps RowStays (dispatch env u s e)
        dispatch-RowStays u s e = unfold dispatch in record { at = λ w h. record { same = h.same } }

        settle-RowStays : (r : DeliveryResult) → ((settle env.settings d r t).id == k) ≡ false
        settle-RowStays r = rw (id-settle env.settings d r t) ne

    process_found-RowStays :
        (d : WebhookDeliveryModel) (h : Option WebhookSubscriptionModel) (e : Option EventModel)
        → (d.id == k) ≡ false
        → Keeps RowStays (process_found env now d h e)
    unfolding process_found
    process_found-RowStays d (some h) (some e) ne = attempt-RowStays d h _ now ne
    process_found-RowStays d _ _ ne =
        Keeps-bind _ _ (save-RowStays (orphaned d now) ne) λ x. search keeps_rules

    process_one-RowStays :
        (d : WebhookDeliveryModel) → (d.id == k) ≡ false → Keeps RowStays (process_one env now d)
    unfolding process_one
    process_one-RowStays d ne = search (keeps_rules, process_found-RowStays) depth 8

    process_all-RowStays :
        (r : Report) (ds : List WebhookDeliveryModel)
        → All (λ d. not (d.id == k) ≡ true) ds
        → Keeps RowStays (process_all env now r ds)
    unfolding process_all
    process_all-RowStays r [] ne = search keeps_rules
    process_all-RowStays r (d ∷ ds) ne =
        Keeps-bind _ _ (process_one-RowStays d (ground (arith, ne.0)))
          λ x. process_all-RowStays (tally x r) ds ne.1

-- No row of the batch has a key that no due row has.
batch-avoids :
    (env : Env)
    → OrdersRows env
    → (org : String) (now : DateTime) (limit : Option ℕ) (w : World) (k : String)
    → any
        (λ d. d.id == k)
        (filter (is_due org now w.disk.webhook_subscriptions) w.disk.webhook_deliveries)
      ≡ false
    → All (λ d. not (d.id == k) ≡ true) (batch env org now limit w)
batch-avoids env laws org now limit w k h =
    let due = filter (is_due org now w.disk.webhook_subscriptions) w.disk.webhook_deliveries in
    let p : WebhookDeliveryModel → Bool = λ d. not (d.id == k) in
    All-take (λ d. p d ≡ true) (batch_size env.settings limit) _
      (All-of_count-not p _ (
        laws.count-order_asc whole WebhookDeliveryModel (λ d. d.created_at) (λ d. not (p d)) due
        ∙ count-not_of_All p due (any-eq-false (λ d. d.id == k) due h)))

-- A run of the queue that raises changes nothing that is committed.
pub process_webhook_deliveries-rolls_back :
    (env : Env) (org : String) (now : DateTime) (limit : Option ℕ) (w : World) (e : Failure)
    → (process_webhook_deliveries env org now limit w).0 ≡ err e
    → (process_webhook_deliveries env org now limit w).1.disk ≡ w.disk
unfolding process_webhook_deliveries session select ◌>>=◌
process_webhook_deliveries-rolls_back env org now limit w e h = rw filter_all (
    committed-rolls_back (process_all env now no_report (batch env org now limit w)) (λ x. x)
      (λ d. process_all-DiskIs env now d no_report (batch env org now limit w))
      (record w { view = w.disk }) e (rw filter_all at h))

-- A run of the queue changes only rows that were due for the organization: a key under which
-- there is no such row has the row that it had, whether the run returns or raises.
pub process_webhook_deliveries-untouched :
    (env : Env)
    → OrdersRows env
    → (org : String) (now : DateTime) (limit : Option ℕ) (w : World) (k : String)
    → any
        (λ d. d.id == k)
        (filter (is_due org now w.disk.webhook_subscriptions) w.disk.webhook_deliveries)
      ≡ false
    → find
        (λ d. d.id == k)
        (process_webhook_deliveries env org now limit w).1.disk.webhook_deliveries
      ≡ find (λ d. d.id == k) w.disk.webhook_deliveries
process_webhook_deliveries-untouched env laws org now limit w k h =
    go (process_webhook_deliveries env org now limit w).0 refl
  where
    go :
        (r : Result Report)
        → (process_webhook_deliveries env org now limit w).0 ≡ r
        → find
            (λ d. d.id == k)
            (process_webhook_deliveries env org now limit w).1.disk.webhook_deliveries
          ≡ find (λ d. d.id == k) w.disk.webhook_deliveries
    go (err e) q = rw (process_webhook_deliveries-rolls_back env org now limit w e q)
    go (ok r) q =
        rw (process_eq_ok env org now limit w r q).1
          ((process_all-RowStays env now k (find (λ d. d.id == k) w.disk.webhook_deliveries)
              no_report (batch env org now limit w) (batch-avoids env laws org now limit w k h)).at
            (record w { view = w.disk }) (record { same = refl })).same
