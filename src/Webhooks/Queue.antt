-- ===== src/Webhooks/Queue.antt =====
-- The delivery queue (store.py, `process_webhook_deliveries`): what a run of it reports, and which
-- rows it may change.
use real_voice_agent_free.Prelude.{
  ℕ, ◌+◌, ◌≤◌, String, ◌≡◌, refl, sym, ap, ◌∙◌, true, Option, List, [], ◌∷◌, DateTime, arith,
  filter, count, length, take, length-eq-count, length-filter, length-append, length-take,
  filter_all, min,
}
use real_voice_agent_free.Env.{Env, whole, Settings, OrdersRows}
use real_voice_agent_free.Errors.{Result, ok}
use real_voice_agent_free.Models.{WebhookDeliveryModel}
use real_voice_agent_free.Session.{World, pure, ◌>>=◌, select, commit, session}
use real_voice_agent_free.Session.Inversion.{>>=-eq-ok, committed-eq-ok}
use real_voice_agent_free.Serialize.{serialize_delivery}
use real_voice_agent_free.Webhooks.Methods.{
  is_due, batch_size, process_one, Report, no_report, tally, process_all,
  process_webhook_deliveries,
}

-- Every delivery that was taken up is counted once, under what became of it.
abbrev pub Adds : Report → Type 0
Adds r = (r.processed ≡ r.delivered + r.retry_scheduled + r.failed) × (r.processed ≡ length r.items)

tally-Adds : (d : WebhookDeliveryModel) (r : Report) → Adds r → Adds (tally d r)
unfolding tally
tally-Adds d r h = ground (arith, length-append r.items (serialize_delivery d ∷ []))

processed-tally : (d : WebhookDeliveryModel) (r : Report) → (tally d r).processed ≡ r.processed + 1
unfolding tally
processed-tally d r = refl

process_all-Adds :
    (env : Env) (now : DateTime) (r : Report) (ds : List WebhookDeliveryModel) (w : World)
    (r' : Report)
    → (process_all env now r ds w).0 ≡ ok r'
    → Adds r
    → Adds r' × (r'.processed ≡ r.processed + length ds)
unfolding process_all pure
process_all-Adds env now r [] w r' e h = ground arith
process_all-Adds env now r (d ∷ ds) w r' e h =
    let m = process_one env now d in
    let rest = λ (x : WebhookDeliveryModel). process_all env now (tally x r) ds in
    let (x, _, run) = >>=-eq-ok m rest w r' e in
    let tail =
      process_all-Adds env now (tally x r) ds (m w).1 r'
        (ap (λ (y : Result Report × World). y.0) (sym run) ∙ e) (tally-Adds x r h) in
    (tail.0, omega (arith, tail.1, processed-tally x r))

-- A batch has between one and a hundred deliveries.
batch_size_bounds :
    (s : Settings) (limit : Option ℕ) → (1 ≤ batch_size s limit) × (batch_size s limit ≤ 100)
unfolding batch_size
batch_size_bounds s limit = omega arith

-- The batch that a run takes up.
abbrev pub batch : Env → String → DateTime → Option ℕ → World → List WebhookDeliveryModel
batch env org now limit w = take (batch_size env.settings limit) (
    env.order_asc whole WebhookDeliveryModel (λ d. d.created_at)
      (filter (is_due org now w.disk.webhook_subscriptions) w.disk.webhook_deliveries))

length-batch :
    (env : Env) (laws : OrdersRows env) (org : String) (now : DateTime) (limit : Option ℕ)
    (w : World)
    → length (batch env org now limit w)
      ≡ min
          (batch_size env.settings limit)
          (count (is_due org now w.disk.webhook_subscriptions) w.disk.webhook_deliveries)
length-batch env laws org now limit w =
    let due = filter (is_due org now w.disk.webhook_subscriptions) w.disk.webhook_deliveries in
    let ordered = env.order_asc whole WebhookDeliveryModel (λ d. d.created_at) due in
    omega (
      arith,
      length-take (batch_size env.settings limit) ordered,
      length-eq-count ordered,
      laws.count-order_asc whole WebhookDeliveryModel (λ d. d.created_at) (λ d. true) due,
      length-eq-count due,
      length-filter (is_due org now w.disk.webhook_subscriptions) w.disk.webhook_deliveries,
    )

-- What a run of the queue that returns has done: the loop ran over the batch, and was committed.
pub process_eq_ok :
    (env : Env) (org : String) (now : DateTime) (limit : Option ℕ) (w : World) (r : Report)
    → (process_webhook_deliveries env org now limit w).0 ≡ ok r
    → let loop =
        process_all env now no_report (batch env org now limit w) (record w { view = w.disk }) in
      (loop.0 ≡ ok r) × ((process_webhook_deliveries env org now limit w).1.disk ≡ loop.1.view)
unfolding process_webhook_deliveries session select commit ◌>>=◌
process_eq_ok env org now limit w r e =
    let w0 : World = record w { view = w.disk } in
    let e' = rw filter_all at e in
    let (a, ran, same, disk) =
      committed-eq-ok (process_all env now no_report (batch env org now limit w)) (λ x. x) w0 r
        e' in
    (rw same at ran, rw filter_all disk)

-- The report of a run adds up.
pub process_webhook_deliveries-report :
    (env : Env)
    → OrdersRows env
    → (org : String) (now : DateTime) (limit : Option ℕ) (w : World) (r : Report)
    → (process_webhook_deliveries env org now limit w).0 ≡ ok r
    → (r.processed ≡ r.delivered + r.retry_scheduled + r.failed)
      × (r.processed ≡ length r.items)
      × (r.processed
          ≡ min
              (batch_size env.settings limit)
              (count (is_due org now w.disk.webhook_subscriptions) w.disk.webhook_deliveries))
      × (r.processed ≤ 100)
process_webhook_deliveries-report env laws org now limit w r e =
    let (run, _) = process_eq_ok env org now limit w r e in
    let (adds, processed) =
      process_all-Adds env now no_report (batch env org now limit w) (record w { view = w.disk }) r
        run (refl, refl) in
    omega (
      arith,
      adds,
      processed,
      length-batch env laws org now limit w,
      batch_size_bounds env.settings limit,
    )
