-- ===== src/Webhooks/Commands.antt =====
-- Sequences of calls of the webhook methods (store.py), and the invariant of the delivery rows.
use real_voice_agent_free.Prelude.{ℕ, String, DateTime, Option, List, [], ◌∷◌, refl, ◌≡◌}
use real_voice_agent_free.Env.{Env, OrdersRows}
use real_voice_agent_free.Models.{WebhookSubscriptionModel}
use real_voice_agent_free.Db.{empty_db, webhook_subscriptions}
use real_voice_agent_free.Session.{World, ◌>>◌, commit, session}
use real_voice_agent_free.Session.Keeps.{Keeps, Keeps-bind, keeps_rules}
use real_voice_agent_free.Idempotency.{Request}
use real_voice_agent_free.Idempotency.Replay.{IsFresh}
use real_voice_agent_free.Idempotency.Frame.{KeysAre-commit, KeysAre-save, session-IsFresh}
use real_voice_agent_free.Webhooks.Defs.{Emission, emit_event, get_webhook_or_404}
use real_voice_agent_free.Webhooks.Methods.{
  create_webhook, delete_webhook, process_webhook_deliveries, retry_webhook_delivery, test_webhook,
}
use real_voice_agent_free.Webhooks.Rows.{
  RowsAreValid, emit_event-Valid, create_webhook-Valid, delete_webhook-Valid, test_webhook-Valid,
  retry-Valid, session-Valid, commit-Valid,
}
use real_voice_agent_free.Webhooks.QueueRows.{process_webhook_deliveries-Valid}

-- A call of a method, with its arguments; `emit` is any other method's event, committed.
pub data Call : Type 0 where
  create : String → List String → String → DateTime → Call
  remove : String → String → DateTime → Call
  test : String → String → String → DateTime → Call
  process : String → DateTime → Option ℕ → Call
  retry : String → String → String → DateTime → Call
  emit : Emission → Call

-- The world after a call, whether it returned or raised.
pub step : Env → Call → World → World
step env (create url types org now) w = (create_webhook env url types org now w).1
step env (remove id org now) w = (delete_webhook id org now w).1
step env (test id org trace now) w = (test_webhook env id org trace now w).1
step env (process org now limit) w = (process_webhook_deliveries env org now limit w).1
step env (retry id delivery_id org now) w = (retry_webhook_delivery env id delivery_id org now w).1
step env (emit e) w = (session (emit_event env e >> commit) w).1

pub run : Env → List Call → World → World
run env [] w = w
run env (c ∷ cs) w = run env cs (step env c w)

module _ (env : Env) (laws : OrdersRows env) where
  step-RowsAreValid : (c : Call) (w : World) → RowsAreValid env w → RowsAreValid env (step env c w)
  unfolding step
  step-RowsAreValid (create url types org now) w h =
      (create_webhook-Valid env url types org now).at w h
  step-RowsAreValid (remove id org now) w h = (delete_webhook-Valid env id org now).at w h
  step-RowsAreValid (test id org trace now) w h = (test_webhook-Valid env id org trace now).at w h
  step-RowsAreValid (process org now limit) w h =
      (process_webhook_deliveries-Valid env laws org now limit).at w h
  step-RowsAreValid (retry id delivery_id org now) w h =
      (retry-Valid env id delivery_id org now).at w h
  step-RowsAreValid (emit e) w h =
      (session-Valid env _ (Keeps-bind _ _ (emit_event-Valid env e) λ _. commit-Valid env)).at w h

  run-valid : (cs : List Call) (w : World) → RowsAreValid env w → RowsAreValid env (run env cs w)
  unfolding run
  run-valid [] w h = h
  run-valid (c ∷ cs) w h = run-valid cs (step env c w) (step-RowsAreValid c w h)

  -- After any calls of the webhook methods from an empty database, whatever the dispatcher answers
  -- and whether the calls return or raise, every delivery row is valid: its attempt count, its next
  -- attempt, its arrival and its error fit its status.
  pub run-RowsAreValid :
      (cs : List Call) (w : World)
      → w.disk ≡ empty_db
      → w.view ≡ empty_db
      → RowsAreValid env (run env cs w)
  run-RowsAreValid cs w d v = run-valid cs w (record { on_disk = rw d tt; in_view = rw v tt })

-- Deleting a webhook stores no response.
pub delete_webhook-IsFresh :
    (env : Env) (q : Request) (id org : String) (now : DateTime)
    → Keeps (IsFresh env q) (delete_webhook id org now)
unfolding delete_webhook get_webhook_or_404
delete_webhook-IsFresh env q id org now = session-IsFresh env q _ λ rows log.
    let saves = λ (h : WebhookSubscriptionModel).
      KeysAre-save rows log webhook_subscriptions (λ xs d. refl) h in
    search (keeps_rules, KeysAre-commit, saves) depth 12
