-- ===== src/Routers/Fresh.antt =====
-- The methods behind the routes (store.py) leave a request without a stored response.
use real_voice_agent_free.Prelude.{ℕ, String, refl, Option, List, DateTime}
use real_voice_agent_free.Env.{Env, CacheWrite}
use real_voice_agent_free.Models.{IdempotencyKeyModel}
use real_voice_agent_free.Db.{webhook_subscriptions}
use real_voice_agent_free.Session.{M, ◌>>=◌, pure, new_id, commit, session}
use real_voice_agent_free.Session.Keeps.{Keeps, keeps_rules, Keeps-bind, Keeps-pure}
use real_voice_agent_free.Webhooks.{
  get_webhook_or_404, get_webhook_delivery_or_404, create_webhook, retry_webhook_delivery,
  test_webhook,
}
use real_voice_agent_free.Idempotency.{Request}
use real_voice_agent_free.Idempotency.Replay.{IsFresh}
use real_voice_agent_free.Idempotency.Frame.{
  KeysAre, KeysAre-new_id, KeysAre-commit, KeysAre-insert, session-IsFresh,
}
use real_voice_agent_free.Calls.{
  CallCreateRequest, CallTurnCreateRequest, CallCompleteRequest, create_call, add_call_turn,
  complete_call,
}
use real_voice_agent_free.Agents.{
  AgentCreateRequest, AgentUpdateRequest, TemplateInstantiateRequest, create_agent, update_agent,
  instantiate_template, publish_agent, rollback_agent,
}
use real_voice_agent_free.Availability.{Zones}
use real_voice_agent_free.Bookings.{
  BookingCreateRequest, BookingUpdateRequest, create_booking, update_booking,
}
use real_voice_agent_free.Runtime.{Services, CallRespondRequest, respond_to_call}
use real_voice_agent_free.Runtime.Kept.{Closed-answer_turn}
use real_voice_agent_free.Routers.Keys.{
  KeysAre-IsClosed, KeysAre-emit_event, KeysAre-get_agent, KeysAre-agent, KeysAre-agent_saved,
  KeysAre-active_template, KeysAre-publish, KeysAre-rollback, KeysAre-start_call, KeysAre-add_turn,
  KeysAre-end_call, KeysAre-book, KeysAre-rebook, KeysAre-retry_found,
}

module _ (env : Env) (q : Request) where
  pub IsFresh-new_id : (kind : String) (n : ℕ) → Keeps (IsFresh env q) (new_id env kind n)
  unfolding new_id
  IsFresh-new_id kind n = record {
    at = λ w h. record { no_record = h.no_record; no_write = h.no_write };
  }

  -- A body whose changes are committed at its end.
  pub IsFresh-committed :
      {A B : Type 0} (m : M A) (g : A → B)
      → ((rows : List IdempotencyKeyModel) (log : List CacheWrite) → Keeps (KeysAre rows log) m)
      → Keeps (IsFresh env q) (session (m >>= λ a. commit >>= λ _. pure (g a)))
  IsFresh-committed m g keep = session-IsFresh env q _ λ rows log.
      Keeps-bind _ _ (keep rows log)
        λ a. Keeps-bind _ _ (KeysAre-commit rows log) λ u. Keeps-pure (g a)

  pub create_agent-IsFresh :
      (payload : AgentCreateRequest) (org : String) (now : DateTime)
      → Keeps (IsFresh env q) (create_agent env payload org now)
  unfolding create_agent
  create_agent-IsFresh payload org now =
      Keeps-bind _ _ (IsFresh-new_id "agt_" 8)
        λ id. IsFresh-committed _ _ λ rows log. KeysAre-agent env rows log _

  pub update_agent-IsFresh :
      (id : String) (payload : AgentUpdateRequest) (org : String) (now : DateTime)
      → Keeps (IsFresh env q) (update_agent id payload org now)
  unfolding update_agent
  update_agent-IsFresh id payload org now = session-IsFresh env q _ λ rows log.
      search
        (
          keeps_rules,
          KeysAre-get_agent env rows log,
          KeysAre-agent_saved env rows log,
          KeysAre-commit,
        )
        depth 12

  pub instantiate_template-IsFresh :
      (id : String) (payload : TemplateInstantiateRequest) (org : String) (now : DateTime)
      → Keeps (IsFresh env q) (instantiate_template env id payload org now)
  unfolding instantiate_template
  instantiate_template-IsFresh id payload org now = session-IsFresh env q _ λ rows log.
      search
        (
          keeps_rules,
          KeysAre-active_template env rows log,
          KeysAre-new_id rows log env,
          KeysAre-agent env rows log,
          KeysAre-commit,
        )
        depth 12

  pub publish_agent-IsFresh :
      (id org target trace : String) (now : DateTime)
      → Keeps (IsFresh env q) (publish_agent env id org target trace now)
  unfolding publish_agent
  publish_agent-IsFresh id org target trace now =
      IsFresh-committed _ _ λ rows log. KeysAre-publish env rows log id org target trace now

  pub rollback_agent-IsFresh :
      (id org : String) (version : Option String) (trace : String) (now : DateTime)
      → Keeps (IsFresh env q) (rollback_agent env id org version trace now)
  unfolding rollback_agent
  rollback_agent-IsFresh id org version trace now =
      IsFresh-committed _ _ λ rows log. KeysAre-rollback env rows log id org version trace now

  pub create_call-IsFresh :
      (payload : CallCreateRequest) (org trace : String) (now : DateTime)
      → Keeps (IsFresh env q) (create_call env payload org trace now)
  unfolding create_call
  create_call-IsFresh payload org trace now =
      Keeps-bind _ _ (IsFresh-new_id "call_" 8)
        λ id. IsFresh-committed _ _ λ rows log. KeysAre-start_call env rows log _ trace now

  pub add_call_turn-IsFresh :
      (id : String) (payload : CallTurnCreateRequest) (org trace : String) (now : DateTime)
      → Keeps (IsFresh env q) (add_call_turn env id payload org trace now)
  unfolding add_call_turn
  add_call_turn-IsFresh id payload org trace now =
      IsFresh-committed _ _ λ rows log. KeysAre-add_turn env rows log id payload org trace now

  pub respond_to_call-IsFresh :
      (z : Zones) (s : Services) (id : String) (payload : CallRespondRequest) (org trace : String)
      (now : DateTime)
      → Keeps (IsFresh env q) (respond_to_call env z s id payload org trace now)
  unfolding respond_to_call
  respond_to_call-IsFresh z s id payload org trace now = IsFresh-committed _ _ λ rows log.
      Closed-answer_turn env z (KeysAre rows log) (KeysAre-IsClosed env rows log) s id payload org
        trace now

  pub complete_call-IsFresh :
      (id : String) (payload : CallCompleteRequest) (org trace : String) (now : DateTime)
      → Keeps (IsFresh env q) (complete_call env id payload org trace now)
  unfolding complete_call
  complete_call-IsFresh id payload org trace now =
      IsFresh-committed _ _ λ rows log. KeysAre-end_call env rows log id payload org trace now

  pub create_booking-IsFresh :
      (z : Zones) (payload : BookingCreateRequest) (org trace : String) (now : DateTime)
      → Keeps (IsFresh env q) (create_booking env z payload org trace now)
  unfolding create_booking
  create_booking-IsFresh z payload org trace now =
      IsFresh-committed _ _ λ rows log. KeysAre-book env rows log z payload org trace now

  pub update_booking-IsFresh :
      (z : Zones) (id : String) (payload : BookingUpdateRequest) (org trace : String)
      (now : DateTime)
      → Keeps (IsFresh env q) (update_booking env z id payload org trace now)
  unfolding update_booking
  update_booking-IsFresh z id payload org trace now =
      IsFresh-committed _ _ λ rows log. KeysAre-rebook env rows log z id payload org trace now

  pub create_webhook-IsFresh :
      (url : String) (types : List String) (org : String) (now : DateTime)
      → Keeps (IsFresh env q) (create_webhook env url types org now)
  unfolding create_webhook
  create_webhook-IsFresh url types org now = Keeps-bind _ _ (IsFresh-new_id "wh_" 8) λ id.
      Keeps-bind _ _ (IsFresh-new_id "whsec_" 16) λ secret.
        IsFresh-committed _ _
          λ rows log. KeysAre-insert rows log webhook_subscriptions (λ xs d. refl) _

  pub retry_webhook_delivery-IsFresh :
      (id delivery_id org : String) (now : DateTime)
      → Keeps (IsFresh env q) (retry_webhook_delivery env id delivery_id org now)
  unfolding retry_webhook_delivery get_webhook_or_404 get_webhook_delivery_or_404
  retry_webhook_delivery-IsFresh id delivery_id org now =
      session-IsFresh env q _
        λ rows log. search (keeps_rules, KeysAre-retry_found env rows log) depth 16

  pub test_webhook-IsFresh :
      (id org trace : String) (now : DateTime)
      → Keeps (IsFresh env q) (test_webhook env id org trace now)
  unfolding test_webhook get_webhook_or_404
  test_webhook-IsFresh id org trace now =
      session-IsFresh env q _
        λ rows log. search (keeps_rules, KeysAre-emit_event env rows log, KeysAre-commit) depth 16
