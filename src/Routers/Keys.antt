-- ===== src/Routers/Keys.antt =====
-- The bodies of the methods behind the routes (store.py) leave the stored responses as they are.
use real_voice_agent_free.Prelude.{String, refl, Option, none, some, List, DateTime}
use real_voice_agent_free.Env.{Env, CacheWrite}
use real_voice_agent_free.Models.{
  IdempotencyKeyModel, TemplateModel, CallModel, CallOutcome, CallSummaryModel, BookingModel,
  BookingStatus, AgentModel, DeliveryStatus, EventModel, WebhookSubscriptionModel,
  WebhookDeliveryModel,
}
use real_voice_agent_free.Json.{Json}
use real_voice_agent_free.Db.{agents, agent_versions, bookings, calls, call_turns, call_summaries}
use real_voice_agent_free.Session.{insert, save}
use real_voice_agent_free.Session.Keeps.{Keeps, keeps_rules}
use real_voice_agent_free.Webhooks.{Emission, emit_event, dispatch, retry_found}
use real_voice_agent_free.Webhooks.Closed.{IsClosed, Closed-attempt, Closed-emit_event}
use real_voice_agent_free.Idempotency.Frame.{
  KeysAre, KeysAre-new_id, KeysAre-commit, KeysAre-insert, KeysAre-save,
}
use real_voice_agent_free.Calls.{
  CallTurnCreateRequest, CallCompleteRequest, get_agent_or_404, get_call_or_404, start_call,
  add_turn, announce, put_summary, end_call,
}
use real_voice_agent_free.Agents.{active_template, target_version, publish, rollback}
use real_voice_agent_free.Availability.{Zones}
use real_voice_agent_free.Bookings.{
  BookingCreateRequest, BookingUpdateRequest, get_booking_or_404, calendar_create, external_id_of,
  calendar_update, book, ensure_unless_cancelled, rebook,
}
use real_voice_agent_free.Bookings.Ensure.{ensure-Keeps}

module _ (env : Env) (rows : List IdempotencyKeyModel) (log : List CacheWrite) where
  KeysAre-dispatch : (u s : String) (e : Json) → Keeps (KeysAre rows log) (dispatch env u s e)
  unfolding dispatch
  KeysAre-dispatch u s e = record {
    at = λ w h. record { on_disk = h.on_disk; in_view = h.in_view; cached = h.cached };
  }

  pub KeysAre-IsClosed : IsClosed env (KeysAre rows log)
  KeysAre-IsClosed = record {
    by_new_id = KeysAre-new_id rows log env;
    by_dispatch = KeysAre-dispatch;
    by_insert = λ t plain r. KeysAre-insert rows log t plain r;
    by_save = λ t plain r. KeysAre-save rows log t plain r;
  }

  pub KeysAre-emit_event : (e : Emission) → Keeps (KeysAre rows log) (emit_event env e)
  KeysAre-emit_event = Closed-emit_event env (KeysAre rows log) KeysAre-IsClosed

  pub KeysAre-get_agent : (id org : String) → Keeps (KeysAre rows log) (get_agent_or_404 id org)
  unfolding get_agent_or_404
  KeysAre-get_agent id org = search keeps_rules

  KeysAre-get_call : (id org : String) → Keeps (KeysAre rows log) (get_call_or_404 id org)
  unfolding get_call_or_404
  KeysAre-get_call id org = search keeps_rules

  -- agents
  pub KeysAre-agent : (a : AgentModel) → Keeps (KeysAre rows log) (insert agents a)
  KeysAre-agent = KeysAre-insert rows log agents (λ xs d. refl)

  pub KeysAre-agent_saved : (a : AgentModel) → Keeps (KeysAre rows log) (save agents a)
  KeysAre-agent_saved = KeysAre-save rows log agents (λ xs d. refl)

  pub KeysAre-active_template :
      (o : Option TemplateModel) → Keeps (KeysAre rows log) (active_template o)
  unfolding active_template
  KeysAre-active_template none = search keeps_rules
  KeysAre-active_template (some t) = search keeps_rules

  KeysAre-target_version :
      (id : String) (version : Option String)
      → Keeps (KeysAre rows log) (target_version env id version)
  unfolding target_version
  KeysAre-target_version id none = search keeps_rules
  KeysAre-target_version id (some String.[]) = search keeps_rules
  KeysAre-target_version id (some (String.◌∷◌ c s)) = search keeps_rules

  pub KeysAre-publish :
      (id org target trace : String) (now : DateTime)
      → Keeps (KeysAre rows log) (publish env id org target trace now)
  unfolding publish
  KeysAre-publish id org target trace now =
      search
        (
          keeps_rules,
          KeysAre-get_agent,
          KeysAre-new_id rows log env,
          KeysAre-insert rows log agent_versions (λ xs d. refl),
          KeysAre-agent_saved,
          KeysAre-emit_event,
        )
        depth 16

  pub KeysAre-rollback :
      (id org : String) (version : Option String) (trace : String) (now : DateTime)
      → Keeps (KeysAre rows log) (rollback env id org version trace now)
  unfolding rollback
  KeysAre-rollback id org version trace now =
      search
        (
          keeps_rules, KeysAre-get_agent, KeysAre-target_version, KeysAre-agent_saved,
          KeysAre-emit_event,
        )
        depth 16

  -- calls
  KeysAre-call_saved : (c : CallModel) → Keeps (KeysAre rows log) (save calls c)
  KeysAre-call_saved = KeysAre-save rows log calls (λ xs d. refl)

  pub KeysAre-start_call :
      (call : CallModel) (trace : String) (now : DateTime)
      → Keeps (KeysAre rows log) (start_call env call trace now)
  unfolding start_call
  KeysAre-start_call call trace now =
      search
        (
          keeps_rules,
          KeysAre-get_agent,
          KeysAre-insert rows log calls (λ xs d. refl),
          KeysAre-emit_event,
        )
        depth 16

  pub KeysAre-add_turn :
      (id : String) (payload : CallTurnCreateRequest) (org trace : String) (now : DateTime)
      → Keeps (KeysAre rows log) (add_turn env id payload org trace now)
  unfolding add_turn
  KeysAre-add_turn id payload org trace now =
      search
        (
          keeps_rules,
          KeysAre-get_call,
          KeysAre-new_id rows log env,
          KeysAre-call_saved,
          KeysAre-insert rows log call_turns (λ xs d. refl),
          KeysAre-emit_event,
        )
        depth 16

  KeysAre-put_summary :
      (old : Option CallSummaryModel) (summary : CallSummaryModel)
      → Keeps (KeysAre rows log) (put_summary old summary)
  KeysAre-put_summary none summary = KeysAre-insert rows log call_summaries (λ xs d. refl) summary
  KeysAre-put_summary (some old) summary =
      KeysAre-save rows log call_summaries (λ xs d. refl) summary

  KeysAre-announce :
      (call : CallModel) (payload : CallCompleteRequest) (org trace : String) (now : DateTime)
      (outcome : CallOutcome)
      → Keeps (KeysAre rows log) (announce env call payload org trace now outcome)
  unfolding announce
  KeysAre-announce call payload org trace now CallOutcome.failed =
      search (keeps_rules, KeysAre-emit_event)
  KeysAre-announce call payload org trace now CallOutcome.escalated =
      search (keeps_rules, KeysAre-emit_event)
  KeysAre-announce call payload org trace now _ = search keeps_rules

  pub KeysAre-end_call :
      (id : String) (payload : CallCompleteRequest) (org trace : String) (now : DateTime)
      → Keeps (KeysAre rows log) (end_call env id payload org trace now)
  unfolding end_call
  KeysAre-end_call id payload org trace now =
      search
        (
          keeps_rules, KeysAre-get_call, KeysAre-put_summary, KeysAre-call_saved, KeysAre-announce,
          KeysAre-emit_event,
        )
        depth 16

  -- bookings
  KeysAre-external_id :
      (id : String) (old : Option String) → Keeps (KeysAre rows log) (external_id_of env id old)
  unfolding external_id_of
  KeysAre-external_id id none = search (keeps_rules, KeysAre-new_id rows log env)
  KeysAre-external_id id (some String.[]) = search (keeps_rules, KeysAre-new_id rows log env)
  KeysAre-external_id id (some (String.◌∷◌ c s)) = search keeps_rules

  KeysAre-unless_cancelled :
      (z : Zones) (agent : AgentModel) (org : String) (b : BookingModel) (now : DateTime)
      (status : BookingStatus)
      → Keeps (KeysAre rows log) (ensure_unless_cancelled env z agent org b now status)
  unfolding ensure_unless_cancelled
  KeysAre-unless_cancelled z agent org b now BookingStatus.cancelled = search keeps_rules
  KeysAre-unless_cancelled z agent org b now _ =
      ensure-Keeps env z agent org b.start_at now (some b.id)

  pub KeysAre-book :
      (z : Zones) (payload : BookingCreateRequest) (org trace : String) (now : DateTime)
      → Keeps (KeysAre rows log) (book env z payload org trace now)
  unfolding book calendar_create
  KeysAre-book z payload org trace now =
      search
        (
          keeps_rules,
          KeysAre-get_agent,
          ensure-Keeps env z,
          KeysAre-new_id rows log env,
          KeysAre-insert rows log bookings (λ xs d. refl),
          KeysAre-emit_event,
        )
        depth 16

  pub KeysAre-rebook :
      (z : Zones) (id : String) (payload : BookingUpdateRequest) (org trace : String)
      (now : DateTime)
      → Keeps (KeysAre rows log) (rebook env z id payload org trace now)
  unfolding rebook calendar_update get_booking_or_404
  KeysAre-rebook z id payload org trace now =
      search
        (
          keeps_rules,
          KeysAre-get_agent,
          KeysAre-unless_cancelled,
          KeysAre-external_id,
          KeysAre-save rows log bookings (λ xs d. refl),
          KeysAre-emit_event,
        )
        depth 24

  -- webhooks
  pub KeysAre-retry_found :
      (now : DateTime) (d : WebhookDeliveryModel) (hook : WebhookSubscriptionModel)
      (event : EventModel) (status : DeliveryStatus)
      → Keeps (KeysAre rows log) (retry_found env now d hook event status)
  unfolding retry_found
  KeysAre-retry_found now d hook event DeliveryStatus.delivered = search keeps_rules
  KeysAre-retry_found now d hook event _ =
      search (keeps_rules, Closed-attempt env (KeysAre rows log) KeysAre-IsClosed, KeysAre-commit)
