-- ===== src/Routers/Repeat.antt =====
-- A repeated request to one of the modelled routes that take an `Idempotency-Key` (those of
-- Endpoint) is answered once.
use real_voice_agent_free.Prelude.{String, ◌≡◌, false}
use real_voice_agent_free.Json.{Json}
use real_voice_agent_free.Errors.{ok}
use real_voice_agent_free.Env.{Env, CacheIsFaithful, WritesTexts}
use real_voice_agent_free.Session.{World}
use real_voice_agent_free.Idempotency.{Request, new_record, is_idempotency_expired}
use real_voice_agent_free.Idempotency.Replay.{IsFresh}
use real_voice_agent_free.Availability.{Zones}
use real_voice_agent_free.Runtime.{Services}
use real_voice_agent_free.Routers.Http.{Web, Incoming}
use real_voice_agent_free.Routers.Agents.{
  create_agent_route, update_agent_route, publish_agent_route, rollback_agent_route,
  instantiate_template_route,
}
use real_voice_agent_free.Routers.Calls.{
  create_call_route, add_call_turn_route, respond_to_call_route, complete_call_route,
}
use real_voice_agent_free.Routers.Bookings.{create_booking_route, update_booking_route}
use real_voice_agent_free.Routers.Webhooks.{
  create_webhook_route, retry_webhook_delivery_route, test_webhook_route,
}
use real_voice_agent_free.Routers.Http.{Web, Incoming, request_of}
use real_voice_agent_free.Routers.Fresh.{
  create_agent-IsFresh, update_agent-IsFresh, instantiate_template-IsFresh, publish_agent-IsFresh,
  rollback_agent-IsFresh, create_call-IsFresh, add_call_turn-IsFresh, respond_to_call-IsFresh,
  complete_call-IsFresh, create_booking-IsFresh, update_booking-IsFresh, create_webhook-IsFresh,
  retry_webhook_delivery-IsFresh, test_webhook-IsFresh,
}
use real_voice_agent_free.Routers.Endpoints.{
  Endpoint, serve, hashed, create_agent, update_agent, publish_agent, rollback_agent,
  instantiate_template, create_call, add_call_turn, respond_to_call, complete_call, create_booking,
  update_booking, create_webhook, retry_webhook_delivery, test_webhook,
}
use real_voice_agent_free.Routers.Once.{Repeats, Replayed, once-twice, once_traced-twice}
use real_voice_agent_free.Organizations.{Words}
use real_voice_agent_free.Routers.Organizations.{create_partner_account_route}
use real_voice_agent_free.Routers.Resources.{
  create_phone_number_route, update_phone_number_route, connect_integration_route,
  test_integration_route, create_knowledge_base_route, add_knowledge_document_route,
}
use real_voice_agent_free.Routers.FreshResources.{
  create_partner_account-IsFresh, create_phone_number-IsFresh, update_phone_number-IsFresh,
  connect_integration-IsFresh, test_integration-IsFresh, create_knowledge_base-IsFresh,
  add_knowledge_document-IsFresh,
}
use real_voice_agent_free.Routers.Endpoints.{
  create_partner_account, create_phone_number, update_phone_number, connect_integration,
  test_integration, create_knowledge_base, add_knowledge_document,
}

module _ (env : Env) (cache : CacheIsFaithful env) (json : WritesTexts env) (z : Zones)
    (s : Services) (words : Words) (web : Web) (key : String) (i i' : Incoming)
    (same : Repeats web key i i') where
  abbrev pub request_to : Endpoint → Request
  request_to e = request_of env web i (hashed env z s words web e) key

  -- A request to any of the routes of Endpoint that returned, sent again with the same key from the same
  -- organization while its response is kept, gets the stored response, and nothing is committed or
  -- sent, whatever the clock and the trace id are by then; at first no response was stored for it.
  pub serve-twice :
      (e : Endpoint) (w : World) (body : Json)
      → IsFresh env (request_to e) w
      → (serve env z s words web e i w).0 ≡ ok body
      → is_idempotency_expired env env.local_utc
          (new_record env
            (request_to e)
            (record { response_body = body; response_code = 200 })
            i.created_at)
          i'.looked_up
        ≡ false
      → let w' = (serve env z s words web e i w).1 in
        Replayed env body w' (serve env z s words web e i' w')
  unfolding serve hashed create_agent_route update_agent_route publish_agent_route
      rollback_agent_route instantiate_template_route create_call_route add_call_turn_route
      respond_to_call_route complete_call_route create_booking_route update_booking_route
      create_webhook_route retry_webhook_delivery_route test_webhook_route
      create_partner_account_route create_phone_number_route update_phone_number_route
      connect_integration_route test_integration_route create_knowledge_base_route
      add_knowledge_document_route
  serve-twice (create_agent payload) w body fresh ran live =
      once-twice env cache json web key i i' _ same _ _ w body fresh
        (create_agent-IsFresh env _ payload i.auth.organization_id i.now) ran live
  serve-twice (update_agent id payload) w body fresh ran live =
      once-twice env cache json web key i i' _ same _ _ w body fresh
        (update_agent-IsFresh env _ id payload i.auth.organization_id i.now) ran live
  serve-twice (publish_agent id payload) w body fresh ran live =
      once_traced-twice env cache json web key i i' _ same _ _ w body fresh
        (λ t.
          publish_agent-IsFresh env _ id i.auth.organization_id payload.target_environment t i.now)
        ran live
  serve-twice (rollback_agent id payload) w body fresh ran live =
      once_traced-twice env cache json web key i i' _ same _ _ w body fresh
        (λ t. rollback_agent-IsFresh env _ id i.auth.organization_id payload.version_id t i.now) ran
        live
  serve-twice (instantiate_template id payload) w body fresh ran live =
      once-twice env cache json web key i i' _ same _ _ w body fresh
        (instantiate_template-IsFresh env _ id payload i.auth.organization_id i.now) ran live
  serve-twice (create_call payload) w body fresh ran live =
      once_traced-twice env cache json web key i i' _ same _ _ w body fresh
        (λ t. create_call-IsFresh env _ payload i.auth.organization_id t i.now) ran live
  serve-twice (add_call_turn id payload) w body fresh ran live =
      once_traced-twice env cache json web key i i' _ same _ _ w body fresh
        (λ t. add_call_turn-IsFresh env _ id payload i.auth.organization_id t i.now) ran live
  serve-twice (respond_to_call id payload) w body fresh ran live =
      once_traced-twice env cache json web key i i' _ same _ _ w body fresh
        (λ t. respond_to_call-IsFresh env _ z s id payload i.auth.organization_id t i.now) ran live
  serve-twice (complete_call id payload) w body fresh ran live =
      once_traced-twice env cache json web key i i' _ same _ _ w body fresh
        (λ t. complete_call-IsFresh env _ id payload i.auth.organization_id t i.now) ran live
  serve-twice (create_booking payload) w body fresh ran live =
      once_traced-twice env cache json web key i i' _ same _ _ w body fresh
        (λ t. create_booking-IsFresh env _ z payload i.auth.organization_id t i.now) ran live
  serve-twice (update_booking id payload) w body fresh ran live =
      once_traced-twice env cache json web key i i' _ same _ _ w body fresh
        (λ t. update_booking-IsFresh env _ z id payload i.auth.organization_id t i.now) ran live
  serve-twice (create_webhook payload) w body fresh ran live =
      once-twice env cache json web key i i' _ same _ _ w body fresh
        (create_webhook-IsFresh env _ payload.target_url payload.event_types i.auth.organization_id
          i.now)
        ran live
  serve-twice (retry_webhook_delivery id delivery_id) w body fresh ran live =
      once-twice env cache json web key i i' _ same _ _ w body fresh
        (retry_webhook_delivery-IsFresh env _ id delivery_id i.auth.organization_id i.now) ran live
  serve-twice (test_webhook id) w body fresh ran live =
      once_traced-twice env cache json web key i i' _ same _ _ w body fresh
        (λ t. test_webhook-IsFresh env _ id i.auth.organization_id t i.now) ran live
  serve-twice (create_partner_account payload) w body fresh ran live =
      once_traced-twice env cache json web key i i' _ same _ _ w body fresh
        (λ t. create_partner_account-IsFresh env _ words payload i.auth.organization_id t i.now) ran
        live
  serve-twice (create_phone_number payload) w body fresh ran live =
      once-twice env cache json web key i i' _ same _ _ w body fresh
        (create_phone_number-IsFresh env _ payload i.auth.organization_id i.now) ran live
  serve-twice (update_phone_number id payload) w body fresh ran live =
      once-twice env cache json web key i i' _ same _ _ w body fresh
        (update_phone_number-IsFresh env _ id payload i.auth.organization_id i.now) ran live
  serve-twice (connect_integration provider payload) w body fresh ran live =
      once-twice env cache json web key i i' _ same _ _ w body fresh
        (connect_integration-IsFresh env _ words provider payload.config i.auth.organization_id
          i.now)
        ran live
  serve-twice (test_integration provider) w body fresh ran live =
      once-twice env cache json web key i i' _ same _ _ w body fresh
        (test_integration-IsFresh env _ words provider i.auth.organization_id i.now) ran live
  serve-twice (create_knowledge_base payload) w body fresh ran live =
      once-twice env cache json web key i i' _ same _ _ w body fresh
        (create_knowledge_base-IsFresh env _ payload i.auth.organization_id i.now) ran live
  serve-twice (add_knowledge_document id payload) w body fresh ran live =
      once-twice env cache json web key i i' _ same _ _ w body fresh
        (add_knowledge_document-IsFresh env _ id payload i.auth.organization_id i.now) ran live
