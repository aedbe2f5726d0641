-- ===== src/Routers/Endpoints.antt =====
-- The modelled routes that take an `Idempotency-Key`, as one type of requests. The creation of API
-- keys (api_keys.py) and the validation of licenses (billing.py) take one too and are not among them.
use real_voice_agent_free.Prelude.{String, [], ◌∷◌}
use real_voice_agent_free.Json.{Json, str, dict}
use real_voice_agent_free.Env.{Env}
use real_voice_agent_free.Session.{M}
use real_voice_agent_free.Calls.{CallCreateRequest, CallTurnCreateRequest, CallCompleteRequest}
use real_voice_agent_free.Agents.{
  AgentCreateRequest, AgentUpdateRequest, TemplateInstantiateRequest,
}
use real_voice_agent_free.Availability.{Zones}
use real_voice_agent_free.Bookings.{BookingCreateRequest, BookingUpdateRequest}
use real_voice_agent_free.Runtime.{Services, CallRespondRequest}
use real_voice_agent_free.Routers.Http.{Web, Incoming}
use real_voice_agent_free.Routers.Agents.{
  PublishAgentRequest, RollbackAgentRequest, create_agent_route, update_agent_route,
  publish_agent_route, rollback_agent_route, instantiate_template_route,
}
use real_voice_agent_free.Routers.Calls.{
  create_call_route, add_call_turn_route, respond_to_call_route, complete_call_route,
}
use real_voice_agent_free.Routers.Bookings.{create_booking_route, update_booking_route}
use real_voice_agent_free.Routers.Webhooks.{
  WebhookCreateRequest, create_webhook_route, retry_webhook_delivery_route, test_webhook_route,
}
use real_voice_agent_free.Routers.Http.{Web, Incoming}
use real_voice_agent_free.Organizations.{Words, PartnerAccountCreateRequest}
use real_voice_agent_free.Resources.{
  PhoneNumberCreateRequest, PhoneNumberUpdateRequest, KnowledgeBaseCreateRequest,
  KnowledgeBaseDocumentCreateRequest,
}
use real_voice_agent_free.Routers.Organizations.{create_partner_account_route}
use real_voice_agent_free.Routers.Resources.{
  IntegrationConnectRequest, create_phone_number_route, update_phone_number_route,
  connect_integration_route, test_integration_route, create_knowledge_base_route,
  add_knowledge_document_route,
}

-- These routes, which answer through `once`, with what a request to them holds.
pub data Endpoint : Type 0 where
  create_agent : AgentCreateRequest → Endpoint
  update_agent : String → AgentUpdateRequest → Endpoint
  publish_agent : String → PublishAgentRequest → Endpoint
  rollback_agent : String → RollbackAgentRequest → Endpoint
  instantiate_template : String → TemplateInstantiateRequest → Endpoint
  create_call : CallCreateRequest → Endpoint
  add_call_turn : String → CallTurnCreateRequest → Endpoint
  respond_to_call : String → CallRespondRequest → Endpoint
  complete_call : String → CallCompleteRequest → Endpoint
  create_booking : BookingCreateRequest → Endpoint
  update_booking : String → BookingUpdateRequest → Endpoint
  create_webhook : WebhookCreateRequest → Endpoint
  retry_webhook_delivery : String → String → Endpoint
  test_webhook : String → Endpoint
  create_partner_account : PartnerAccountCreateRequest → Endpoint
  create_phone_number : PhoneNumberCreateRequest → Endpoint
  update_phone_number : String → PhoneNumberUpdateRequest → Endpoint
  connect_integration : String → IntegrationConnectRequest → Endpoint
  test_integration : String → Endpoint
  create_knowledge_base : KnowledgeBaseCreateRequest → Endpoint
  add_knowledge_document : String → KnowledgeBaseDocumentCreateRequest → Endpoint

module _ (env : Env) (z : Zones) (s : Services) (words : Words) (web : Web) where
  unfoldable pub serve : Endpoint → Incoming → M Json
  serve (create_agent payload) i = create_agent_route env web i payload
  serve (update_agent id payload) i = update_agent_route env web i id payload
  serve (publish_agent id payload) i = publish_agent_route env web i id payload
  serve (rollback_agent id payload) i = rollback_agent_route env web i id payload
  serve (instantiate_template id payload) i = instantiate_template_route env web i id payload
  serve (create_call payload) i = create_call_route env web i payload
  serve (add_call_turn id payload) i = add_call_turn_route env web i id payload
  serve (respond_to_call id payload) i = respond_to_call_route env z s web i id payload
  serve (complete_call id payload) i = complete_call_route env web i id payload
  serve (create_booking payload) i = create_booking_route env z web i payload
  serve (update_booking id payload) i = update_booking_route env z web i id payload
  serve (create_webhook payload) i = create_webhook_route env web i payload
  serve (retry_webhook_delivery id delivery_id) i =
      retry_webhook_delivery_route env web i id delivery_id
  serve (test_webhook id) i = test_webhook_route env web i id
  serve (create_partner_account payload) i = create_partner_account_route env words web i payload
  serve (create_phone_number payload) i = create_phone_number_route env web i payload
  serve (update_phone_number id payload) i = update_phone_number_route env web i id payload
  serve (connect_integration provider payload) i =
      connect_integration_route env words web i provider payload
  serve (test_integration provider) i = test_integration_route env words web i provider
  serve (create_knowledge_base payload) i = create_knowledge_base_route env web i payload
  serve (add_knowledge_document id payload) i = add_knowledge_document_route env web i id payload

  -- What the route hashes as the body of the request.
  unfoldable pub hashed : Endpoint → Json
  hashed (create_agent payload) = web.model_dump AgentCreateRequest payload
  hashed (update_agent id payload) = web.model_dump AgentUpdateRequest payload
  hashed (publish_agent id payload) = web.model_dump PublishAgentRequest payload
  hashed (rollback_agent id payload) = web.model_dump RollbackAgentRequest payload
  hashed (instantiate_template id payload) = web.model_dump TemplateInstantiateRequest payload
  hashed (create_call payload) = web.model_dump CallCreateRequest payload
  hashed (add_call_turn id payload) = web.model_dump CallTurnCreateRequest payload
  hashed (respond_to_call id payload) = web.model_dump CallRespondRequest payload
  hashed (complete_call id payload) = web.model_dump CallCompleteRequest payload
  hashed (create_booking payload) = web.model_dump BookingCreateRequest payload
  hashed (update_booking id payload) = web.model_dump BookingUpdateRequest payload
  hashed (create_webhook payload) = web.model_dump WebhookCreateRequest payload
  hashed (retry_webhook_delivery id delivery_id) =
      dict (("webhook_id", str id) ∷ ("delivery_id", str delivery_id) ∷ [])
  hashed (test_webhook id) = dict (("webhook_id", str id) ∷ [])
  hashed (create_partner_account payload) = web.model_dump PartnerAccountCreateRequest payload
  hashed (create_phone_number payload) = web.model_dump PhoneNumberCreateRequest payload
  hashed (update_phone_number id payload) = web.model_dump PhoneNumberUpdateRequest payload
  hashed (connect_integration provider payload) = web.model_dump IntegrationConnectRequest payload
  hashed (test_integration provider) = dict []
  hashed (create_knowledge_base payload) = web.model_dump KnowledgeBaseCreateRequest payload
  hashed (add_knowledge_document id payload) =
      web.model_dump KnowledgeBaseDocumentCreateRequest payload
