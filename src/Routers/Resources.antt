-- ===== src/Routers/Resources.antt =====
-- The routes of apps/api/src/voiceagent_api/routers/phone_numbers.py, integrations.py and
-- knowledge_bases.py.
use real_voice_agent_free.Prelude.{ℕ, ℤ, String, Option, List, []}
use real_voice_agent_free.Json.{Json, dict}
use real_voice_agent_free.Env.{Env}
use real_voice_agent_free.Session.{M, pure, ◌>>=◌}
use real_voice_agent_free.Auth.{AuthContext}
use real_voice_agent_free.Organizations.{Words}
use real_voice_agent_free.Resources.{
  PhoneNumberCreateRequest, PhoneNumberUpdateRequest, KnowledgeBaseCreateRequest,
  KnowledgeBaseDocumentCreateRequest, list_phone_numbers, create_phone_number, update_phone_number,
  list_integrations, connect_integration, test_integration, list_knowledge_bases,
  create_knowledge_base, add_knowledge_document,
}
use real_voice_agent_free.Routers.Http.{Web, Incoming, once}
use real_voice_agent_free.Routers.Pages.{apply_pagination}

unfoldable pub list_phone_numbers_route : Env → AuthContext → Option ℤ → ℤ → M (List Json × ℕ)
list_phone_numbers_route env auth limit offset = do
  raw_items ← list_phone_numbers env auth.organization_id
  pure (apply_pagination raw_items limit offset)

unfoldable pub create_phone_number_route : Env → Web → Incoming → PhoneNumberCreateRequest → M Json
create_phone_number_route env web i payload =
    once env web i (web.model_dump PhoneNumberCreateRequest payload)
      (create_phone_number env payload i.auth.organization_id i.now)

unfoldable pub update_phone_number_route :
    Env → Web → Incoming → String → PhoneNumberUpdateRequest → M Json
update_phone_number_route env web i number_id payload =
    once env web i (web.model_dump PhoneNumberUpdateRequest payload)
      (update_phone_number number_id payload i.auth.organization_id i.now)

unfoldable pub list_integrations_route : Env → AuthContext → Option ℤ → ℤ → M (List Json × ℕ)
list_integrations_route env auth limit offset = do
  raw_items ← list_integrations env auth.organization_id
  pure (apply_pagination raw_items limit offset)

pub record IntegrationConnectRequest : Type 0 where
  pub config : Json

unfoldable pub connect_integration_route :
    Env → Words → Web → Incoming → String → IntegrationConnectRequest → M Json
connect_integration_route env words web i provider payload =
    once env web i (web.model_dump IntegrationConnectRequest payload)
      (connect_integration env words provider payload.config i.auth.organization_id i.now)

-- The hash is that of an empty payload.
unfoldable pub test_integration_route : Env → Words → Web → Incoming → String → M Json
test_integration_route env words web i provider =
    once env web i (dict []) (test_integration words provider i.auth.organization_id i.now)

unfoldable pub list_knowledge_bases_route : Env → AuthContext → Option ℤ → ℤ → M (List Json × ℕ)
list_knowledge_bases_route env auth limit offset = do
  raw_items ← list_knowledge_bases env auth.organization_id
  pure (apply_pagination raw_items limit offset)

unfoldable pub create_knowledge_base_route :
    Env → Web → Incoming → KnowledgeBaseCreateRequest → M Json
create_knowledge_base_route env web i payload =
    once env web i (web.model_dump KnowledgeBaseCreateRequest payload)
      (create_knowledge_base env payload i.auth.organization_id i.now)

unfoldable pub add_knowledge_document_route :
    Env → Web → Incoming → String → KnowledgeBaseDocumentCreateRequest → M Json
add_knowledge_document_route env web i knowledge_base_id payload =
    once env web i (web.model_dump KnowledgeBaseDocumentCreateRequest payload)
      (add_knowledge_document env knowledge_base_id payload i.auth.organization_id i.now)
