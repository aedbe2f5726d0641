-- ===== src/Resources/Methods.antt =====
-- Phone numbers, integrations and knowledge bases: the methods of `AgentStore`
-- (apps/api/src/voiceagent_api/store.py), with the requests of schemas.py.
use real_voice_agent_free.Prelude.{
  String, ◌==◌, Bool, true, ◌&&◌, Option, none, some, List, [], ◌∷◌, map, or_else, DateTime, aware,
}
use real_voice_agent_free.Json.{Json, str, datetime, dict}
use real_voice_agent_free.Errors.{not_found}
use real_voice_agent_free.Env.{Env, whole}
use real_voice_agent_free.Models.{
  PhoneStatus, PhoneNumberModel, IntegrationModel, KnowledgeBaseModel, KnowledgeBaseDocumentModel,
}
use real_voice_agent_free.Db.{
  phone_numbers, integrations, knowledge_bases, knowledge_base_documents,
}
use real_voice_agent_free.Serialize.{
  serialize_phone_number, serialize_integration, serialize_knowledge_base,
  serialize_knowledge_document,
}
use real_voice_agent_free.Session.{
  M, pure, ◌>>=◌, ◌>>◌, require, new_id, select, scalar, insert, save, commit, session,
}
use real_voice_agent_free.Organizations.{Words}

unfoldable pub list_phone_numbers : Env → String → M (List Json)
list_phone_numbers env organization_id = session (do
  found ← select phone_numbers (λ n. n.organization_id == organization_id)
  pure
      (map serialize_phone_number (env.order_asc whole PhoneNumberModel (λ n. n.created_at) found)))

pub record PhoneNumberCreateRequest : Type 0 where
  pub provider : String
  pub number : String
  pub label : Option String
  pub status : PhoneStatus
  pub capabilities : Json

unfoldable pub create_phone_number : Env → PhoneNumberCreateRequest → String → DateTime → M Json
create_phone_number env payload organization_id now = do
  id ← new_id env "num_" 8
  let number : PhoneNumberModel = record {
    id = id;
    organization_id = organization_id;
    provider = payload.provider;
    number = payload.number;
    label = payload.label;
    status = payload.status;
    capabilities = payload.capabilities;
    created_at = now;
    updated_at = now;
  }
  session (do insert phone_numbers number; commit; pure (serialize_phone_number number))

pub record PhoneNumberUpdateRequest : Type 0 where
  pub label : Option String
  pub status : Option PhoneStatus
  pub capabilities : Option Json

unfoldable pub updated_number :
    PhoneNumberModel → PhoneNumberUpdateRequest → DateTime → PhoneNumberModel
updated_number number payload now = record number {
  label = elim payload.label [ none ↦ number.label | some label ↦ some label ];
  status = or_else payload.status number.status;
  capabilities = or_else payload.capabilities number.capabilities;
  updated_at = now;
}

unfoldable pub update_phone_number : String → PhoneNumberUpdateRequest → String → DateTime → M Json
update_phone_number number_id payload organization_id now = session (do
  found ← scalar phone_numbers (λ n. n.id == number_id && n.organization_id == organization_id)
  number ← require found (not_found "Phone number not found")
  save phone_numbers (updated_number number payload now)
  commit
  pure (serialize_phone_number (updated_number number payload now)))

unfoldable pub list_integrations : Env → String → M (List Json)
list_integrations env organization_id = session (do
  found ← select integrations (λ i. i.organization_id == organization_id)
  pure (
      map serialize_integration (env.order_by_text whole IntegrationModel (λ i. i.provider) found)))

-- `provider.strip().lower()`
abbrev pub normalized : Words → String → String
normalized words provider = words.lower (words.strip provider)

abbrev pub is_integration : String → String → IntegrationModel → Bool
is_integration organization_id provider i =
    i.organization_id == organization_id && i.provider == provider

unfoldable pub connected :
    String → String → String → Json → DateTime → Option IntegrationModel → IntegrationModel
connected id organization_id provider config now none = record {
  id = id;
  organization_id = organization_id;
  provider = provider;
  status = "connected";
  config = config;
  last_tested_at = none;
  created_at = now;
  updated_at = now;
}
connected id organization_id provider config now (some integration) = record integration {
  status = "connected";
  config = config;
  updated_at = now;
}

-- A new row, or the one that was found with the new configuration.
unfoldable pub put_integration :
    Env → String → String → Json → DateTime → Option IntegrationModel → M IntegrationModel
put_integration env organization_id provider config now none = do
  id ← new_id env "int_" 8
  insert integrations (connected id organization_id provider config now none)
  pure (connected id organization_id provider config now none)
put_integration env organization_id provider config now (some integration) = do
  save integrations
      (connected integration.id organization_id provider config now (some integration))
  pure (connected integration.id organization_id provider config now (some integration))

unfoldable pub connect : Env → String → String → Json → DateTime → M IntegrationModel
connect env provider organization_id config now = do
  found ← scalar integrations (is_integration organization_id provider)
  put_integration env organization_id provider config now found

unfoldable pub connect_integration : Env → Words → String → Json → String → DateTime → M Json
connect_integration env words provider config organization_id now = session (do
  integration ← connect env (normalized words provider) organization_id config now
  commit
  pure (serialize_integration integration))

unfoldable pub integration_report : String → IntegrationModel → DateTime → Json
integration_report provider integration now = dict (
    ("provider", str provider)
    ∷ ("status", str "healthy")
    ∷ ("checked_at", datetime (aware now))
    ∷ ("details", dict (("connection", str integration.status) ∷ []))
    ∷ [])

unfoldable pub test_integration : Words → String → String → DateTime → M Json
test_integration words provider organization_id now = session (do
  found ← scalar integrations (is_integration organization_id (normalized words provider))
  integration ← require found (not_found "Integration not found")
  save integrations (record integration { last_tested_at = some now; updated_at = now })
  commit
  pure (integration_report (normalized words provider) integration now))

unfoldable pub list_knowledge_bases : Env → String → M (List Json)
list_knowledge_bases env organization_id = session (do
  found ← select knowledge_bases (λ b. b.organization_id == organization_id)
  pure (
      map serialize_knowledge_base
        (env.order_desc whole KnowledgeBaseModel (λ b. b.created_at) found)))

pub record KnowledgeBaseCreateRequest : Type 0 where
  pub name : String
  pub description : Option String

unfoldable pub create_knowledge_base : Env → KnowledgeBaseCreateRequest → String → DateTime → M Json
create_knowledge_base env payload organization_id now = do
  id ← new_id env "kb_" 8
  let base : KnowledgeBaseModel = record {
    id = id;
    organization_id = organization_id;
    name = payload.name;
    description = payload.description;
    is_active = true;
    created_at = now;
    updated_at = now;
  }
  session (do insert knowledge_bases base; commit; pure (serialize_knowledge_base base))

pub record KnowledgeBaseDocumentCreateRequest : Type 0 where
  pub title : String
  pub content : String
  pub source_url : Option String

unfoldable pub new_document :
    String → String → KnowledgeBaseDocumentCreateRequest → DateTime → KnowledgeBaseDocumentModel
new_document id knowledge_base_id payload now = record {
  id = id;
  knowledge_base_id = knowledge_base_id;
  title = payload.title;
  content = payload.content;
  source_url = payload.source_url;
  created_at = now;
  updated_at = now;
}

unfoldable pub add_knowledge_document :
    Env → String → KnowledgeBaseDocumentCreateRequest → String → DateTime → M Json
add_knowledge_document env knowledge_base_id payload organization_id now = session (do
  found ←
      scalar knowledge_bases
        (λ b. b.id == knowledge_base_id && b.organization_id == organization_id)
  base ← require found (not_found "Knowledge base not found")
  id ← new_id env "kbd_" 8
  let document = new_document id base.id payload now
  insert knowledge_base_documents document
  save knowledge_bases (record base { updated_at = now })
  commit
  pure (serialize_knowledge_document document))
