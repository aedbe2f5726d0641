-- ===== src/Serialize/Resources.antt =====
-- The dictionaries that the functions `_serialize_*` of store.py build: resources.
use real_voice_agent_free.Prelude.{aware, [], ◌∷◌}
use real_voice_agent_free.Json.{bool, str, datetime, dict, Json}
use real_voice_agent_free.Models.{
  IntegrationModel, KnowledgeBaseDocumentModel, KnowledgeBaseModel, PhoneNumberModel,
}
use real_voice_agent_free.Serialize.Values.{opt_str, opt_datetime, phone_status_text}

unfoldable pub serialize_phone_number : PhoneNumberModel → Json
serialize_phone_number model = dict (
    ("id", str model.id)
    ∷ ("organization_id", str model.organization_id)
    ∷ ("provider", str model.provider)
    ∷ ("number", str model.number)
    ∷ ("label", opt_str model.label)
    ∷ ("status", str (phone_status_text model.status))
    ∷ ("capabilities", model.capabilities)
    ∷ ("created_at", datetime (aware model.created_at))
    ∷ ("updated_at", datetime (aware model.updated_at))
    ∷ [])

unfoldable pub serialize_integration : IntegrationModel → Json
serialize_integration model = dict (
    ("id", str model.id)
    ∷ ("organization_id", str model.organization_id)
    ∷ ("provider", str model.provider)
    ∷ ("status", str model.status)
    ∷ ("config", model.config)
    ∷ ("last_tested_at", opt_datetime model.last_tested_at)
    ∷ ("created_at", datetime (aware model.created_at))
    ∷ ("updated_at", datetime (aware model.updated_at))
    ∷ [])

unfoldable pub serialize_knowledge_base : KnowledgeBaseModel → Json
serialize_knowledge_base model = dict (
    ("id", str model.id)
    ∷ ("organization_id", str model.organization_id)
    ∷ ("name", str model.name)
    ∷ ("description", opt_str model.description)
    ∷ ("is_active", bool model.is_active)
    ∷ ("created_at", datetime (aware model.created_at))
    ∷ ("updated_at", datetime (aware model.updated_at))
    ∷ [])

unfoldable pub serialize_knowledge_document : KnowledgeBaseDocumentModel → Json
serialize_knowledge_document model = dict (
    ("id", str model.id)
    ∷ ("knowledge_base_id", str model.knowledge_base_id)
    ∷ ("title", str model.title)
    ∷ ("content", str model.content)
    ∷ ("source_url", opt_str model.source_url)
    ∷ ("created_at", datetime (aware model.created_at))
    ∷ ("updated_at", datetime (aware model.updated_at))
    ∷ [])
