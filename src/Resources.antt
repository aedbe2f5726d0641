-- ===== src/Resources.antt =====
-- Phone numbers, integrations and knowledge bases: store.py of apps/api/src/voiceagent_api.
mod Methods
pub mod Integrations
pub use Methods.{
  PhoneNumberCreateRequest, PhoneNumberUpdateRequest, KnowledgeBaseCreateRequest,
  KnowledgeBaseDocumentCreateRequest, normalized, is_integration,
}
unfoldable pub use Methods.{
  list_phone_numbers, create_phone_number, updated_number, update_phone_number, list_integrations,
  connected, put_integration, connect, connect_integration, integration_report, test_integration,
  list_knowledge_bases, create_knowledge_base, new_document, add_knowledge_document,
}
