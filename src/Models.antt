-- ===== src/Models.antt =====
-- The rows of the database tables (apps/api/src/voiceagent_api/models.py), one record for each
-- mapped class with all its columns. Status columns hold the strings that the code writes.
mod Accounts
mod Billing
mod Agents
mod Webhooks
mod Calls
mod Resources
pub use Accounts.{
  OrganizationModel, ApiKeyModel, PartnerModel, PartnerAccountModel, IdempotencyKeyModel,
}
pub use Billing.{PlanModel, SubscriptionModel, LicenseModel, BillingWebhookEventModel}
pub use Agents.{
  AgentStatus, BookingStatus, AgentModel, AgentVersionModel, TemplateModel, BookingModel,
}
pub use Webhooks.{DeliveryStatus, EventModel, WebhookSubscriptionModel, WebhookDeliveryModel}
pub use Calls.{CallStatus, CallOutcome, CallModel, CallTurnModel, CallSummaryModel}
pub use Resources.{
  PhoneStatus, PhoneNumberModel, IntegrationModel, KnowledgeBaseModel, KnowledgeBaseDocumentModel,
}
