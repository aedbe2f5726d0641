-- ===== src/Db.antt =====
-- The database: the tables of models.py, and what the code reads and writes of a table.
use real_voice_agent_free.Prelude.{String, List, []}
use real_voice_agent_free.Models.{
  OrganizationModel, ApiKeyModel, PartnerModel, PartnerAccountModel, IdempotencyKeyModel, PlanModel,
  SubscriptionModel, LicenseModel, BillingWebhookEventModel, AgentModel, AgentVersionModel,
  TemplateModel, BookingModel, EventModel, WebhookSubscriptionModel, WebhookDeliveryModel,
  CallModel, CallTurnModel, CallSummaryModel, PhoneNumberModel, IntegrationModel,
  KnowledgeBaseModel, KnowledgeBaseDocumentModel,
}

-- Each table is the list of its rows.
pub record Db : Type 0 where
  pub organizations : List OrganizationModel
  pub api_keys : List ApiKeyModel
  pub partners : List PartnerModel
  pub partner_accounts : List PartnerAccountModel
  pub idempotency_keys : List IdempotencyKeyModel
  pub plans : List PlanModel
  pub subscriptions : List SubscriptionModel
  pub licenses : List LicenseModel
  pub billing_webhook_events : List BillingWebhookEventModel
  pub agents : List AgentModel
  pub agent_versions : List AgentVersionModel
  pub templates : List TemplateModel
  pub bookings : List BookingModel
  pub events : List EventModel
  pub webhook_subscriptions : List WebhookSubscriptionModel
  pub webhook_deliveries : List WebhookDeliveryModel
  pub calls : List CallModel
  pub call_turns : List CallTurnModel
  pub call_summaries : List CallSummaryModel
  pub phone_numbers : List PhoneNumberModel
  pub integrations : List IntegrationModel
  pub knowledge_bases : List KnowledgeBaseModel
  pub knowledge_base_documents : List KnowledgeBaseDocumentModel

abbrev pub empty_db : Db
empty_db = record {
  organizations = [];
  api_keys = [];
  partners = [];
  partner_accounts = [];
  idempotency_keys = [];
  plans = [];
  subscriptions = [];
  licenses = [];
  billing_webhook_events = [];
  agents = [];
  agent_versions = [];
  templates = [];
  bookings = [];
  events = [];
  webhook_subscriptions = [];
  webhook_deliveries = [];
  calls = [];
  call_turns = [];
  call_summaries = [];
  phone_numbers = [];
  integrations = [];
  knowledge_bases = [];
  knowledge_base_documents = [];
}

-- A table as the session uses it: its rows, and the primary key of a row.
pub record Table (A : Type 0) : Type 0 where
  pub rows : Db → List A
  pub write : List A → Db → Db
  pub key : A → String

abbrev pub organizations : Table OrganizationModel
organizations = record {
  rows = λ d. d.organizations;
  write = λ xs d. record d { organizations = xs };
  key = λ r. r.id;
}

abbrev pub api_keys : Table ApiKeyModel
api_keys = record {
  rows = λ d. d.api_keys;
  write = λ xs d. record d { api_keys = xs };
  key = λ r. r.id;
}

abbrev pub partners : Table PartnerModel
partners = record {
  rows = λ d. d.partners;
  write = λ xs d. record d { partners = xs };
  key = λ r. r.id;
}

abbrev pub partner_accounts : Table PartnerAccountModel
partner_accounts = record {
  rows = λ d. d.partner_accounts;
  write = λ xs d. record d { partner_accounts = xs };
  key = λ r. r.id;
}

abbrev pub idempotency_keys : Table IdempotencyKeyModel
idempotency_keys = record {
  rows = λ d. d.idempotency_keys;
  write = λ xs d. record d { idempotency_keys = xs };
  key = λ r. r.id;
}

abbrev pub plans : Table PlanModel
plans = record { rows = λ d. d.plans; write = λ xs d. record d { plans = xs }; key = λ r. r.code }

abbrev pub subscriptions : Table SubscriptionModel
subscriptions = record {
  rows = λ d. d.subscriptions;
  write = λ xs d. record d { subscriptions = xs };
  key = λ r. r.id;
}

abbrev pub licenses : Table LicenseModel
licenses = record {
  rows = λ d. d.licenses;
  write = λ xs d. record d { licenses = xs };
  key = λ r. r.id;
}

abbrev pub billing_webhook_events : Table BillingWebhookEventModel
billing_webhook_events = record {
  rows = λ d. d.billing_webhook_events;
  write = λ xs d. record d { billing_webhook_events = xs };
  key = λ r. r.id;
}

abbrev pub agents : Table AgentModel
agents = record { rows = λ d. d.agents; write = λ xs d. record d { agents = xs }; key = λ r. r.id }

abbrev pub agent_versions : Table AgentVersionModel
agent_versions = record {
  rows = λ d. d.agent_versions;
  write = λ xs d. record d { agent_versions = xs };
  key = λ r. r.version_id;
}

abbrev pub templates : Table TemplateModel
templates = record {
  rows = λ d. d.templates;
  write = λ xs d. record d { templates = xs };
  key = λ r. r.id;
}

abbrev pub bookings : Table BookingModel
bookings = record {
  rows = λ d. d.bookings;
  write = λ xs d. record d { bookings = xs };
  key = λ r. r.id;
}

abbrev pub events : Table EventModel
events = record {
  rows = λ d. d.events;
  write = λ xs d. record d { events = xs };
  key = λ r. r.event_id;
}

abbrev pub webhook_subscriptions : Table WebhookSubscriptionModel
webhook_subscriptions = record {
  rows = λ d. d.webhook_subscriptions;
  write = λ xs d. record d { webhook_subscriptions = xs };
  key = λ r. r.id;
}

abbrev pub webhook_deliveries : Table WebhookDeliveryModel
webhook_deliveries = record {
  rows = λ d. d.webhook_deliveries;
  write = λ xs d. record d { webhook_deliveries = xs };
  key = λ r. r.id;
}

abbrev pub calls : Table CallModel
calls = record { rows = λ d. d.calls; write = λ xs d. record d { calls = xs }; key = λ r. r.id }

abbrev pub call_turns : Table CallTurnModel
call_turns = record {
  rows = λ d. d.call_turns;
  write = λ xs d. record d { call_turns = xs };
  key = λ r. r.id;
}

abbrev pub call_summaries : Table CallSummaryModel
call_summaries = record {
  rows = λ d. d.call_summaries;
  write = λ xs d. record d { call_summaries = xs };
  key = λ r. r.call_id;
}

abbrev pub phone_numbers : Table PhoneNumberModel
phone_numbers = record {
  rows = λ d. d.phone_numbers;
  write = λ xs d. record d { phone_numbers = xs };
  key = λ r. r.id;
}

abbrev pub integrations : Table IntegrationModel
integrations = record {
  rows = λ d. d.integrations;
  write = λ xs d. record d { integrations = xs };
  key = λ r. r.id;
}

abbrev pub knowledge_bases : Table KnowledgeBaseModel
knowledge_bases = record {
  rows = λ d. d.knowledge_bases;
  write = λ xs d. record d { knowledge_bases = xs };
  key = λ r. r.id;
}

abbrev pub knowledge_base_documents : Table KnowledgeBaseDocumentModel
knowledge_base_documents = record {
  rows = λ d. d.knowledge_base_documents;
  write = λ xs d. record d { knowledge_base_documents = xs };
  key = λ r. r.id;
}
