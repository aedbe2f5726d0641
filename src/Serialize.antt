-- ===== src/Serialize.antt =====
-- The dictionaries that store.py returns for its rows (`_serialize_*`).
pub mod Values
mod Accounts
mod Billing
mod Agents
mod Webhooks
mod Calls
mod Resources
unfoldable pub use Accounts.{serialize_partner, serialize_organization, serialize_api_key}
unfoldable pub use Billing.{serialize_plan, serialize_subscription, serialize_license}
unfoldable pub use Agents.{
  serialize_agent, serialize_version, serialize_template, serialize_booking,
}
unfoldable pub use Webhooks.{serialize_event, serialize_delivery}
unfoldable pub use Calls.{serialize_call, serialize_call_turn, serialize_call_summary}
unfoldable pub use Resources.{
  serialize_phone_number, serialize_integration, serialize_knowledge_base,
  serialize_knowledge_document,
}
