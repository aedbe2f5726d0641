-- ===== src/Webhooks.antt =====
-- Webhooks: store.py of apps/api/src/voiceagent_api, the methods on subscriptions and deliveries.
mod Defs
mod Methods
mod Listings
pub mod Valid
pub mod Rows
pub mod Queue
pub mod QueueRows
pub mod Untouched
mod Overflow
pub mod Attempts
pub mod Fanout
pub mod Commands
pub use Defs.{Emission, FirstDelivery, new_event, new_delivery}
unfoldable pub use Defs.{
  get_webhook_or_404, get_webhook_delivery_or_404, next_webhook_attempt_at, settle, dispatch,
  check_overflow, attempt_webhook_delivery, listens, subscribed, deliver_to, deliver_all,
  emit_event,
}
pub use Methods.{Report, no_report, orphaned, test_emission}
unfoldable pub use Methods.{
  serialize_webhook, create_webhook, delete_webhook, is_due, batch_size, process_found, process_one,
  tally, process_all, process_webhook_deliveries, retry_found, retry_webhook_delivery, test_webhook,
}
unfoldable pub use Listings.{
  list_events, list_events_paginated, list_webhooks, list_webhooks_paginated,
  list_webhook_deliveries,
}
pub mod Emits
pub mod Closed
