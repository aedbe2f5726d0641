-- ===== src/Dispatcher.antt =====
-- The webhook dispatcher (apps/api/src/voiceagent_api/webhooks.py).
mod Defs
pub mod Laws
pub use Defs.{header, delivery_result}
unfoldable pub use Defs.{deliver}
