-- ===== src/Idempotency.antt =====
-- Idempotent responses of the API (apps/api/src/voiceagent_api: store.py, cache.py, routers).
mod Defs
pub mod Replay
pub mod Frame
pub use Defs.{Request, StoredResponse, conflict, instant, stored_body, new_record, new_write}
unfoldable pub use Defs.{
  idempotency_id, cache_key, is_idempotency_expired, cache_get, cache_set, answer,
  answer_from_record, answer_from_cache, get_idempotent_response, add_record, store_record,
  store_idempotent_response, route_found, route,
}
