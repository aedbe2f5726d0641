-- ===== src/Auth.antt =====
-- Authentication: auth.py of apps/api/src/voiceagent_api, and the keys in store.py.
mod Defs
pub mod Keys
pub mod Access
pub use Defs.{Hashing, AuthContext, context}
unfoldable pub use Defs.{
  is_bcrypt_api_key_hash, verify_api_key, is_candidate, or_candidate, find_api_key_model,
  hash_api_key, bearer, allow, rehash, admit, require_scope, list_api_keys, revoke, delete_api_key,
}
