-- ===== src/Auth/Defs.antt =====
-- API keys (apps/api/src/voiceagent_api/auth.py) and the methods of store.py that list and revoke
-- them. SHA-256, bcrypt and `str.strip` are parameters.
use real_voice_agent_free.Prelude.{
  ℕ, ◌+◌, String, ◌==◌, Bool, true, false, not, ◌&&◌, ◌||◌, Option, none, some, List, [], ◌∷◌, map,
  find, any, after, starts_with, DateTime, if◌then◌else◌,
}
use real_voice_agent_free.Json.{Json, str, dict}
use real_voice_agent_free.Errors.{ok, authentication_error, authorization_error, not_found}
use real_voice_agent_free.Env.{Env, whole}
use real_voice_agent_free.Models.{ApiKeyModel}
use real_voice_agent_free.Db.{api_keys}
use real_voice_agent_free.Serialize.{serialize_api_key}
use real_voice_agent_free.Session.{
  M, pure, raise, ◌>>=◌, ◌>>◌, require, select, scalar, save, commit, session,
}

-- `bcrypt_hash n` hashes with the n-th salt; `bcrypt_check` gives nothing where `checkpw` raises
-- ValueError.
pub record Hashing : Type 0 where
  pub sha256_hex : String → String
  pub bcrypt_hash : ℕ → String → String
  pub bcrypt_check : String → String → Option Bool
  pub strip : String → String

pub record AuthContext : Type 0 where
  pub api_key_id : String
  pub organization_id : String
  pub scopes : List String

unfoldable pub is_bcrypt_api_key_hash : String → Bool
is_bcrypt_api_key_hash stored_hash =
    starts_with stored_hash "$2a$"
    || starts_with stored_hash "$2b$"
    || starts_with stored_hash "$2y$"

unfoldable pub verify_api_key : Hashing → String → String → Bool
verify_api_key h raw_key stored_hash =
    if is_bcrypt_api_key_hash stored_hash
    then elim (h.bcrypt_check raw_key stored_hash) [ none ↦ false | some b ↦ b ]
    else h.sha256_hex raw_key == stored_hash

-- `filters`
unfoldable pub is_candidate : Option String → ApiKeyModel → Bool
is_candidate organization_id k =
    k.is_active && elim organization_id [ none ↦ true | some org ↦ k.organization_id == org ]

-- The loop over the candidates, where no row has the legacy hash.
unfoldable pub or_candidate :
    Hashing → String → Option String → Option ApiKeyModel → M (Option ApiKeyModel)
or_candidate h raw_key organization_id (some legacy_match) = pure (some legacy_match)
or_candidate h raw_key organization_id none = do
  candidates ← select api_keys (is_candidate organization_id)
  pure (
      find (λ k. not (k.key_hash == h.sha256_hex raw_key) && verify_api_key h raw_key k.key_hash)
        candidates)

unfoldable pub find_api_key_model : Hashing → String → Option String → M (Option ApiKeyModel)
find_api_key_model h raw_key organization_id = do
  legacy_match ←
      scalar api_keys (λ k. is_candidate organization_id k && k.key_hash == h.sha256_hex raw_key)
  or_candidate h raw_key organization_id legacy_match

-- `bcrypt.hashpw(raw_key, bcrypt.gensalt())`
unfoldable pub hash_api_key : Hashing → String → M String
hash_api_key h raw_key w = (ok (h.bcrypt_hash w.draws raw_key), record w { draws = w.draws + 1 })

-- The key of the header `Authorization: Bearer ...`.
unfoldable pub bearer : Hashing → Option String → Option String
bearer h none = none
bearer h (some authorization) =
    if starts_with authorization "Bearer " then some (h.strip (after 7 authorization)) else none

unfoldable pub allow : String → ApiKeyModel → M Unit
allow required_scope k =
    if any (λ s. s == required_scope) k.scopes
    then pure tt
    else raise (authorization_error "API key does not have the required scope")

-- A key that is stored under its legacy hash is stored under a bcrypt hash from now on.
unfoldable pub rehash : Hashing → String → ApiKeyModel → M String
rehash h raw_key k =
    if is_bcrypt_api_key_hash k.key_hash then pure k.key_hash else hash_api_key h raw_key

abbrev pub invalid_key : String
invalid_key = "API key is missing or invalid"

-- The row of the key that authenticates a request, in its session.
unfoldable pub admit : Hashing → String → String → DateTime → M ApiKeyModel
admit h required_scope raw_key now = do
  found ← find_api_key_model h raw_key none
  k ← require found (authentication_error invalid_key)
  allow required_scope k
  key_hash ← rehash h raw_key k
  save api_keys (record k { key_hash = key_hash; last_used_at = some now })
  pure k

abbrev pub context : ApiKeyModel → AuthContext
context k = record { api_key_id = k.id; organization_id = k.organization_id; scopes = k.scopes }

unfoldable pub require_scope : Hashing → String → Option String → DateTime → M AuthContext
require_scope h required_scope authorization now = do
  api_key ← require (bearer h authorization) (authentication_error invalid_key)
  session (do k ← admit h required_scope api_key now; commit; pure (context k))

unfoldable pub list_api_keys : Env → String → M (List Json)
list_api_keys env organization_id = session (do
  keys ← select api_keys (λ k. k.organization_id == organization_id)
  pure (map serialize_api_key (env.order_asc whole ApiKeyModel (λ k. k.created_at) keys)))

unfoldable pub revoke : String → String → M Unit
revoke key_id organization_id = do
  found ← scalar api_keys (λ k. k.id == key_id && k.organization_id == organization_id)
  k ← require found (not_found "API key not found")
  save api_keys (record k { is_active = false })

unfoldable pub delete_api_key : String → String → M Json
delete_api_key key_id organization_id = session (do
  revoke key_id organization_id
  commit
  pure (dict (("id", str key_id) ∷ ("status", str "revoked") ∷ [])))
