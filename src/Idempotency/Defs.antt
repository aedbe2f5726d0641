-- ===== src/Idempotency/Defs.antt =====
-- Idempotent responses: store.py (`get_idempotent_response`, `store_idempotent_response`) with the
-- cache of cache.py, and the pattern by which the routers use them (routers/bookings.py).
use real_voice_agent_free.Prelude.{
  ℕ, ◌+◌, String, ◌==◌, Bool, true, false, Option, none, some, [], ◌∷◌, ◌++◌, nat_eq, ltb, seconds,
  DateTime, Stamp, aware, naive, concat, if◌then◌else◌,
}
use real_voice_agent_free.Json.{Json, dict}
use real_voice_agent_free.Errors.{ok, idempotency_conflict}
use real_voice_agent_free.Env.{Env, CacheWrite}
use real_voice_agent_free.Models.{IdempotencyKeyModel}
use real_voice_agent_free.Db.{idempotency_keys}
use real_voice_agent_free.Session.{
  M, pure, raise, ◌>>=◌, ◌>>◌, get, insert, delete, commit, session,
}

-- What identifies a request: the caller's organization, the header, the route and the body's hash.
pub record Request : Type 0 where
  pub organization_id : String
  pub key : String
  pub method : String
  pub path : String
  pub request_hash : String

pub record StoredResponse : Type 0 where
  pub response_body : Json
  pub response_code : ℕ

abbrev pub conflict : String
conflict = "Idempotency key already used with different payload"

unfoldable pub idempotency_id : Env → Request → String
idempotency_id env q =
    concat (q.organization_id ∷ ":" ∷ env.upper q.method ∷ ":" ∷ q.path ∷ ":" ∷ q.key ∷ [])

unfoldable pub cache_key : Request → String
cache_key q =
    concat ("idemp:" ∷ q.organization_id ∷ ":" ∷ q.method ∷ ":" ∷ q.path ∷ ":" ∷ q.key ∷ [])

abbrev pub instant : (ℕ → DateTime) → Stamp → DateTime
instant read (aware t) = t
instant read (naive clock) = read clock

-- `read` is the zone of `now`, in which a time without a zone is read.
unfoldable pub is_idempotency_expired : Env → (ℕ → DateTime) → IdempotencyKeyModel → DateTime → Bool
is_idempotency_expired env read r now =
    if nat_eq env.settings.idempotency_ttl_seconds 0
    then false
    else ltb (instant read r.created_at + seconds env.settings.idempotency_ttl_seconds) now

-- cache.py, get: what `setex` stored, read back by `json.loads`
unfoldable pub cache_get : Env → String → M (Option CacheWrite)
cache_get env key w = (ok (env.cache_lookup w.cache key), w)

unfoldable pub cache_set : CacheWrite → M Unit
cache_set c w = (ok tt, record w { cache = w.cache ++ c ∷ [] })

-- `json.loads(body) if body else {}`
abbrev pub stored_body : Env → String → Json
stored_body env text = if text == "" then dict [] else env.loads text

unfoldable pub answer : Env → Request → String → Json → ℕ → M (Option StoredResponse)
answer env q request_hash body code =
    if request_hash == q.request_hash
    then pure (some (record { response_body = body; response_code = code }))
    else raise (idempotency_conflict conflict)

unfoldable pub answer_from_record :
    Env → Request → DateTime → Option IdempotencyKeyModel → M (Option StoredResponse)
answer_from_record env q now none = pure none
answer_from_record env q now (some r) =
    if is_idempotency_expired env env.local_utc r now
    then (do delete idempotency_keys r; commit; pure none)
    else answer env q r.request_hash (stored_body env r.response_body) r.response_code

unfoldable pub answer_from_cache :
    Env → Request → DateTime → Option CacheWrite → M (Option StoredResponse)
answer_from_cache env q now (some c) =
    answer env q c.request_hash (env.loads c.body_text) c.response_code
answer_from_cache env q now none =
    session (do r ← get idempotency_keys (idempotency_id env q); answer_from_record env q now r)

unfoldable pub get_idempotent_response : Env → Request → DateTime → M (Option StoredResponse)
get_idempotent_response env q now = do
  cached ← cache_get env (cache_key q)
  answer_from_cache env q now cached

abbrev pub new_record : Env → Request → StoredResponse → DateTime → IdempotencyKeyModel
new_record env q r created_at = record {
  id = idempotency_id env q;
  organization_id = q.organization_id;
  key = q.key;
  method = env.upper q.method;
  path = q.path;
  request_hash = q.request_hash;
  response_code = r.response_code;
  response_body = env.dumps r.response_body;
  created_at = env.stored_time created_at;
}

abbrev pub new_write : Env → Request → StoredResponse → CacheWrite
new_write env q r = record {
  key = cache_key q;
  request_hash = q.request_hash;
  body_text = env.dumps r.response_body;
  response_code = r.response_code;
  ttl = env.settings.idempotency_ttl_seconds;
}

unfoldable pub add_record : Env → Request → StoredResponse → DateTime → M Bool
add_record env q r created_at = do
  insert idempotency_keys (new_record env q r created_at)
  commit
  pure true

-- Whether a record was added: an unexpired one of the same request is kept.
unfoldable pub store_record :
    Env → Request → StoredResponse → DateTime → Option IdempotencyKeyModel → M Bool
store_record env q r created_at none = add_record env q r created_at
store_record env q r created_at (some old) =
    if is_idempotency_expired env env.from_utc old created_at
    then (do delete idempotency_keys old; commit; add_record env q r created_at)
    else if old.request_hash == q.request_hash
    then pure false
    else raise (idempotency_conflict conflict)

unfoldable pub store_idempotent_response : Env → Request → StoredResponse → DateTime → M Unit
store_idempotent_response env q r created_at = do
  added ←
      session
        (do old ← get idempotency_keys (idempotency_id env q); store_record env q r created_at old)
  if added then cache_set (new_write env q r) else pure tt

-- A POST route: a stored response is returned; otherwise the handler runs and its response is
-- stored. `now` and `created_at` are the readings of the clock before and after the handler.
unfoldable pub route_found : Env → Request → M Json → DateTime → Option StoredResponse → M Json
route_found env q handler created_at (some r) = pure r.response_body
route_found env q handler created_at none = do
  body ← handler
  store_idempotent_response env q (record { response_body = body; response_code = 200 }) created_at
  pure body

unfoldable pub route : Env → Request → M Json → DateTime → DateTime → M Json
route env q handler now created_at = do
  cached ← get_idempotent_response env q now
  route_found env q handler created_at cached
