-- ===== src/Routers/Http.antt =====
-- Requests (apps/api/src/voiceagent_api/routers/_helpers.py): the idempotency key, the trace id and
-- the hash of a request, and the pattern of the routes that change something. FastAPI and pydantic
-- are parameters.
use real_voice_agent_free.Prelude.{
  ℕ, ◌+◌, String, ◌==◌, Option, none, some, [], ◌∷◌, or_else, DateTime, if◌then◌else◌,
}
use real_voice_agent_free.Json.{Json, str, dict}
use real_voice_agent_free.Errors.{ok, idempotency_required}
use real_voice_agent_free.Env.{Env}
use real_voice_agent_free.Session.{M, ◌>>=◌, require}
use real_voice_agent_free.Auth.{AuthContext}
use real_voice_agent_free.Idempotency.{Request, route}

-- `str.strip`; pydantic's `model_dump`; `jsonable_encoder` with the `json.dumps` that sorts keys;
-- `sha256(...).hexdigest()`; the text of the n-th uuid.
pub record Web : Type 1 where
  pub strip : String → String
  pub model_dump : (A : Type 0) → A → Json
  pub encode : Json → String
  pub sha256_hex : String → String
  pub uuid_text : ℕ → String

-- A request that FastAPI hands to a route: method and path, the headers `Idempotency-Key` and
-- `x-trace-id`, the caller that `require_scope` let in, and the three readings of the clock: for
-- the stored response, for the method of the store, and for the response to be stored.
pub record Incoming : Type 0 where
  pub method : String
  pub path : String
  pub key_header : Option String
  pub trace_header : Option String
  pub auth : AuthContext
  pub looked_up : DateTime
  pub now : DateTime
  pub created_at : DateTime

abbrev non_empty : String → Option String
non_empty s = if s == "" then none else some s

unfoldable pub idempotency_key_from_request : Web → Incoming → Option String
idempotency_key_from_request web i = elim i.key_header [
  | none ↦ none
  | some key ↦ non_empty (web.strip key)
]

unfoldable pub require_idempotency_key : Web → Incoming → M String
require_idempotency_key web i =
    require (idempotency_key_from_request web i)
      (idempotency_required "Idempotency-Key header is required")

-- The default is drawn whether it is used or not.
unfoldable pub trace_id_from_request : Web → Incoming → M String
trace_id_from_request web i w =
    (ok (or_else i.trace_header (web.uuid_text w.draws)), record w { draws = w.draws + 1 })

unfoldable pub idempotency_request_hash : Env → Web → Json → String → String → String
idempotency_request_hash env web payload path method = web.sha256_hex (
    web.encode
      (dict (("payload", payload) ∷ ("path", str path) ∷ ("method", str (env.upper method)) ∷ [])))

-- The arguments with which the routes call `get_idempotent_response`.
abbrev pub request_of : Env → Web → Incoming → Json → String → Request
request_of env web i payload key = record {
  organization_id = i.auth.organization_id;
  key = key;
  method = i.method;
  path = i.path;
  request_hash = idempotency_request_hash env web payload i.path i.method;
}

-- What the routes do around the method of the store.
unfoldable pub once : Env → Web → Incoming → Json → M Json → M Json
once env web i payload handler = do
  key ← require_idempotency_key web i
  route env (request_of env web i payload key) handler i.looked_up i.created_at

-- The same, where the method takes the trace id, which is read first.
unfoldable pub once_traced : Env → Web → Incoming → Json → (String → M Json) → M Json
once_traced env web i payload handler = do
  trace_id ← trace_id_from_request web i
  once env web i payload (handler trace_id)
