-- ===== src/Tests/Routers.antt =====
-- Instances of the theorems on the routes.
use real_voice_agent_free.Prelude.{◌≡◌, refl, true, pos, none, some, [], ◌∷◌}
use real_voice_agent_free.Json.{Json, null}
use real_voice_agent_free.Errors.{ok}
use real_voice_agent_free.Env.{Env}
use real_voice_agent_free.Serialize.{serialize_agent}
use real_voice_agent_free.Db.{Db}
use real_voice_agent_free.Session.{
  World, ◌>>=◌, pure, require, new_id, get, insert, commit, session,
}
use real_voice_agent_free.Auth.{AuthContext}
use real_voice_agent_free.Organizations.{Words}
use real_voice_agent_free.Agents.{AgentCreateRequest, new_agent}
use real_voice_agent_free.Idempotency.{
  idempotency_id, cache_key, is_idempotency_expired, get_idempotent_response, route, route_found,
  store_idempotent_response, store_record, add_record, cache_get, cache_set, answer_from_cache,
  answer_from_record,
}
use real_voice_agent_free.Routers.Http.{
  Web, Incoming, idempotency_key_from_request, require_idempotency_key, once,
}
use real_voice_agent_free.Routers.Agents.{create_agent_route}
use real_voice_agent_free.Routers.Endpoints.{serve, create_agent}
use real_voice_agent_free.Routers.Once.{Repeats, Replayed}
use real_voice_agent_free.Routers.Repeat.{serve-twice}
use real_voice_agent_free.Routers.Paging.{calls}
use real_voice_agent_free.Routers.Isolation.{read, rows, IsSameFor, read-isolated}
use real_voice_agent_free.Tests.World.{
  env_with, env_with-CacheIsFaithful, env_with-WritesTexts, accepted, db, world_of,
}
use real_voice_agent_free.Tests.Calls.{call}
use real_voice_agent_free.Tests.Bookings.{moscow}
use real_voice_agent_free.Tests.Runtime.{services}

abbrev env : Env
env = env_with accepted

abbrev web : Web
web = record {
  strip = λ s. s;
  model_dump = λ A a. null;
  encode = λ j. "{}";
  sha256_hex = λ s. "44136fa3";
  uuid_text = λ n. "5f1c7a1e-0000-4000-8000-000000000000";
}

abbrev pub words : Words
words = record { strip = λ s. s; lower = λ s. s; is_alnum = λ c. true; decimal = λ n. "2" }

abbrev caller : AuthContext
caller = record { api_key_id = "key_1"; organization_id = "org_default"; scopes = [] }

abbrev incoming : Incoming
incoming = record {
  method = "POST";
  path = "/v1/agents";
  key_header = some "k1";
  trace_header = none;
  auth = caller;
  looked_up = 6;
  now = 7;
  created_at = 8;
}

-- The same request, a little later.
abbrev later : Incoming
later = record incoming { looked_up = 9; now = 10; created_at = 11 }

abbrev payload : AgentCreateRequest
payload = record {
  name = "Front desk";
  template_id = "clinic";
  timezone = "Europe/Moscow";
  default_language = "ru-RU";
  business_hours = [];
}

abbrev start : World
start = world_of db

later-Repeats : Repeats web "k1" incoming later
unfolding idempotency_key_from_request
later-Repeats = record {
  first_key = refl;
  second_key = refl;
  same_method = refl;
  same_path = refl;
  same_organization = refl;
}

abbrev body : Json
body = serialize_agent (new_agent "agt_00000000" payload "org_default" 7)

first-ok : (serve env moscow services words web (create_agent payload) incoming start).0 ≡ ok body
unfolding serve create_agent_route once require_idempotency_key idempotency_key_from_request route
    route_found get_idempotent_response cache_get answer_from_cache answer_from_record
    real_voice_agent_free.Agents.create_agent store_idempotent_response store_record add_record
    cache_set session new_id get insert require commit pure ◌>>=◌ serialize_agent idempotency_id
    cache_key new_agent
first-ok = refl

serve-twice_example :
    let w' = (serve env moscow services words web (create_agent payload) incoming start).1 in
    Replayed env body w' (serve env moscow services words web (create_agent payload) later w')
unfolding is_idempotency_expired
serve-twice_example =
    serve-twice env (env_with-CacheIsFaithful accepted) (env_with-WritesTexts accepted) moscow
      services words web "k1" incoming later later-Repeats (create_agent payload) start body
      (record { no_record = refl; no_write = refl }) first-ok refl

abbrev three_calls : Db
three_calls = record db {
  calls =
      call
      ∷ record call { id = "call_2"; created_at = 5 }
      ∷ record call { id = "call_3"; created_at = 4 }
      ∷ [];
}

-- The calls of another organization among those of the caller.
abbrev with_foreign : Db
with_foreign = record three_calls {
  calls = record call { id = "call_9"; organization_id = "org_2" } ∷ three_calls.calls;
}

foreign-IsSameFor : IsSameFor "org_default" three_calls with_foreign
foreign-IsSameFor = record {
  same_agents = refl;
  same_calls = refl;
  same_bookings = refl;
  same_webhooks = refl;
  same_events = refl;
}

read-isolated_example :
    (read env caller (rows calls (some (pos 2)) (pos 0)) (world_of three_calls)).0
    ≡ (read env caller (rows calls (some (pos 2)) (pos 0)) (world_of with_foreign)).0
read-isolated_example =
    read-isolated env caller (rows calls (some (pos 2)) (pos 0)) (world_of three_calls)
      (world_of with_foreign) foreign-IsSameFor
