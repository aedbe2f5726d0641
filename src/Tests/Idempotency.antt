-- ===== src/Tests/Idempotency.antt =====
-- Instances of the theorems on idempotent responses.
use real_voice_agent_free.Prelude.{◌≡◌, refl, false, [], ◌∷◌}
use real_voice_agent_free.Json.{Json, null}
use real_voice_agent_free.Errors.{ok, err, raised, idempotency_conflict}
use real_voice_agent_free.Env.{Env}
use real_voice_agent_free.Session.{
  World, M, ◌>>=◌, get, scalar, save, insert, require, commit, session,
}
use real_voice_agent_free.Idempotency.{
  Request, StoredResponse, conflict, new_record, new_write, idempotency_id, cache_key,
  is_idempotency_expired, get_idempotent_response, route, route_found, store_idempotent_response,
  store_record, add_record, cache_get, cache_set, answer_from_cache, answer_from_record,
}
use real_voice_agent_free.Idempotency.Replay.{
  IsFresh, IsStored, get_idempotent_response-conflict, route-twice,
}
use real_voice_agent_free.Webhooks.{delete_webhook, get_webhook_or_404, serialize_webhook}
use real_voice_agent_free.Webhooks.Commands.{delete_webhook-IsFresh}
use real_voice_agent_free.Tests.World.{
  env_with, env_with-CacheIsFaithful, env_with-WritesTexts, accepted, hook, db, world_of,
}

abbrev env : Env
env = env_with accepted

abbrev request : Request
request = record {
  organization_id = "org_default";
  key = "k1";
  method = "DELETE";
  path = "/v1/webhooks/wh_1";
  request_hash = "h1";
}

abbrev start : World
start = world_of db

start-IsFresh : IsFresh env request start
start-IsFresh = record { no_record = refl; no_write = refl }

abbrev handler : M Json
handler = delete_webhook "wh_1" "org_default" 7

abbrev body : Json
body = serialize_webhook (record hook { is_active = false; updated_at = 7 }) false

first-ok : (route env request handler 6 8 start).0 ≡ ok body
unfolding route route_found get_idempotent_response cache_get answer_from_cache answer_from_record
    delete_webhook get_webhook_or_404 store_idempotent_response store_record add_record cache_set
    session get scalar insert save require commit ◌>>=◌ serialize_webhook idempotency_id cache_key
first-ok = refl

-- The second request has another handler, which is not run.
route-twice_example :
    let w' = (route env request handler 6 8 start).1 in
    let again = route env request (delete_webhook "wh_2" "org_default" 9) 9 10 w' in
    (again.0 ≡ ok null)
    × (again.1.disk ≡ w'.disk)
    × (again.1.posts ≡ w'.posts)
    × (again.1.draws ≡ w'.draws)
unfolding is_idempotency_expired
route-twice_example =
    route-twice env (env_with-CacheIsFaithful accepted) (env_with-WritesTexts accepted) request
      handler (delete_webhook "wh_2" "org_default" 9) 6 8 9 10 start body start-IsFresh
      (delete_webhook-IsFresh env request "wh_1" "org_default" 7) first-ok refl

abbrev response : StoredResponse
response = record { response_body = null; response_code = 200 }

abbrev after : World
after = record start {
  disk = record db { idempotency_keys = new_record env request response 8 ∷ [] };
  cache = new_write env request response ∷ [];
}

after-IsStored : IsStored env request response 8 after
unfolding idempotency_id cache_key
after-IsStored = record { has_record = refl; has_write = refl }

get_idempotent_response-conflict_example :
    let (found, w') =
      get_idempotent_response env (record request { request_hash = "h2" }) 9 after in
    (found ≡ err (raised (idempotency_conflict conflict)))
    × (w'.disk ≡ after.disk)
    × (w'.posts ≡ [])
unfolding is_idempotency_expired
get_idempotent_response-conflict_example =
    get_idempotent_response-conflict env (env_with-CacheIsFaithful accepted)
      (env_with-WritesTexts accepted) request response 8 9 after "h2" after-IsStored refl refl
