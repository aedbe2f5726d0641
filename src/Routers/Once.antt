-- ===== src/Routers/Once.antt =====
-- What `once` (the pattern of the routes that take an `Idempotency-Key`) does with a repeated request.
use real_voice_agent_free.Prelude.{
  String, ◌+◌, ◌≡◌, refl, sym, ap, ◌∙◌, subst, false, some, or_else,
}
use real_voice_agent_free.Json.{Json}
use real_voice_agent_free.Errors.{Result, ok}
use real_voice_agent_free.Env.{Env, CacheIsFaithful, WritesTexts}
use real_voice_agent_free.Session.{World, M, ◌>>=◌, require}
use real_voice_agent_free.Session.Keeps.{Keeps}
use real_voice_agent_free.Idempotency.{
  Request, StoredResponse, new_record, is_idempotency_expired, route,
}
use real_voice_agent_free.Idempotency.Replay.{IsFresh, IsStored, route-IsStored, route-replays}
use real_voice_agent_free.Routers.Http.{Web, Incoming}
use real_voice_agent_free.Routers.Http.{
  Web, Incoming, idempotency_key_from_request, require_idempotency_key, trace_id_from_request,
  request_of, once, once_traced,
}

-- A second request like the first: the same route, caller's organization and key. The clock and the
-- trace id may differ.
pub record Repeats (web : Web) (key : String) (i i' : Incoming) : Type 0 where
  pub first_key : idempotency_key_from_request web i ≡ some key
  pub second_key : idempotency_key_from_request web i' ≡ some key
  pub same_method : i'.method ≡ i.method
  pub same_path : i'.path ≡ i.path
  pub same_organization : i'.auth.organization_id ≡ i.auth.organization_id

module _ (env : Env) (web : Web) where
  once-run :
      (i : Incoming) (payload : Json) (handler : M Json) (key : String) (w : World)
      → idempotency_key_from_request web i ≡ some key
      → once env web i payload handler w
        ≡ route env (request_of env web i payload key) handler i.looked_up i.created_at w
  unfolding once require_idempotency_key require ◌>>=◌
  once-run i payload handler key w has = rw has refl

  request_of-repeated :
      (i i' : Incoming) (payload : Json) (key : String)
      → Repeats web key i i'
      → request_of env web i' payload key ≡ request_of env web i payload key
  request_of-repeated i i' payload key same =
      rw (same.same_method, same.same_path, same.same_organization) refl

-- What a repeated request does, seen from the response to the first and the world after it.
abbrev pub Replayed : Env → Json → World → Result Json × World → Type 0
Replayed env body w again =
    (again.0 ≡ ok (env.loads (env.dumps body)))
    × (again.1.disk ≡ w.disk)
    × (again.1.posts ≡ w.posts)

module _ (env : Env) (cache : CacheIsFaithful env) (json : WritesTexts env) (web : Web)
    (key : String) (i i' : Incoming) (payload : Json) (same : Repeats web key i i') where
  abbrev request : Request
  request = request_of env web i payload key

  abbrev response : Json → StoredResponse
  response body = record { response_body = body; response_code = 200 }

  once-IsStored :
      (handler : M Json) (w : World) (body : Json)
      → IsFresh env request w
      → Keeps (IsFresh env request) handler
      → (once env web i payload handler w).0 ≡ ok body
      → IsStored env request (response body) i.created_at (once env web i payload handler w).1
  once-IsStored handler w body fresh keeps ran =
      let run = once-run env web i payload handler key w same.first_key in
      subst (λ (p : Result Json × World). IsStored env request (response body) i.created_at p.1)
        (sym run)
        (route-IsStored env cache json request handler i.looked_up i.created_at w body fresh keeps
          (ap (λ (p : Result Json × World). p.0) (sym run) ∙ ran))

  once-replays :
      (handler' : M Json) (w : World) (body : Json)
      → IsStored env request (response body) i.created_at w
      → is_idempotency_expired env env.local_utc
          (new_record env request (response body) i.created_at)
          i'.looked_up
        ≡ false
      → Replayed env body w (once env web i' payload handler' w)
  once-replays handler' w body stored live =
      let run =
        once-run env web i' payload handler' key w same.second_key
        ∙ ap (λ (q : Request). route env q handler' i'.looked_up i'.created_at w)
            (request_of-repeated env web i i' payload key same) in
      let (answer, disk, posts, draws) =
        route-replays env cache json request (response body) i.created_at handler' i'.looked_up
          i'.created_at w stored live in
      (
        ap (λ (p : Result Json × World). p.0) run ∙ answer,
        ap (λ (p : Result Json × World). p.1.disk) run ∙ disk,
        ap (λ (p : Result Json × World). p.1.posts) run ∙ posts,
      )

  abbrev IsLive : Json → Type 0
  IsLive body =
      is_idempotency_expired env env.local_utc (new_record env request (response body) i.created_at)
        i'.looked_up
      ≡ false

  pub once-twice :
      (handler handler' : M Json) (w : World) (body : Json)
      → IsFresh env request w
      → Keeps (IsFresh env request) handler
      → (once env web i payload handler w).0 ≡ ok body
      → IsLive body
      → let w' = (once env web i payload handler w).1 in
        Replayed env body w' (once env web i' payload handler' w')
  once-twice handler handler' w body fresh keeps ran live =
      once-replays handler' (once env web i payload handler w).1 body
        (once-IsStored handler w body fresh keeps ran) live

  pub once_traced-twice :
      (handler handler' : String → M Json) (w : World) (body : Json)
      → IsFresh env request w
      → ((trace : String) → Keeps (IsFresh env request) (handler trace))
      → (once_traced env web i payload handler w).0 ≡ ok body
      → IsLive body
      → let w' = (once_traced env web i payload handler w).1 in
        Replayed env body w' (once_traced env web i' payload handler' w')
  unfolding once_traced trace_id_from_request ◌>>=◌
  once_traced-twice handler handler' w body fresh keeps ran live =
      let trace = or_else i.trace_header (web.uuid_text w.draws) in
      let w1 : World = record w { draws = w.draws + 1 } in
      let w' = (once env web i payload (handler trace) w1).1 in
      let stored =
        once-IsStored (handler trace) w1 body
          (record { no_record = fresh.no_record; no_write = fresh.no_write }) (keeps trace) ran in
      once-replays (handler' (or_else i'.trace_header (web.uuid_text w'.draws)))
        (record w' { draws = w'.draws + 1 }) body
        (record { has_record = stored.has_record; has_write = stored.has_write }) live
