-- ===== src/Idempotency/Replay.antt =====
-- A repeated request (store.py and routers): it gets the response of the first one, and nothing is
-- done again; with another body it is refused.
use real_voice_agent_free.Prelude.{
  String, ◌==◌, ◌≡◌, refl, sym, ap, subst, ◌∙◌, Bool, true, false, none, some, List, [], ◌∷◌, ◌++◌,
  find, any, arith, DateTime, inl, inr, Option-cases, eq_refl,
}
use real_voice_agent_free.Json.{Json}
use real_voice_agent_free.Errors.{Result, ok, err, raised, idempotency_conflict}
use real_voice_agent_free.Env.{Env, CacheWrite, CacheIsFaithful, WritesTexts, last_write}
use real_voice_agent_free.Session.{World, M, pure, ◌>>=◌, get, insert, commit, session}
use real_voice_agent_free.Session.Keeps.{Keeps}
use real_voice_agent_free.Session.Inversion.{>>=-eq-ok, >>=-of-ok, ok_inj}
use real_voice_agent_free.Idempotency.Defs.{
  Request, StoredResponse, conflict, new_record, new_write, idempotency_id, cache_key,
  is_idempotency_expired, cache_get, cache_set, answer, answer_from_record, answer_from_cache,
  get_idempotent_response, add_record, store_record, store_idempotent_response, route_found, route,
}

-- No response is stored for the request, neither in the table nor in the cache.
pub record IsFresh (env : Env) (q : Request) (w : World) : Type 0 where
  pub no_record : find (λ r. r.id == idempotency_id env q) w.disk.idempotency_keys ≡ none
  pub no_write : last_write (cache_key q) w.cache ≡ none

-- The response `r` is stored for the request, since `created_at`.
pub record IsStored (env : Env) (q : Request) (r : StoredResponse) (created_at : DateTime)
    (w : World) : Type 0 where
  pub has_record :
      find (λ x. x.id == idempotency_id env q) w.disk.idempotency_keys
      ≡ some (new_record env q r created_at)
  pub has_write : last_write (cache_key q) w.cache ≡ some (new_write env q r)

any_of_find : {A : Type 0} (p : A → Bool) (xs : List A) → find p xs ≡ none → any p xs ≡ false
any_of_find p [] h = refl
any_of_find p (x ∷ xs) h = ground (arith, any_of_find p xs)

find-append :
    {A : Type 0} (p : A → Bool) (xs : List A) (x : A)
    → find p xs ≡ none
    → p x ≡ true
    → find p (xs ++ x ∷ []) ≡ some x
find-append p [] x h k = rw k
find-append p (y ∷ ys) x h k = ground (arith, find-append p ys x)

last_write-append :
    (log : List CacheWrite) (c : CacheWrite) → last_write c.key (log ++ c ∷ []) ≡ some c
last_write-append [] c = rw (eq_refl c.key)
last_write-append (x ∷ log) c = rw (last_write-append log c)

-- Nothing is found for a fresh request, and nothing changes.
get-IsFresh :
    (env : Env)
    → CacheIsFaithful env
    → (q : Request) (now : DateTime) (w : World) → IsFresh env q w
    → ((get_idempotent_response env q now w).0 ≡ ok none)
      × IsFresh env q (get_idempotent_response env q now w).1
unfolding get_idempotent_response cache_get answer_from_cache session get answer_from_record ◌>>=◌
get-IsFresh env cache q now w f = elim (Option-cases (env.cache_lookup w.cache (cache_key q))) [
  | inl nothing ↦
      rw (nothing, f.no_record) (refl, record { no_record = f.no_record; no_write = f.no_write })
  | inr (c, e) ↦ cc (cache.found w.cache (cache_key q) c e, f.no_write)
]

-- Storing the response of a fresh request.
store-IsFresh :
    (env : Env) (q : Request) (r : StoredResponse) (created_at : DateTime) (w : World)
    → IsFresh env q w
    → IsStored env q r created_at (store_idempotent_response env q r created_at w).1
unfolding store_idempotent_response store_record add_record session get insert commit cache_set
    ◌>>=◌
store-IsFresh env q r created_at w f =
    let rows = w.disk.idempotency_keys in
    let new = new_record env q r created_at in
    let free = any_of_find (λ x. x.id == new.id) rows f.no_record in
    rw (f.no_record, free)
      (record {
        has_record = find-append (λ x. x.id == new.id) rows new f.no_record (eq_refl new.id);
        has_write = last_write-append w.cache (new_write env q r);
      })

module _ (env : Env) (cache : CacheIsFaithful env) (json : WritesTexts env) where
  -- The response that a repeated request reads, before the time to live has passed.
  get-IsStored :
      (q : Request) (r : StoredResponse) (created_at now : DateTime) (w : World)
      → IsStored env q r created_at w
      → is_idempotency_expired env env.local_utc (new_record env q r created_at) now ≡ false
      → let (found, w') = get_idempotent_response env q now w in
        (found
          ≡ ok (
              some (record {
                response_body = env.loads (env.dumps r.response_body);
                response_code = r.response_code;
              })))
        × (w'.disk ≡ w.disk)
        × (w'.posts ≡ w.posts)
        × (w'.draws ≡ w.draws)
  unfolding get_idempotent_response cache_get answer_from_cache session get answer_from_record
      answer ◌>>=◌
  get-IsStored q r created_at now w s live =
      elim (Option-cases (env.cache_lookup w.cache (cache_key q))) [
        | inl nothing ↦
            rw
              (
                nothing,
                s.has_record,
                live,
                eq_refl q.request_hash,
                json.dumps_nonempty r.response_body,
              )
              (refl, refl, refl, refl)
        | inr (c, e) ↦
            let e' = e ∙ sym (cache.found w.cache (cache_key q) c e) ∙ s.has_write in
            rw (e', eq_refl q.request_hash) (refl, refl, refl, refl)
      ]

  -- A request that reuses the key of a stored one with another body is refused with a conflict, and
  -- changes nothing that is committed or sent.
  pub get_idempotent_response-conflict :
      (q : Request) (r : StoredResponse) (created_at now : DateTime) (w : World) (other : String)
      → IsStored env q r created_at w
      → is_idempotency_expired env env.local_utc (new_record env q r created_at) now ≡ false
      → (q.request_hash == other) ≡ false
      → let (found, w') = get_idempotent_response env (record q { request_hash = other }) now w in
        (found ≡ err (raised (idempotency_conflict conflict)))
        × (w'.disk ≡ w.disk)
        × (w'.posts ≡ w.posts)
  unfolding get_idempotent_response cache_get answer_from_cache session get answer_from_record
      answer idempotency_id cache_key ◌>>=◌
  get_idempotent_response-conflict q r created_at now w other s live ne =
      elim (Option-cases (env.cache_lookup w.cache (cache_key q))) [
        | inl nothing ↦ rw (nothing, s.has_record, live, ne) (refl, refl, refl)
        | inr (c, e) ↦
            let e' = e ∙ sym (cache.found w.cache (cache_key q) c e) ∙ s.has_write in
            rw (e', ne) (refl, refl, refl)
      ]

  -- The world after a route has run its handler: the response is stored.
  pub route-IsStored :
      (q : Request) (handler : M Json) (now created_at : DateTime) (w : World) (body : Json)
      → IsFresh env q w
      → Keeps (IsFresh env q) handler
      → (route env q handler now created_at w).0 ≡ ok body
      → IsStored env q
          (record { response_body = body; response_code = 200 })
          created_at
          (route env q handler now created_at w).1
  unfolding route route_found pure
  route-IsStored q handler now created_at w body fresh keeps ran =
      let value = λ (p : Result Json × World). p.0 in
      let get_it = get_idempotent_response env q now in
      let (nothing, fresh1) = get-IsFresh env cache q now w fresh in
      let store_it = λ (b : Json).
        store_idempotent_response env q (record { response_body = b; response_code = 200 })
          created_at in
      let finish = λ (b : Json). store_it b >>= λ _. pure b in
      let w1 = (get_it w).1 in
      let run1 = >>=-of-ok get_it (route_found env q handler created_at) w none nothing in
      let (b, _, run2) = >>=-eq-ok handler finish w1 body (ap value (sym run1) ∙ ran) in
      let w2 = (handler w1).1 in
      let (u, _, run3) =
        >>=-eq-ok (store_it b) (λ _. pure b) w2 body (ap value (sym (run1 ∙ run2)) ∙ ran) in
      let all = run1 ∙ run2 ∙ run3 in
      let same = ok_inj b body (ap value (sym all) ∙ ran) in
      subst
        (λ (x : World).
          IsStored env q (record { response_body = body; response_code = 200 }) created_at x)
        (sym (ap (λ (p : Result Json × World). p.1) all))
        (subst
          (λ (x : Json).
            IsStored env q (record { response_body = x; response_code = 200 }) created_at
              (store_it b w2).1)
          same
          (store-IsFresh env q (record { response_body = b; response_code = 200 }) created_at w2
            (keeps.at w1 fresh1)))

  -- A request whose response is stored is answered with it, and nothing else happens.
  pub route-replays :
      (q : Request) (r : StoredResponse) (created_at : DateTime) (handler : M Json)
      (now' created_at' : DateTime) (w : World)
      → IsStored env q r created_at w
      → is_idempotency_expired env env.local_utc (new_record env q r created_at) now' ≡ false
      → let again = route env q handler now' created_at' w in
        (again.0 ≡ ok (env.loads (env.dumps r.response_body)))
        × (again.1.disk ≡ w.disk)
        × (again.1.posts ≡ w.posts)
        × (again.1.draws ≡ w.draws)
  unfolding route route_found pure
  route-replays q r created_at handler now' created_at' w stored live =
      let (found, disk, posts, draws) = get-IsStored q r created_at now' w stored live in
      let again =
        >>=-of-ok (get_idempotent_response env q now') (route_found env q handler created_at') w
          (some (record {
            response_body = env.loads (env.dumps r.response_body);
            response_code = r.response_code;
          }))
          found in
      (
        ap (λ (p : Result Json × World). p.0) again,
        ap (λ (p : Result Json × World). p.1.disk) again ∙ disk,
        ap (λ (p : Result Json × World). p.1.posts) again ∙ posts,
        ap (λ (p : Result Json × World). p.1.draws) again ∙ draws,
      )

  -- The same request sent twice, the second time while the response is kept: it is answered with
  -- the stored response of the first, without running its handler (nothing is committed, sent or
  -- drawn), provided that the first handler stores no response under the request's own key.
  pub route-twice :
      (q : Request) (handler handler' : M Json) (now created_at now' created_at' : DateTime)
      (w : World) (body : Json)
      → IsFresh env q w
      → Keeps (IsFresh env q) handler
      → (route env q handler now created_at w).0 ≡ ok body
      → is_idempotency_expired env env.local_utc
          (new_record env q (record { response_body = body; response_code = 200 }) created_at)
          now'
        ≡ false
      → let w' = (route env q handler now created_at w).1 in
        let again = route env q handler' now' created_at' w' in
        (again.0 ≡ ok (env.loads (env.dumps body)))
        × (again.1.disk ≡ w'.disk)
        × (again.1.posts ≡ w'.posts)
        × (again.1.draws ≡ w'.draws)
  route-twice q handler handler' now created_at now' created_at' w body fresh keeps ran live =
      route-replays q (record { response_body = body; response_code = 200 }) created_at handler'
        now' created_at' (route env q handler now created_at w).1
        (route-IsStored q handler now created_at w body fresh keeps ran) live
