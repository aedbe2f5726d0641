-- ===== src/Auth/Access.antt =====
-- Who is let in (auth.py, `require_scope`), also after a key was revoked (store.py,
-- `delete_api_key`).
use real_voice_agent_free.Prelude.{
  String, ◌==◌, ◌≡◌, refl, sym, subst, ◌∙◌, Bool, true, false, ◌&&◌, Option, some, List, [], ◌∷◌,
  find, any, find-test, All, DateTime, arith, eq_iff, inl, inr, Bool-cases,
}
use real_voice_agent_free.Json.{Json}
use real_voice_agent_free.Errors.{ok, Result}
use real_voice_agent_free.Models.{ApiKeyModel}
use real_voice_agent_free.Db.{api_keys}
use real_voice_agent_free.Session.{World, pure, require, commit, ◌>>◌, ◌>>=◌, replace, session}
use real_voice_agent_free.Session.Inversion.{>>=-eq-ok, require-eq-ok}
use real_voice_agent_free.Session.Does.{
  Does, Does-bind, Does-scalar, Does-require, Does-save, session-commits,
}
use real_voice_agent_free.Auth.{
  Hashing, AuthContext, context, verify_api_key, bearer, admit, require_scope, revoke,
  delete_api_key,
}
use real_voice_agent_free.Auth.Keys.{HexDigests, admit-Admitted}

-- A request that `require_scope` lets in carries a raw key that verifies against the hash of a
-- stored key that is active and has the scope, and the context is that key's. The key is one of
-- the stored ones: whatever holds of all of them holds of it.
pub require_scope-Admitted :
    (h : Hashing)
    → HexDigests h
    → (Q : ApiKeyModel → Type 0) (scope : String) (authorization : Option String) (now : DateTime)
      (w : World) (c : AuthContext)
    → All Q w.disk.api_keys
    → (require_scope h scope authorization now w).0 ≡ ok c
    → (raw_key : String) × (k : ApiKeyModel) × (bearer h authorization ≡ some raw_key)
      × (c ≡ context k)
      × (k.is_active ≡ true)
      × (verify_api_key h raw_key k.key_hash ≡ true)
      × (any (λ s. s == scope) k.scopes ≡ true)
      × Q k
unfolding require_scope
require_scope-Admitted h hex Q scope authorization now w c all e =
    let (raw_key, got, tail) =
      >>=-eq-ok (require (bearer h authorization) _)
        (λ api_key. session (do k ← admit h scope api_key now; commit; pure (context k))) w c e in
    let (is, same) = require-eq-ok (bearer h authorization) _ w raw_key got in
    let ran : (session (do k ← admit h scope raw_key now; commit; pure (context k)) w).0 ≡ ok c =
      subst
        (λ (w' : World).
          (session (do k ← admit h scope raw_key now; commit; pure (context k)) w').0 ≡ ok c)
        same (subst (λ (p : Result AuthContext × World). p.0 ≡ ok c) tail e) in
    let (k, context_is, admitted) =
      session-commits (admit h scope raw_key now) context (admit-Admitted h raw_key Q hex scope now)
        w c all ran in
    (raw_key, k, is, sym context_is, admitted.0.0, admitted.0.1, admitted.1, admitted.0.2)

module _ (key_id org : String) where
  abbrev IsRevoked : ApiKeyModel → Type 0
  IsRevoked k = (k.id == key_id) ≡ true → k.is_active ≡ false

  All-IsRevoked :
      (r : ApiKeyModel)
      → (r.id == key_id) ≡ true
      → r.is_active ≡ false
      → (xs : List ApiKeyModel) → All IsRevoked (replace (λ k. k.id) r xs)
  All-IsRevoked r is off [] = tt
  All-IsRevoked r is off (x ∷ xs) = elim (Bool-cases (x.id == r.id)) [
    | inl e ↦ rw e ((λ same. off), All-IsRevoked r is off xs)
    | inr e ↦ rw e (
      (λ same. absurd (ground (arith, eq_iff x.id key_id, eq_iff r.id key_id, eq_iff x.id r.id))),
      All-IsRevoked r is off xs,
    )
  ]

  revoke-IsRevoked : Does (λ d. Unit) (revoke key_id org) (λ u d. All IsRevoked d.api_keys)
  unfolding revoke
  revoke-IsRevoked =
      let named : ApiKeyModel → Bool = λ k. k.id == key_id && k.organization_id == org in
      Does-bind _ _ (Does-scalar api_keys named) λ found. Does-bind _ _ (Does-require found _) λ k.
        Does-save _ api_keys _
          λ d (f : (Unit × (find named d.api_keys ≡ found)) × (found ≡ some k)).
            All-IsRevoked (record k { is_active = false })
              (and-left _ _ (find-test named d.api_keys k (f.0.1 ∙ f.1))) refl d.api_keys
    where
      and-left : (a b : Bool) → (a && b) ≡ true → a ≡ true
      and-left a b h = ground arith

  -- Once `delete_api_key` has returned, no request is let in as the key that it revoked, whatever
  -- its header and the scope.
  pub delete_api_key-revokes :
      (h : Hashing)
      → HexDigests h
      → (w : World) (body : Json) → (delete_api_key key_id org w).0 ≡ ok body
      → (scope : String) (authorization : Option String) (now : DateTime) (c : AuthContext)
      → (require_scope h scope authorization now (delete_api_key key_id org w).1).0 ≡ ok c
      → (c.api_key_id == key_id) ≡ false
  unfolding delete_api_key
  delete_api_key-revokes h hex w body deleted scope authorization now c let_in =
      let (u, is, revoked) =
        session-commits (revoke key_id org) _ revoke-IsRevoked w body tt deleted in
      let (raw_key, k, header, same, active, verifies, allowed, off) =
        require_scope-Admitted h hex IsRevoked scope authorization now
          (delete_api_key key_id org w).1 c revoked let_in in
      elim (Bool-cases (k.id == key_id)) [
        | inl e ↦ absurd (true_ne_false (sym active ∙ off e))
        | inr e ↦ rw same e
      ]
    where
      true_ne_false : true ≡ false → ⊥
      true_ne_false h = cc
