-- ===== src/Auth/Keys.antt =====
-- Which key authenticates a request (auth.py, `find_api_key_model` and what `require_scope` does
-- with its result).
use real_voice_agent_free.Prelude.{
  String, ◌==◌, ◌≡◌, subst, ◌∙◌, Bool, true, false, not, ◌&&◌, Option, none, some, List, [], ◌∷◌,
  find, any, filter, find-test, All, DateTime, arith, eq_iff, eq_refl, inl, inr, Bool-cases,
}
use real_voice_agent_free.Models.{ApiKeyModel}
use real_voice_agent_free.Db.{Db, api_keys}
use real_voice_agent_free.Session.{pure, raise, select}
use real_voice_agent_free.Session.Inversion.{ok_inj, err_ne_ok}
use real_voice_agent_free.Session.Does.{
  Does, Does-bind, Does-scalar, Does-require, Does-before, Does-save, Does-pure,
}
use real_voice_agent_free.Auth.{
  Hashing, is_bcrypt_api_key_hash, verify_api_key, is_candidate, or_candidate, find_api_key_model,
  hash_api_key, allow, rehash, admit,
}

-- A hexadecimal digest has no prefix of a bcrypt hash.
pub record HexDigests (h : Hashing) : Type 0 where
  pub no_bcrypt : (s : String) → is_bcrypt_api_key_hash (h.sha256_hex s) ≡ false

pub find-All :
    {A : Type 0} (P : A → Type 0) (p : A → Bool) (xs : List A) (a : A)
    → All P xs
    → find p xs ≡ some a
    → P a
find-All P p [] a h e = absurd (ground arith)
find-All P p (x ∷ xs) a h e = elim (Bool-cases (p x)) [
  | inl on ↦ subst P (some_inj x a (rw on at e)) h.0
  | inr off ↦ find-All P p xs a h.1 (rw off at e)
]
  where
    some_inj : {A : Type 0} (x a : A) → some x ≡ some a → x ≡ a
    some_inj x a h = cc

All-filter_of :
    {A : Type 0} (P : A → Type 0) (p : A → Bool) (xs : List A) → All P xs → All P (filter p xs)
All-filter_of P p [] h = tt
All-filter_of P p (x ∷ xs) h = elim (Bool-cases (p x)) [
  | inl on ↦ rw on (h.0, All-filter_of P p xs h.1)
  | inr off ↦ rw off (All-filter_of P p xs h.1)
]

module _ (h : Hashing) (raw_key : String) (Q : ApiKeyModel → Type 0) where
  -- An active key that the raw key verifies against, of which `Q` holds as of all stored keys.
  abbrev Matches : ApiKeyModel → Type 0
  Matches k = (k.is_active ≡ true) × (verify_api_key h raw_key k.key_hash ≡ true) × Q k

  abbrev KeysHave : Db → Type 0
  KeysHave d = All Q d.api_keys

  legacy-verifies :
      HexDigests h
      → (k : ApiKeyModel) → (k.key_hash == h.sha256_hex raw_key) ≡ true
      → verify_api_key h raw_key k.key_hash ≡ true
  unfolding verify_api_key
  legacy-verifies hex k e =
      rw ((eq_iff k.key_hash (h.sha256_hex raw_key)).0 e)
        (rw (hex.no_bcrypt raw_key) (eq_refl (h.sha256_hex raw_key)))

  legacy-Matches :
      HexDigests h
      → (k : ApiKeyModel) → Q k
      → (is_candidate none k && k.key_hash == h.sha256_hex raw_key) ≡ true
      → Matches k
  unfolding is_candidate
  legacy-Matches hex k q e = (ground arith, legacy-verifies hex k (ground arith), q)

  select-Does :
      Does KeysHave
        (select api_keys (is_candidate none))
        (λ ks d. All (λ k. (k.is_active ≡ true) × Q k) ks)
  unfolding select is_candidate
  select-Does = record {
    post = λ w ks all e.
        subst (λ (xs : List ApiKeyModel). All (λ k. (k.is_active ≡ true) × Q k) xs)
          (ok_inj (filter (is_candidate none) w.view.api_keys) ks e)
          (candidates w.view.api_keys all);
  }
    where
      candidates :
          (xs : List ApiKeyModel)
          → All Q xs
          → All (λ k. (k.is_active ≡ true) × Q k) (filter (is_candidate none) xs)
      candidates [] all = tt
      candidates (x ∷ xs) all = elim (Bool-cases (is_candidate none x)) [
        | inl on ↦ rw on ((ground arith, all.0), candidates xs all.1)
        | inr off ↦ rw off (candidates xs all.1)
      ]

  MatchesIfFound : Option ApiKeyModel → Type 0
  MatchesIfFound o = (k : ApiKeyModel) → o ≡ some k → Matches k

  candidate-Matches :
      (ks : List ApiKeyModel)
      → All (λ k. (k.is_active ≡ true) × Q k) ks
      → MatchesIfFound (
          find
            (λ k. not (k.key_hash == h.sha256_hex raw_key) && verify_api_key h raw_key k.key_hash)
            ks)
  unfolding MatchesIfFound
  candidate-Matches ks all k e =
      let test : ApiKeyModel → Bool =
        λ k. not (k.key_hash == h.sha256_hex raw_key) && verify_api_key h raw_key k.key_hash in
      let (active, q) = find-All (λ k. (k.is_active ≡ true) × Q k) test ks k all e in
      (active, and-right _ _ (find-test test ks k e), q)
    where
      and-right : (a b : Bool) → (a && b) ≡ true → b ≡ true
      and-right a b h = ground arith

  or_candidate-Matches :
      (o : Option ApiKeyModel)
      → MatchesIfFound o
      → Does KeysHave (or_candidate h raw_key none o) (λ found d. MatchesIfFound found)
  unfolding or_candidate
  or_candidate-Matches (some k) m = Does-pure _ _ (λ d all. m)
  or_candidate-Matches none m =
      Does-bind _ _ select-Does λ ks. Does-pure _ _ λ d all. candidate-Matches ks all

  find_api_key_model-Matches :
      HexDigests h
      → Does KeysHave (find_api_key_model h raw_key none) (λ found d. MatchesIfFound found)
  unfolding find_api_key_model MatchesIfFound
  find_api_key_model-Matches hex =
      let legacy : ApiKeyModel → Bool =
        λ k. is_candidate none k && k.key_hash == h.sha256_hex raw_key in
      Does-bind _ _ (Does-scalar api_keys legacy) λ o. record {
        post = λ w found got e.
            (or_candidate-Matches o (λ k is.
                legacy-Matches hex k (find-All Q legacy w.view.api_keys k got.0 (got.1 ∙ is))
                  (find-test legacy w.view.api_keys k (got.1 ∙ is)))).post
              w found got.0 e;
      }

  -- What is known of the key that is admitted for a scope.
  abbrev Admitted : String → ApiKeyModel → Type 0
  Admitted scope k = Matches k × (any (λ s. s == scope) k.scopes ≡ true)

  allow-Does :
      (scope : String) (k : ApiKeyModel)
      → Does (λ d. Matches k) (allow scope k) (λ u d. Admitted scope k)
  unfolding allow raise
  allow-Does scope k = record {
    post = λ w u m e. elim (Bool-cases (any (λ s. s == scope) k.scopes)) [
      | inl on ↦ (m, on)
      | inr off ↦ absurd (err_ne_ok (rw off at e))
    ];
  }

  rehash-Does : {P : Db → Type 0} → (k : ApiKeyModel) → Does P (rehash h raw_key k) (λ key_hash. P)
  unfolding rehash hash_api_key pure
  rehash-Does k = record {
    post = λ w a p e. elim (Bool-cases (is_bcrypt_api_key_hash k.key_hash)) [
      | inl on ↦ rw on p
      | inr off ↦ rw off p
    ];
  }

  pub admit-Admitted :
      HexDigests h
      → (scope : String) (now : DateTime)
      → Does KeysHave (admit h scope raw_key now) (λ k d. Admitted scope k)
  unfolding admit MatchesIfFound
  admit-Admitted hex scope now = Does-bind _ _ (find_api_key_model-Matches hex) λ found.
      Does-bind _ _ (Does-require found _) λ k.
        Does-bind _ _
          (Does-before _ (λ d (m : MatchesIfFound found × (found ≡ some k)). m.0 k m.1)
            (allow-Does scope k))
          λ u. Does-bind _ _ (rehash-Does k) λ key_hash.
            Does-bind _ _ (Does-save (λ d. Admitted scope k) api_keys _ (λ d a. a))
              λ u'. Does-pure _ _ (λ d a. a)
