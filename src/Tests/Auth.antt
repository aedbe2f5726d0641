-- ===== src/Tests/Auth.antt =====
-- Instances of the theorems on API keys.
use real_voice_agent_free.Prelude.{
  String, ◌==◌, ◌≡◌, refl, true, false, Option, none, some, [], ◌∷◌, any, inl, inr, Bool-cases,
  if◌then◌else◌,
}
use real_voice_agent_free.Json.{Json, str, dict}
use real_voice_agent_free.Errors.{ok}
use real_voice_agent_free.Models.{ApiKeyModel}
use real_voice_agent_free.Session.{World, ◌>>=◌, select, scalar, require, save, commit, session}
use real_voice_agent_free.Auth.{
  Hashing, context, is_bcrypt_api_key_hash, verify_api_key, is_candidate, or_candidate,
  find_api_key_model, hash_api_key, bearer, allow, rehash, admit, require_scope, revoke,
  delete_api_key,
}
use real_voice_agent_free.Auth.Keys.{HexDigests}
use real_voice_agent_free.Auth.Access.{require_scope-Admitted, delete_api_key-revokes}
use real_voice_agent_free.Tests.World.{db, world_of}

-- Two digests, and a bcrypt that accepts every key.
abbrev hashing : Hashing
hashing = record {
  sha256_hex = λ s. if s == "va_secret" then "5ec2e7" else "0ddba11";
  bcrypt_hash = λ n s. "$2b$12$salted";
  bcrypt_check = λ s stored. some true;
  strip = λ s. s;
}

hashing-HexDigests : HexDigests hashing
unfolding is_bcrypt_api_key_hash
hashing-HexDigests = record {
  no_bcrypt = λ s. elim (Bool-cases (s == "va_secret")) [ inl e ↦ rw e refl | inr e ↦ rw e refl ];
}

abbrev key_1 : ApiKeyModel
key_1 = record {
  id = "key_1";
  organization_id = "org_default";
  name = "first";
  key_hash = "0ddba11";
  scopes = "agents:read" ∷ [];
  is_active = true;
  created_at = 1;
  last_used_at = none;
}

abbrev key_2 : ApiKeyModel
key_2 = record key_1 { id = "key_2"; key_hash = "5ec2e7" }

abbrev start : World
start = world_of (record db { api_keys = key_1 ∷ key_2 ∷ [] })

abbrev header : Option String
header = some "Bearer va_secret"

let-in : (require_scope hashing "agents:read" header 9 start).0 ≡ ok (context key_2)
unfolding require_scope bearer admit find_api_key_model or_candidate is_candidate allow rehash
    hash_api_key is_bcrypt_api_key_hash session scalar select require save commit ◌>>=◌
let-in = refl

require_scope-Admitted_example :
    (raw_key : String) × (k : ApiKeyModel) × (bearer hashing header ≡ some raw_key)
    × (context key_2 ≡ context k)
    × (k.is_active ≡ true)
    × (verify_api_key hashing raw_key k.key_hash ≡ true)
    × (any (λ s. s == "agents:read") k.scopes ≡ true)
    × ((k.organization_id == "org_default") ≡ true)
require_scope-Admitted_example =
    require_scope-Admitted hashing hashing-HexDigests
      (λ k. (k.organization_id == "org_default") ≡ true) "agents:read" header 9 start
      (context key_2) (refl, (refl, tt)) let-in

abbrev revoked : World
revoked = (delete_api_key "key_1" "org_default" start).1

abbrev answer : Json
answer = dict (("id", str "key_1") ∷ ("status", str "revoked") ∷ [])

delete-ok : (delete_api_key "key_1" "org_default" start).0 ≡ ok answer
unfolding delete_api_key revoke session scalar require save commit ◌>>=◌
delete-ok = refl

let-in-later : (require_scope hashing "agents:read" header 9 revoked).0 ≡ ok (context key_2)
unfolding require_scope bearer admit find_api_key_model or_candidate is_candidate allow rehash
    hash_api_key is_bcrypt_api_key_hash delete_api_key revoke session scalar select require save
    commit ◌>>=◌
let-in-later = refl

delete_api_key-revokes_example : ((context key_2).api_key_id == "key_1") ≡ false
delete_api_key-revokes_example =
    delete_api_key-revokes "key_1" "org_default" hashing hashing-HexDigests start answer delete-ok
      "agents:read" header 9 (context key_2) let-in-later
