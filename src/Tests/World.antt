-- ===== src/Tests/World.antt =====
-- A concrete environment and a small database, for the tests and the instances of the theorems.
use real_voice_agent_free.Prelude.{
  ℕ, String, ◌≡◌, refl, ◌∙◌, Bool, true, none, some, List, [], ◌∷◌, leb, nat_eq, count, arith, inl,
  inr, Bool-cases, aware, days_long, if◌then◌else◌,
}
use real_voice_agent_free.Json.{str, dict, null}
use real_voice_agent_free.Errors.{ok}
use real_voice_agent_free.Env.{
  Env, default_settings, DispatchStatus, DeliveryResult, OrdersRows, CacheIsFaithful, WritesTexts,
  last_write,
}
use real_voice_agent_free.Models.{
  DeliveryStatus, EventModel, WebhookSubscriptionModel, WebhookDeliveryModel,
}
use real_voice_agent_free.Db.{Db, empty_db}
use real_voice_agent_free.Session.{World}

-- ORDER BY, as an insertion sort.
module _ {A : Type 0} (before : A → A → Bool) where
  place : A → List A → List A
  place x [] = x ∷ []
  place x (y ∷ ys) = let rest = place x ys in if before x y then x ∷ y ∷ ys else y ∷ rest

  unfoldable pub sort : List A → List A
  unfolding place
  sort [] = []
  sort (x ∷ xs) = place x (sort xs)

  count-place : (p : A → Bool) (x : A) (ys : List A) → count p (place x ys) ≡ count p (x ∷ ys)
  unfolding place
  count-place p x [] = refl
  count-place p x (y ∷ ys) = elim (Bool-cases (before x y)) [
    | inl e ↦ rw e
    | inr e ↦ rw e (omega (arith, count-place p x ys))
  ]

  pub count-sort : (p : A → Bool) (xs : List A) → count p (sort xs) ≡ count p xs
  unfolding sort
  count-sort p [] = refl
  count-sort p (x ∷ xs) = count-place p x (sort xs) ∙ omega (arith, count-sort p xs)

-- A dispatcher that every hook answers with 500, and one that every hook answers with 200.
abbrev pub refused : DeliveryResult
refused = record {
  status = DispatchStatus.failed;
  response_code = some 500;
  response_body = some "down";
}

abbrev pub accepted : DeliveryResult
accepted = record {
  status = DispatchStatus.delivered;
  response_code = some 200;
  response_body = some "ok";
}

abbrev hex : ℕ → String
hex n =
    if nat_eq n 0
    then "00000000aa"
    else if nat_eq n 1
    then "11111111bb"
    else if nat_eq n 2
    then "22222222cc"
    else if nat_eq n 3
    then "33333333dd"
    else if nat_eq n 4
    then "44444444ee"
    else if nat_eq n 5
    then "55555555ff"
    else if nat_eq n 6
    then "66666666aa"
    else if nat_eq n 7
    then "77777777bb"
    else "88888888cc"

abbrev pub env_with : DeliveryResult → Env
env_with r = record {
  settings = default_settings;
  uuid_hex = hex;
  dispatcher = λ url secret event posts. (ok r, posts);
  order_asc = λ window A key. sort (λ x y. leb (key x) (key y));
  order_desc = λ window A key. sort (λ x y. leb (key y) (key x));
  order_by_text = λ window A key xs. xs;
  dumps = λ j. "{}";
  loads = λ s. null;
  upper = λ s. s;
  last_datetime = days_long 3652066;
  local_utc = λ t. t;
  from_utc = λ t. t;
  stored_time = aware;
  cache_lookup = λ log key. last_write key log;
}

pub env_with-OrdersRows : (r : DeliveryResult) → OrdersRows (env_with r)
env_with-OrdersRows r = record {
  count-order_asc = λ window A key p xs. count-sort (λ x y. leb (key x) (key y)) p xs;
  count-order_desc = λ window A key p xs. count-sort (λ x y. leb (key y) (key x)) p xs;
}

pub env_with-CacheIsFaithful : (r : DeliveryResult) → CacheIsFaithful (env_with r)
env_with-CacheIsFaithful r = record { found = λ log key c e. e }

pub env_with-WritesTexts : (r : DeliveryResult) → WritesTexts (env_with r)
env_with-WritesTexts r = record { dumps_nonempty = λ j. refl }

abbrev pub hook : WebhookSubscriptionModel
hook = record {
  id = "wh_1";
  organization_id = "org_default";
  target_url = "https://example.org/hook";
  event_types = "*" ∷ [];
  secret = "whsec_1";
  is_active = true;
  created_at = 1;
  updated_at = 1;
}

abbrev pub event : EventModel
event = record {
  event_id = "evt_1";
  event_type = "call.started";
  event_version = "v1";
  occurred_at = 2;
  trace_id = "t1";
  tenant_id = "org_default";
  source = "runtime";
  payload = dict (("call_id", str "call_1") ∷ []);
}

abbrev pub delivery : WebhookDeliveryModel
delivery = record {
  id = "wd_1";
  webhook_id = "wh_1";
  event_id = "evt_1";
  event_type = "call.started";
  status = DeliveryStatus.pending;
  attempt_count = 0;
  response_code = none;
  response_body = none;
  last_attempt_at = none;
  next_attempt_at = some 2;
  last_error = none;
  delivered_at = none;
  created_at = 2;
}

abbrev pub db : Db
db = record empty_db {
  events = event ∷ [];
  webhook_subscriptions = hook ∷ [];
  webhook_deliveries = delivery ∷ [];
}

abbrev pub world_of : Db → World
world_of d = record { disk = d; view = d; draws = 0; posts = []; cache = [] }
