-- ===== src/Env.antt =====
-- What the code takes from outside: the settings of apps/api/src/voiceagent_api/config.py, and
-- the libraries and services that it calls.
use real_voice_agent_free.Prelude.{
  ℕ, ◌≡◌, String, Option, List, count, DateTime, Stamp, Bool, false, none, some, [], ◌∷◌, ◌==◌,
  if◌then◌else◌,
}
use real_voice_agent_free.Json.{Json}
use real_voice_agent_free.Errors.{Result}

-- class Settings: the fields that the modelled code reads. Numbers are taken as non-negative.
pub record Settings : Type 0 where
  pub webhook_max_attempts : ℕ
  pub webhook_retry_backoff_seconds : ℕ
  pub webhook_delivery_batch_size : ℕ
  pub idempotency_ttl_seconds : ℕ
  pub booking_slot_minutes : ℕ
  pub runtime_default_voice_id : String
  pub openai_api_key : String
  pub openai_stt_model : String
  pub openai_llm_model : String
  pub openai_tts_model : String
  pub openai_tts_response_format : String
  pub default_organization_id : String

-- The defaults that config.py gives.
abbrev pub default_settings : Settings
default_settings = record {
  webhook_max_attempts = 5;
  webhook_retry_backoff_seconds = 30;
  webhook_delivery_batch_size = 25;
  idempotency_ttl_seconds = 86400;
  booking_slot_minutes = 30;
  runtime_default_voice_id = "alloy";
  openai_api_key = "";
  openai_stt_model = "gpt-4o-transcribe";
  openai_llm_model = "gpt-4.1-mini";
  openai_tts_model = "gpt-4o-mini-tts";
  openai_tts_response_format = "mp3";
  default_organization_id = "org_default";
}

-- A signed POST request of the webhook dispatcher.
pub record Post : Type 0 where
  pub target_url : String
  pub body : Json
  pub signature : String
  pub event_type : String
  pub event_id : String

-- How httpx ends a request: with a response, with an `httpx.HTTPError`, or, before anything is
-- sent, with an exception that is none, such as `httpx.InvalidURL`.
pub data HttpOutcome : Type 0 where
  response : ℕ → String → HttpOutcome
  http_error : String → HttpOutcome
  not_sent : HttpOutcome

pub data DispatchStatus : Type 0 where
  delivered failed : DispatchStatus

-- webhooks.py, class DeliveryResult
pub record DeliveryResult : Type 0 where
  pub status : DispatchStatus
  pub response_code : Option ℕ
  pub response_body : Option String

-- The method `deliver` of a dispatcher: it may raise, and it adds to the requests that were sent.
abbrev pub Dispatcher : Type 0
Dispatcher = String → String → Json → List Post → Result DeliveryResult × List Post

-- A SETEX of the idempotency cache: the key, the texts that `json.dumps` made, the time to live.
pub record CacheWrite : Type 0 where
  pub key : String
  pub request_hash : String
  pub body_text : String
  pub response_code : ℕ
  pub ttl : ℕ

-- The LIMIT and OFFSET of a query, where it has them.
pub data Window : Type 0 where
  whole : Window
  limited : ℕ → ℕ → Window

-- The parameters of the store. `uuid_hex n` is the `uuid4().hex` of the n-th draw. The orders are
-- those in which the database ranks rows under ORDER BY: rows of one key in any order, which may be
-- another one under another LIMIT or OFFSET. `cache_lookup` is what the cache returns after the
-- writes it has got; `local_utc` reads a clock without a zone as the server does, `from_utc` as
-- UTC. `last_datetime` is `datetime.max`. `stored_time` is what a column gives back of an instant:
-- with its zone (PostgreSQL), or what the UTC clock showed, without it (SQLite).
pub record Env : Type 1 where
  pub settings : Settings
  pub uuid_hex : ℕ → String
  pub dispatcher : Dispatcher
  pub order_asc : Window → (A : Type 0) → (A → ℕ) → List A → List A
  pub order_desc : Window → (A : Type 0) → (A → ℕ) → List A → List A
  pub order_by_text : Window → (A : Type 0) → (A → String) → List A → List A
  pub dumps : Json → String
  pub loads : String → Json
  pub upper : String → String
  pub last_datetime : DateTime
  pub local_utc : ℕ → DateTime
  pub from_utc : ℕ → DateTime
  pub stored_time : DateTime → Stamp
  pub cache_lookup : List CacheWrite → String → Option CacheWrite

-- ORDER BY returns the rows that it was given, each as often.
pub record OrdersRows (env : Env) : Type 1 where
  pub count-order_asc :
      (window : Window) (A : Type 0) (key : A → ℕ) (p : A → Bool) (xs : List A)
      → count p (env.order_asc window A key xs) ≡ count p xs
  pub count-order_desc :
      (window : Window) (A : Type 0) (key : A → ℕ) (p : A → Bool) (xs : List A)
      → count p (env.order_desc window A key xs) ≡ count p xs

-- The last write under a key.
abbrev pub last_write : String → List CacheWrite → Option CacheWrite
last_write key [] = none
last_write key (c ∷ log) = elim (last_write key log) [
  | some found ↦ some found
  | none ↦ if c.key == key then some c else none
]

-- The cache returns nothing, or the last value that was written under the key.
pub record CacheIsFaithful (env : Env) : Type 0 where
  pub found :
      (log : List CacheWrite) (key : String) (c : CacheWrite)
      → env.cache_lookup log key ≡ some c
      → last_write key log ≡ some c

-- `json.dumps` writes no empty text.
pub record WritesTexts (env : Env) : Type 0 where
  pub dumps_nonempty : (j : Json) → (env.dumps j == "") ≡ false
