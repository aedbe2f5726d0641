-- ===== src/Errors.antt =====
-- The exceptions of apps/api/src/voiceagent_api/errors.py, and the result of code that may raise.
-- Each class is the function that builds its instance from a message.
use real_voice_agent_free.Prelude.{ℕ, String}

pub record VoiceAgentError : Type 0 where
  pub code : String
  pub message : String
  pub category : String
  pub status_code : ℕ

abbrev pub authentication_error : String → VoiceAgentError
authentication_error m = record {
  code = "authentication_error";
  message = m;
  category = "auth";
  status_code = 401;
}

abbrev pub authorization_error : String → VoiceAgentError
authorization_error m = record {
  code = "authorization_error";
  message = m;
  category = "auth";
  status_code = 403;
}

abbrev pub not_found : String → VoiceAgentError
not_found m = record { code = "not_found"; message = m; category = "validation"; status_code = 404 }

abbrev pub invalid_signature : String → VoiceAgentError
invalid_signature m = record {
  code = "invalid_signature";
  message = m;
  category = "auth";
  status_code = 401;
}

abbrev pub upstream_service_error : String → ℕ → VoiceAgentError
upstream_service_error m status = record {
  code = "upstream_service_error";
  message = m;
  category = "integration";
  status_code = status;
}

abbrev pub idempotency_conflict : String → VoiceAgentError
idempotency_conflict m = record {
  code = "idempotency_conflict";
  message = m;
  category = "validation";
  status_code = 409;
}

abbrev pub idempotency_required : String → VoiceAgentError
idempotency_required m = record {
  code = "idempotency_required";
  message = m;
  category = "validation";
  status_code = 428;
}

abbrev pub booking_conflict : String → VoiceAgentError
booking_conflict m = record {
  code = "booking_conflict";
  message = m;
  category = "validation";
  status_code = 409;
}

-- What ends a call: an exception of the program, a TypeError (of `json.dumps`, or of a header that
-- is no text), the KeyError of `event[key]`, an exception of httpx that is no HTTPError, the
-- OverflowError of a datetime past the last one, or the database's refusal of a row under a primary key that is taken.
pub data Failure : Type 0 where
  raised : VoiceAgentError → Failure
  type_error : Failure
  key_error : String → Failure
  client_error : Failure
  overflow_error : Failure
  integrity_error : String → Failure

pub data Result (A : Type 0) : Type 0 where
  ok : A → Result A
  err : Failure → Result A
