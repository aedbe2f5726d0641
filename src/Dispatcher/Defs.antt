-- ===== src/Dispatcher/Defs.antt =====
-- The webhook dispatcher (apps/api/src/voiceagent_api/webhooks.py): `WebhookDispatcher.deliver`.
-- httpx is the parameter `http`, which may look at the requests sent before; `sign` is the HMAC of
-- the body under the secret.
use real_voice_agent_free.Prelude.{
  String, ◌&&◌, none, some, List, [], ◌∷◌, ◌++◌, ltb, leb, prefix, if◌then◌else◌,
}
use real_voice_agent_free.Json.{Json, serializable, str, entry}
use real_voice_agent_free.Errors.{Result, ok, err, type_error, key_error, client_error}
use real_voice_agent_free.Env.{
  Post, HttpOutcome, response, http_error, not_sent, DispatchStatus, DeliveryResult, Dispatcher,
}

-- `event[key]` as the value of a header: KeyError where there is none, and TypeError, which httpx
-- raises, where it is no text.
abbrev pub header : String → Json → Result String
header key event = elim (entry key event) [
  | none ↦ err (key_error key)
  | some (str s) ↦ ok s
  | some other ↦ err type_error
]

-- What `deliver` returns, or the exception of httpx that it lets through.
abbrev pub delivery_result : HttpOutcome → Result DeliveryResult
delivery_result (response code text) = ok (record {
  status = if leb 200 code && ltb code 300 then DispatchStatus.delivered else DispatchStatus.failed;
  response_code = some code;
  response_body = some (prefix 2000 text);
})
delivery_result (http_error message) = ok (record {
  status = DispatchStatus.failed;
  response_code = none;
  response_body = some (prefix 2000 message);
})
delivery_result not_sent = err client_error

-- The requests that were sent, with this one.
abbrev pub sent_with : HttpOutcome → Post → List Post → List Post
sent_with not_sent post posts = posts
sent_with _ post posts = posts ++ post ∷ []

module _ (http : List Post → Post → HttpOutcome) (sign : String → Json → String) where
  abbrev pub post_of : String → String → Json → String → String → Post
  post_of target_url secret event event_type event_id = record {
    target_url = target_url;
    body = event;
    signature = sign secret event;
    event_type = event_type;
    event_id = event_id;
  }

  -- the request, once the body and both headers are there
  abbrev pub send : Post → List Post → Result DeliveryResult × List Post
  send post posts = (delivery_result (http posts post), sent_with (http posts post) post posts)

  unfoldable pub deliver : Dispatcher
  deliver target_url secret event posts =
      if serializable event
      then elim (header "event_type" event) [
        | err e ↦ (err e, posts)
        | ok event_type ↦ elim (header "event_id" event) [
          | err e ↦ (err e, posts)
          | ok event_id ↦ send (post_of target_url secret event event_type event_id) posts
        ]
      ]
      else (err type_error, posts)
