-- ===== src/Dispatcher/Laws.antt =====
-- What `WebhookDispatcher.deliver` does with an event of the store, and with a plain JSON event.
use real_voice_agent_free.Prelude.{
  ◌≤◌, ◌<◌, String, ◌≡◌, refl, true, ◌↔◌, ◌&&◌, ℕ, leb, ltb, if◌then◌else◌, prefix, some, none,
  List, [], ◌∷◌, ◌++◌, arith,
}
use real_voice_agent_free.Json.{Json, str, entry, serializable}
use real_voice_agent_free.Errors.{Result, ok, err, type_error, client_error}
use real_voice_agent_free.Env.{
  Post, HttpOutcome, response, http_error, not_sent, DispatchStatus, DeliveryResult,
}
use real_voice_agent_free.Models.{EventModel}
use real_voice_agent_free.Serialize.{serialize_event}
use real_voice_agent_free.Dispatcher.Defs.{deliver, delivery_result, sent_with, post_of}

module _ (http : List Post → Post → HttpOutcome) (sign : String → Json → String) where
  -- Every event that the store serializes holds a `datetime`, which `json.dumps` refuses: the call
  -- raises TypeError, whatever the event, and no request is sent.
  pub deliver-serialize_event :
      (event : EventModel) (target_url secret : String) (posts : List Post)
      → deliver http sign target_url secret (serialize_event event) posts ≡ (err type_error, posts)
  unfolding deliver serialize_event serializable
  deliver-serialize_event event target_url secret posts = refl

-- What a result is for an answer: delivered exactly for a response with a status from 200 to 299,
-- whose status and first 2000 characters are kept; failed, with the message, for an HTTPError.
abbrev pub Reports : HttpOutcome → DeliveryResult → Type 0
Reports (response code text) r =
    ((r.status ≡ DispatchStatus.delivered) ↔ ((200 ≤ code) × (code < 300)))
    × (r.response_code ≡ some code)
    × (r.response_body ≡ some (prefix 2000 text))
Reports (http_error message) r =
    (r.status ≡ DispatchStatus.failed)
    × (r.response_code ≡ none)
    × (r.response_body ≡ some (prefix 2000 message))
Reports not_sent r = ⊥

-- How `deliver` ends after one request: with a result that reports on the answer, the request having
-- been sent; or with the exception of httpx that is no HTTPError, nothing having been sent.
abbrev pub Ends : HttpOutcome → Post → List Post → Result DeliveryResult × List Post → Type 0
Ends not_sent post posts run = run ≡ (err client_error, posts)
Ends outcome post posts run =
    (r : DeliveryResult) × (run ≡ (ok r, posts ++ post ∷ [])) × Reports outcome r

status-code :
    (code : ℕ)
    → ((if leb 200 code && ltb code 300 then DispatchStatus.delivered else DispatchStatus.failed)
        ≡ DispatchStatus.delivered)
      ↔ ((200 ≤ code) × (code < 300))
status-code code = ground arith

Ends-of_outcome :
    (outcome : HttpOutcome) (post : Post) (posts : List Post)
    → Ends outcome post posts (delivery_result outcome, sent_with outcome post posts)
Ends-of_outcome (response code text) post posts = (_, refl, (status-code code, refl, refl))
Ends-of_outcome (http_error message) post posts = (_, refl, (refl, refl, refl))
Ends-of_outcome not_sent post posts = refl

module _ (http : List Post → Post → HttpOutcome) (sign : String → Json → String) where
  -- An event that is plain JSON and has a text as its `event_type` and as its `event_id` makes one
  -- request: to the hook's address, signed under its secret, with both texts. Where httpx ends it
  -- with a response or an HTTPError, it was sent, and the event counts as delivered exactly for a
  -- response with a status from 200 to 299; any other exception of httpx is let through.
  pub deliver-plain :
      (event : Json) (target_url secret event_type event_id : String) (posts : List Post)
      → serializable event ≡ true
      → entry "event_type" event ≡ some (str event_type)
      → entry "event_id" event ≡ some (str event_id)
      → (post : Post) × (post.target_url ≡ target_url)
        × (post.signature ≡ sign secret event)
        × (post.body ≡ event)
        × (post.event_type ≡ event_type)
        × (post.event_id ≡ event_id)
        × Ends (http posts post) post posts (deliver http sign target_url secret event posts)
  unfolding deliver
  deliver-plain event target_url secret event_type event_id posts h ht hi =
      let post = post_of http sign target_url secret event event_type event_id in
      (
        post,
        refl,
        refl,
        refl,
        refl,
        refl,
        rw h (rw ht (rw hi (Ends-of_outcome (http posts post) post posts))),
      )
