-- ===== src/Serialize/Webhooks.antt =====
-- The dictionaries that the functions `_serialize_*` of store.py build: webhooks.
use real_voice_agent_free.Prelude.{aware, [], ◌∷◌}
use real_voice_agent_free.Json.{num, str, datetime, dict, Json}
use real_voice_agent_free.Models.{EventModel, WebhookDeliveryModel}
use real_voice_agent_free.Serialize.Values.{opt_str, opt_num, opt_datetime, delivery_status_text}

unfoldable pub serialize_event : EventModel → Json
serialize_event model = dict (
    ("event_id", str model.event_id)
    ∷ ("event_type", str model.event_type)
    ∷ ("event_version", str model.event_version)
    ∷ ("occurred_at", datetime (aware model.occurred_at))
    ∷ ("trace_id", str model.trace_id)
    ∷ ("tenant_id", str model.tenant_id)
    ∷ ("source", str model.source)
    ∷ ("payload", model.payload)
    ∷ [])

unfoldable pub serialize_delivery : WebhookDeliveryModel → Json
serialize_delivery model = dict (
    ("id", str model.id)
    ∷ ("webhook_id", str model.webhook_id)
    ∷ ("event_id", str model.event_id)
    ∷ ("event_type", str model.event_type)
    ∷ ("status", str (delivery_status_text model.status))
    ∷ ("attempt_count", num model.attempt_count)
    ∷ ("response_code", opt_num model.response_code)
    ∷ ("response_body", opt_str model.response_body)
    ∷ ("last_attempt_at", opt_datetime model.last_attempt_at)
    ∷ ("next_attempt_at", opt_datetime model.next_attempt_at)
    ∷ ("last_error", opt_str model.last_error)
    ∷ ("delivered_at", opt_datetime model.delivered_at)
    ∷ ("created_at", datetime (aware model.created_at))
    ∷ [])
