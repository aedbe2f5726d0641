-- ===== src/Serialize/Calls.antt =====
-- The dictionaries that the functions `_serialize_*` of store.py build: calls.
use real_voice_agent_free.Prelude.{aware, [], ◌∷◌}
use real_voice_agent_free.Json.{bool, num, str, datetime, arr, items, dict, Json}
use real_voice_agent_free.Models.{CallModel, CallSummaryModel, CallTurnModel}
use real_voice_agent_free.Serialize.Values.{
  opt_str, opt_num, opt_datetime, opt_outcome, call_status_text,
}

unfoldable pub serialize_call : CallModel → Json
serialize_call model = dict (
    ("id", str model.id)
    ∷ ("agent_id", str model.agent_id)
    ∷ ("phone_number_id", opt_str model.phone_number_id)
    ∷ ("channel", str model.channel)
    ∷ ("direction", str model.direction)
    ∷ ("from_number", str model.from_number)
    ∷ ("to_number", str model.to_number)
    ∷ ("status", str (call_status_text model.status))
    ∷ ("outcome", opt_outcome model.outcome)
    ∷ ("duration_ms", opt_num model.duration_ms)
    ∷ ("recording_available", bool model.recording_available)
    ∷ ("started_at", datetime (aware model.started_at))
    ∷ ("ended_at", opt_datetime model.ended_at)
    ∷ ("created_at", datetime (aware model.created_at))
    ∷ ("updated_at", datetime (aware model.updated_at))
    ∷ [])

unfoldable pub serialize_call_turn : CallTurnModel → Json
serialize_call_turn model = dict (
    ("id", str model.id)
    ∷ ("call_id", str model.call_id)
    ∷ ("turn_index", num model.turn_index)
    ∷ ("user_text", str model.user_text)
    ∷ ("assistant_text", str model.assistant_text)
    ∷ ("latency_ms", num model.latency_ms)
    ∷ ("provider_breakdown", model.provider_breakdown)
    ∷ ("tool_calls", arr (items model.tool_calls))
    ∷ ("response_audio_ref", opt_str model.response_audio_ref)
    ∷ ("finish_reason", opt_str model.finish_reason)
    ∷ ("created_at", datetime (aware model.created_at))
    ∷ [])

unfoldable pub serialize_call_summary : CallSummaryModel → Json
serialize_call_summary model = dict (
    ("call_id", str model.call_id)
    ∷ ("summary_text", str model.summary_text)
    ∷ ("structured_summary", model.structured_summary)
    ∷ ("created_at", datetime (aware model.created_at))
    ∷ ("updated_at", datetime (aware model.updated_at))
    ∷ [])
