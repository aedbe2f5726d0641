-- ===== src/Serialize/Agents.antt =====
-- The dictionaries that the functions `_serialize_*` of store.py build: agents.
use real_voice_agent_free.Prelude.{aware, [], ◌∷◌}
use real_voice_agent_free.Json.{bool, str, datetime, dict, Json}
use real_voice_agent_free.Models.{AgentModel, AgentVersionModel, BookingModel, TemplateModel}
use real_voice_agent_free.Serialize.Values.{opt_str, hours, booking_status_text, agent_status_text}

unfoldable pub serialize_agent : AgentModel → Json
serialize_agent model = dict (
    ("id", str model.id)
    ∷ ("name", str model.name)
    ∷ ("template_id", str model.template_id)
    ∷ ("timezone", str model.timezone)
    ∷ ("default_language", str model.default_language)
    ∷ ("business_hours", hours model.business_hours)
    ∷ ("status", str (agent_status_text model.status))
    ∷ ("published_version_id", opt_str model.published_version_id)
    ∷ ("created_at", datetime (aware model.created_at))
    ∷ ("updated_at", datetime (aware model.updated_at))
    ∷ [])

unfoldable pub serialize_version : AgentVersionModel → Json
serialize_version model = dict (
    ("version_id", str model.version_id)
    ∷ ("agent_id", str model.agent_id)
    ∷ ("target_environment", str model.target_environment)
    ∷ ("created_at", datetime (aware model.created_at))
    ∷ ("snapshot", model.snapshot)
    ∷ [])

unfoldable pub serialize_template : TemplateModel → Json
serialize_template model = dict (
    ("id", str model.id)
    ∷ ("name", str model.name)
    ∷ ("description", opt_str model.description)
    ∷ ("default_language", str model.default_language)
    ∷ ("timezone", str model.timezone)
    ∷ ("business_hours", hours model.business_hours)
    ∷ ("definition", model.definition)
    ∷ ("is_active", bool model.is_active)
    ∷ ("created_at", datetime (aware model.created_at))
    ∷ ("updated_at", datetime (aware model.updated_at))
    ∷ [])

unfoldable pub serialize_booking : BookingModel → Json
serialize_booking model = dict (
    ("id", str model.id)
    ∷ ("agent_id", str model.agent_id)
    ∷ ("contact_name", str model.contact_name)
    ∷ ("contact_phone", str model.contact_phone)
    ∷ ("service", str model.service)
    ∷ ("start_at", datetime model.start_at)
    ∷ ("status", str (booking_status_text model.status))
    ∷ ("external_booking_id", opt_str model.external_booking_id)
    ∷ ("created_at", datetime (aware model.created_at))
    ∷ ("updated_at", datetime (aware model.updated_at))
    ∷ [])
