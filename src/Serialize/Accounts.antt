-- ===== src/Serialize/Accounts.antt =====
-- The dictionaries that the functions `_serialize_*` of store.py build: accounts.
use real_voice_agent_free.Prelude.{aware, [], ◌∷◌}
use real_voice_agent_free.Json.{bool, str, datetime, dict, Json}
use real_voice_agent_free.Models.{ApiKeyModel, OrganizationModel, PartnerModel}
use real_voice_agent_free.Serialize.Values.{opt_datetime, strings}

unfoldable pub serialize_partner : PartnerModel → Json
serialize_partner model = dict (
    ("id", str model.id)
    ∷ ("organization_id", str model.organization_id)
    ∷ ("name", str model.name)
    ∷ ("is_active", bool model.is_active)
    ∷ ("created_at", datetime (aware model.created_at))
    ∷ ("updated_at", datetime (aware model.updated_at))
    ∷ [])

unfoldable pub serialize_organization : OrganizationModel → Json
serialize_organization model = dict (
    ("id", str model.id)
    ∷ ("name", str model.name)
    ∷ ("slug", str model.slug)
    ∷ ("created_at", datetime (aware model.created_at))
    ∷ ("updated_at", datetime (aware model.updated_at))
    ∷ [])

unfoldable pub serialize_api_key : ApiKeyModel → Json
serialize_api_key model = dict (
    ("id", str model.id)
    ∷ ("organization_id", str model.organization_id)
    ∷ ("name", str model.name)
    ∷ ("scopes", strings model.scopes)
    ∷ ("is_active", bool model.is_active)
    ∷ ("created_at", datetime (aware model.created_at))
    ∷ ("last_used_at", opt_datetime model.last_used_at)
    ∷ [])
