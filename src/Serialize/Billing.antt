-- ===== src/Serialize/Billing.antt =====
-- The dictionaries that the functions `_serialize_*` of store.py build: billing.
use real_voice_agent_free.Prelude.{aware, [], ◌∷◌}
use real_voice_agent_free.Json.{bool, num, str, datetime, dict, Json}
use real_voice_agent_free.Models.{LicenseModel, PlanModel, SubscriptionModel}
use real_voice_agent_free.Serialize.Values.{opt_str, opt_num, opt_datetime}

unfoldable pub serialize_plan : PlanModel → Json
serialize_plan model = dict (
    ("code", str model.code)
    ∷ ("name", str model.name)
    ∷ ("price_monthly_usd", num model.price_monthly_usd)
    ∷ ("is_active", bool model.is_active)
    ∷ ("created_at", datetime (aware model.created_at))
    ∷ ("updated_at", datetime (aware model.updated_at))
    ∷ [])

unfoldable pub serialize_subscription : SubscriptionModel → Json
serialize_subscription model = dict (
    ("id", str model.id)
    ∷ ("organization_id", str model.organization_id)
    ∷ ("plan_code", opt_str model.plan_code)
    ∷ ("status", str model.status)
    ∷ ("status_formatted", opt_str model.status_formatted)
    ∷ ("customer_email", opt_str model.customer_email)
    ∷ ("customer_name", opt_str model.customer_name)
    ∷ ("product_id", opt_num model.product_id)
    ∷ ("variant_id", opt_num model.variant_id)
    ∷ ("order_id", opt_num model.order_id)
    ∷ ("store_id", opt_num model.store_id)
    ∷ ("test_mode", bool model.test_mode)
    ∷ ("renews_at", opt_datetime model.renews_at)
    ∷ ("ends_at", opt_datetime model.ends_at)
    ∷ ("created_at", datetime (aware model.created_at))
    ∷ ("updated_at", datetime (aware model.updated_at))
    ∷ [])

unfoldable pub serialize_license : LicenseModel → Json
serialize_license model = dict (
    ("id", str model.id)
    ∷ ("organization_id", str model.organization_id)
    ∷ ("subscription_id", opt_str model.subscription_id)
    ∷ ("order_id", opt_num model.order_id)
    ∷ ("order_item_id", opt_num model.order_item_id)
    ∷ ("product_id", opt_num model.product_id)
    ∷ ("variant_id", opt_num model.variant_id)
    ∷ ("customer_email", opt_str model.customer_email)
    ∷ ("customer_name", opt_str model.customer_name)
    ∷ ("key_short", opt_str model.key_short)
    ∷ ("status", str model.status)
    ∷ ("activation_limit", opt_num model.activation_limit)
    ∷ ("activation_usage", opt_num model.activation_usage)
    ∷ ("expires_at", opt_datetime model.expires_at)
    ∷ ("created_at", datetime (aware model.created_at))
    ∷ ("updated_at", datetime (aware model.updated_at))
    ∷ [])
