-- ===== src/Billing.antt =====
-- Billing (apps/api/src/voiceagent_api/store.py): the methods that list plans, subscriptions and
-- licenses.
use real_voice_agent_free.Prelude.{String, ◌==◌, List, map}
use real_voice_agent_free.Json.{Json}
use real_voice_agent_free.Env.{Env, whole}
use real_voice_agent_free.Models.{PlanModel, SubscriptionModel, LicenseModel}
use real_voice_agent_free.Db.{plans, subscriptions, licenses}
use real_voice_agent_free.Serialize.{serialize_plan, serialize_subscription, serialize_license}
use real_voice_agent_free.Session.{M, pure, ◌>>=◌, select, session}

unfoldable pub list_plans : Env → M (List Json)
list_plans env = session (do
  found ← select plans (λ p. p.is_active)
  pure (map serialize_plan (env.order_by_text whole PlanModel (λ p. p.code) found)))

unfoldable pub list_subscriptions : Env → String → M (List Json)
list_subscriptions env organization_id = session (do
  found ← select subscriptions (λ s. s.organization_id == organization_id)
  pure (
      map serialize_subscription
        (env.order_desc whole SubscriptionModel (λ s. s.updated_at) found)))

unfoldable pub list_licenses : Env → String → M (List Json)
list_licenses env organization_id = session (do
  found ← select licenses (λ l. l.organization_id == organization_id)
  pure (map serialize_license (env.order_desc whole LicenseModel (λ l. l.updated_at) found)))
