-- ===== src/Models/Billing.antt =====
-- Rows of models.py (apps/api/src/voiceagent_api/models.py): billing.
use real_voice_agent_free.Prelude.{ℕ, String, Bool, Option, DateTime}
use real_voice_agent_free.Json.{Json}

-- the table `plans`
pub record PlanModel : Type 0 where
  pub code : String
  pub name : String
  pub price_monthly_usd : ℕ
  pub is_active : Bool
  pub created_at : DateTime
  pub updated_at : DateTime

-- the table `subscriptions`
pub record SubscriptionModel : Type 0 where
  pub id : String
  pub organization_id : String
  pub plan_code : Option String
  pub status : String
  pub status_formatted : Option String
  pub customer_email : Option String
  pub customer_name : Option String
  pub product_id : Option ℕ
  pub variant_id : Option ℕ
  pub order_id : Option ℕ
  pub store_id : Option ℕ
  pub test_mode : Bool
  pub renews_at : Option DateTime
  pub ends_at : Option DateTime
  pub raw_attributes : Json
  pub created_at : DateTime
  pub updated_at : DateTime

-- the table `licenses`
pub record LicenseModel : Type 0 where
  pub id : String
  pub organization_id : String
  pub subscription_id : Option String
  pub order_id : Option ℕ
  pub order_item_id : Option ℕ
  pub product_id : Option ℕ
  pub variant_id : Option ℕ
  pub customer_email : Option String
  pub customer_name : Option String
  pub key_short : Option String
  pub status : String
  pub activation_limit : Option ℕ
  pub activation_usage : Option ℕ
  pub expires_at : Option DateTime
  pub raw_attributes : Json
  pub created_at : DateTime
  pub updated_at : DateTime

-- the table `billing_webhook_events`
pub record BillingWebhookEventModel : Type 0 where
  pub id : String
  pub organization_id : String
  pub provider : String
  pub event_name : String
  pub resource_type : Option String
  pub resource_id : Option String
  pub signature_verified : Bool
  pub payload : Json
  pub received_at : DateTime
