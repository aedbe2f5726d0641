-- ===== src/Models/Webhooks.antt =====
-- Rows of models.py (apps/api/src/voiceagent_api/models.py): webhooks.
use real_voice_agent_free.Prelude.{ℕ, String, Bool, Option, List, DateTime}
use real_voice_agent_free.Json.{Json}

pub data DeliveryStatus : Type 0 where
  pending delivered retry_scheduled failed : DeliveryStatus

-- the table `events`
pub record EventModel : Type 0 where
  pub event_id : String
  pub event_type : String
  pub event_version : String
  pub occurred_at : DateTime
  pub trace_id : String
  pub tenant_id : String
  pub source : String
  pub payload : Json

-- the table `webhook_subscriptions`
pub record WebhookSubscriptionModel : Type 0 where
  pub id : String
  pub organization_id : String
  pub target_url : String
  pub event_types : List String
  pub secret : String
  pub is_active : Bool
  pub created_at : DateTime
  pub updated_at : DateTime

-- the table `webhook_deliveries`
pub record WebhookDeliveryModel : Type 0 where
  pub id : String
  pub webhook_id : String
  pub event_id : String
  pub event_type : String
  pub status : DeliveryStatus
  pub attempt_count : ℕ
  pub response_code : Option ℕ
  pub response_body : Option String
  pub last_attempt_at : Option DateTime
  pub next_attempt_at : Option DateTime
  pub last_error : Option String
  pub delivered_at : Option DateTime
  pub created_at : DateTime
