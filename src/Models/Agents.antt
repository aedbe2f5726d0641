-- ===== src/Models/Agents.antt =====
-- Rows of models.py (apps/api/src/voiceagent_api/models.py): agents.
use real_voice_agent_free.Prelude.{String, Bool, Option, DateTime, Stamp, BusinessHours}
use real_voice_agent_free.Json.{Json}

pub data AgentStatus : Type 0 where
  draft published : AgentStatus

pub data BookingStatus : Type 0 where
  confirmed cancelled rescheduled : BookingStatus

-- the table `agents`
pub record AgentModel : Type 0 where
  pub id : String
  pub organization_id : String
  pub name : String
  pub template_id : String
  pub timezone : String
  pub default_language : String
  pub business_hours : BusinessHours
  pub status : AgentStatus
  pub published_version_id : Option String
  pub created_at : DateTime
  pub updated_at : DateTime

-- the table `agent_versions`
pub record AgentVersionModel : Type 0 where
  pub version_id : String
  pub agent_id : String
  pub target_environment : String
  pub snapshot : Json
  pub created_at : DateTime

-- the table `templates`
pub record TemplateModel : Type 0 where
  pub id : String
  pub name : String
  pub description : Option String
  pub default_language : String
  pub timezone : String
  pub business_hours : BusinessHours
  pub definition : Json
  pub is_active : Bool
  pub created_at : DateTime
  pub updated_at : DateTime

-- the table `bookings`
pub record BookingModel : Type 0 where
  pub id : String
  pub organization_id : String
  pub agent_id : String
  pub contact_name : String
  pub contact_phone : String
  pub service : String
  pub start_at : Stamp
  pub status : BookingStatus
  pub external_booking_id : Option String
  pub created_at : DateTime
  pub updated_at : DateTime
