-- ===== src/Models/Calls.antt =====
-- Rows of models.py (apps/api/src/voiceagent_api/models.py): calls.
use real_voice_agent_free.Prelude.{ℕ, String, Bool, Option, List, DateTime}
use real_voice_agent_free.Json.{Json}

pub data CallStatus : Type 0 where
  active completed failed escalated : CallStatus

pub data CallOutcome : Type 0 where
  faq_resolved booking_created escalated lead_captured abandoned failed : CallOutcome

-- the table `calls`
pub record CallModel : Type 0 where
  pub id : String
  pub organization_id : String
  pub agent_id : String
  pub phone_number_id : Option String
  pub channel : String
  pub direction : String
  pub from_number : String
  pub to_number : String
  pub status : CallStatus
  pub outcome : Option CallOutcome
  pub duration_ms : Option ℕ
  pub recording_available : Bool
  pub started_at : DateTime
  pub ended_at : Option DateTime
  pub created_at : DateTime
  pub updated_at : DateTime

-- the table `call_turns`
pub record CallTurnModel : Type 0 where
  pub id : String
  pub call_id : String
  pub turn_index : ℕ
  pub user_text : String
  pub assistant_text : String
  pub latency_ms : ℕ
  pub provider_breakdown : Json
  pub tool_calls : List Json
  pub response_audio_ref : Option String
  pub finish_reason : Option String
  pub created_at : DateTime

-- the table `call_summaries`
pub record CallSummaryModel : Type 0 where
  pub call_id : String
  pub summary_text : String
  pub structured_summary : Json
  pub created_at : DateTime
  pub updated_at : DateTime
