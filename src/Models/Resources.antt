-- ===== src/Models/Resources.antt =====
-- Rows of models.py (apps/api/src/voiceagent_api/models.py): resources.
use real_voice_agent_free.Prelude.{String, Bool, Option, DateTime}
use real_voice_agent_free.Json.{Json}

pub data PhoneStatus : Type 0 where
  active inactive : PhoneStatus

-- the table `phone_numbers`
pub record PhoneNumberModel : Type 0 where
  pub id : String
  pub organization_id : String
  pub provider : String
  pub number : String
  pub label : Option String
  pub status : PhoneStatus
  pub capabilities : Json
  pub created_at : DateTime
  pub updated_at : DateTime

-- the table `integrations`
pub record IntegrationModel : Type 0 where
  pub id : String
  pub organization_id : String
  pub provider : String
  pub status : String
  pub config : Json
  pub last_tested_at : Option DateTime
  pub created_at : DateTime
  pub updated_at : DateTime

-- the table `knowledge_bases`
pub record KnowledgeBaseModel : Type 0 where
  pub id : String
  pub organization_id : String
  pub name : String
  pub description : Option String
  pub is_active : Bool
  pub created_at : DateTime
  pub updated_at : DateTime

-- the table `knowledge_base_documents`
pub record KnowledgeBaseDocumentModel : Type 0 where
  pub id : String
  pub knowledge_base_id : String
  pub title : String
  pub content : String
  pub source_url : Option String
  pub created_at : DateTime
  pub updated_at : DateTime
