-- ===== src/Models/Accounts.antt =====
-- Rows of models.py (apps/api/src/voiceagent_api/models.py): accounts.
use real_voice_agent_free.Prelude.{ℕ, String, Bool, Option, List, DateTime, Stamp}

-- the table `organizations`
pub record OrganizationModel : Type 0 where
  pub id : String
  pub name : String
  pub slug : String
  pub created_at : DateTime
  pub updated_at : DateTime

-- the table `api_keys`
pub record ApiKeyModel : Type 0 where
  pub id : String
  pub organization_id : String
  pub name : String
  pub key_hash : String
  pub scopes : List String
  pub is_active : Bool
  pub created_at : DateTime
  pub last_used_at : Option DateTime

-- the table `partners`
pub record PartnerModel : Type 0 where
  pub id : String
  pub organization_id : String
  pub name : String
  pub is_active : Bool
  pub created_at : DateTime
  pub updated_at : DateTime

-- the table `partner_accounts`
pub record PartnerAccountModel : Type 0 where
  pub id : String
  pub partner_id : String
  pub organization_id : String
  pub created_at : DateTime

-- the table `idempotency_keys`
pub record IdempotencyKeyModel : Type 0 where
  pub id : String
  pub organization_id : String
  pub key : String
  pub method : String
  pub path : String
  pub request_hash : String
  pub response_code : ℕ
  pub response_body : String
  pub created_at : Stamp
