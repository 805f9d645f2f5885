-- ===== src/Model/Users.antt =====
-- internal/model/user.go and audit_log.go, and the rows of `pin_attempts`.
use weave_server.Prelude.{ℕ, String, Option, Bool}
use weave_server.Model.Wallets.{Uuid}

pub data KycLevel : Type 0 where
  basic verified enhanced : KycLevel

pub record User : Type 0 where
  pub id : Uuid
  pub phone : String
  pub email : String
  pub full_name : String
  pub bvn_hash : String
  pub nin_hash : String
  pub kyc_level : KycLevel
  pub pin_hash : String
  pub biometric_enabled : Bool
  pub biometric_public_key : String
  pub created_at : ℕ
  pub updated_at : ℕ

pub record CreateUserInput : Type 0 where
  pub phone : String
  pub full_name : String
  -- the hash of the PIN
  pub pin : String

pub record UserSession : Type 0 where
  pub user_id : Uuid
  pub access_token : String
  pub refresh_token : String
  pub expires_at : ℕ

pub record PinAttempt : Type 0 where
  pub user_id : Uuid
  pub success : Bool
  pub ip_address : String
  pub created_at : ℕ

-- The metadata of an entry, a JSON object for the operators, is left out.
pub record AuditLog : Type 0 where
  pub user_id : Option Uuid
  pub action : String
  pub status : String
  pub created_at : ℕ
