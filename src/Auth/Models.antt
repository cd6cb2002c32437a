-- ===== src/Auth/Models.antt =====
-- auth/models.py: the rows of the authentication tables.
use editingtab_platform_core.Shared.{ℕ, Option, List, String, Text}

pub record PasswordCredential : Type 0 where
  pub user_id : ℕ
  pub password_hash : Text

pub record LoginSession : Type 0 where
  pub id : ℕ
  pub user_id : ℕ
  pub token_digest : Text
  pub created_at : ℕ
  pub expires_at : ℕ
  pub revoked_at : Option ℕ

pub record LoginThrottle : Type 0 where
  pub key : Text
  pub attempts : ℕ
  pub expires_at : ℕ

pub record OrganizationInvitation : Type 0 where
  pub id : ℕ
  pub organization_id : ℕ
  pub normalized_email : Text
  pub inviter_id : ℕ
  pub token_digest : Text
  pub created_at : ℕ
  pub expires_at : ℕ
  pub accepted_at : Option ℕ
  pub revoked_at : Option ℕ

pub record InvitationRole : Type 0 where
  pub organization_id : ℕ
  pub invitation_id : ℕ
  pub role_id : ℕ

pub record PasswordResetToken : Type 0 where
  pub id : ℕ
  pub user_id : ℕ
  pub token_digest : Text
  pub created_at : ℕ
  pub expires_at : ℕ
  pub consumed_at : Option ℕ
  pub revoked_at : Option ℕ

-- The values of an audit row's JSON object.
pub data AuditValue : Type 0 where
  text : String → AuditValue
  count : ℕ → AuditValue
  uuid : ℕ → AuditValue
  uuids : List ℕ → AuditValue

pub record SecurityAudit : Type 0 where
  pub organization_id : Option ℕ
  pub actor_id : Option ℕ
  pub action : String
  pub target_id : ℕ
  pub details : List (String × AuditValue)
