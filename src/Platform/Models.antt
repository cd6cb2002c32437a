-- ===== src/Platform/Models.antt =====
-- platform/models.py: the rows of the platform tables.
use editingtab_platform_core.Shared.{ℕ, Bool, Option, List, String}
use editingtab_platform_core.Authorization.Models.{Permissions}

pub record PlatformAdminGrant : Type 0 where
  pub id : ℕ
  pub user_id : ℕ
  pub revoked_at : Option ℕ

pub record BootstrapState : Type 0 where
  pub id : ℕ
  pub completed_at : Option ℕ

pub record ModuleEntitlement : Type 0 where
  pub organization_id : ℕ
  pub module_code : String
  pub enabled : Bool

-- The values of an audit row's JSON objects.
pub data AuditValue : Type 0 where
  text : String → AuditValue
  texts : List String → AuditValue
  uuid : ℕ → AuditValue
  flag : Bool → AuditValue
  permissions : Permissions → AuditValue

pub record PlatformAudit : Type 0 where
  pub organization_id : Option ℕ
  pub actor_id : Option ℕ
  pub actor_kind : String
  pub action : String
  pub target_id : ℕ
  pub before : List (String × AuditValue)
  pub after : List (String × AuditValue)
