-- ===== src/Storage/Tables.antt =====
-- The tables of the schema, and what a call draws from its environment.
use editingtab_platform_core.Shared.{ℕ, Bool, List, Text}
use editingtab_platform_core.Identity.Models.{Organization, User, Membership}
use editingtab_platform_core.Authorization.Models.{
  PermissionDefinition, Role, RolePermission, MembershipRole, RoleAudit,
}
use editingtab_platform_core.Auth.Models.{
  PasswordCredential, LoginSession, LoginThrottle, OrganizationInvitation, InvitationRole,
  PasswordResetToken, SecurityAudit,
}
use editingtab_platform_core.Platform.Models.{
  PlatformAdminGrant, BootstrapState, ModuleEntitlement, PlatformAudit,
}

pub record Database : Type 0 where
  pub organizations : List Organization
  pub users : List User
  pub memberships : List Membership
  pub permission_definitions : List PermissionDefinition
  pub roles : List Role
  pub role_permissions : List RolePermission
  pub membership_roles : List MembershipRole
  pub role_audit : List RoleAudit
  pub password_credentials : List PasswordCredential
  pub login_sessions : List LoginSession
  pub login_throttles : List LoginThrottle
  pub organization_invitations : List OrganizationInvitation
  pub invitation_roles : List InvitationRole
  pub password_reset_tokens : List PasswordResetToken
  pub security_audit : List SecurityAudit
  pub platform_admin_grants : List PlatformAdminGrant
  pub platform_bootstrap : List BootstrapState
  pub module_entitlements : List ModuleEntitlement
  pub platform_audit : List PlatformAudit

-- `datetime.now(UTC)`, PostgreSQL's `now()` and `clock_timestamp()`, the `uuid4` values in the
-- order in which the call draws them, `secrets.token_urlsafe(32)`, and the salt of a new hash.
pub record Env : Type 0 where
  pub utc_now : ℕ
  pub now : ℕ
  pub clock_timestamp : ℕ
  pub uuid4 : ℕ → ℕ
  pub token_urlsafe : Text
  pub salt : ℕ

-- A SQLAlchemy session: whether a transaction is open on it, and the committed data.
pub record Session : Type 0 where
  pub in_transaction : Bool
  pub database : Database
