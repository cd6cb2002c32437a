-- ===== src/Authorization/Models.antt =====
-- authorization/models.py: the rows of the authorization tables.
use editingtab_platform_core.Shared.{ℕ, Bool, Option, List, String, Text}

pub record PermissionDefinition : Type 0 where
  pub code : String
  pub module_name : String
  pub description : String
  pub organization_assignable : Bool
  pub lifecycle : String

pub record Role : Type 0 where
  pub id : ℕ
  pub organization_id : ℕ
  pub provisioning_kind : Option String
  pub name : Text
  pub normalized_name : Text
  pub created_at : ℕ
  pub updated_at : ℕ
  pub deleted_at : Option ℕ

pub record RolePermission : Type 0 where
  pub organization_id : ℕ
  pub role_id : ℕ
  pub code : String
  pub can_grant : Bool

pub record MembershipRole : Type 0 where
  pub organization_id : ℕ
  pub membership_id : ℕ
  pub role_id : ℕ

-- A role's permissions as the services pass them: a dict from codes to `can_grant`.
abbrev pub Permissions : Type 0
Permissions = List (String × Bool)

pub record RoleAudit : Type 0 where
  pub organization_id : ℕ
  pub actor_id : ℕ
  pub action : String
  pub target_id : ℕ
  pub membership_id : Option ℕ
  pub permissions_before : Permissions
  pub permissions_after : Permissions
