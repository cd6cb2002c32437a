-- ===== src/Authorization/Views.antt =====
-- authorization/services.py: what the operations return.
use editingtab_platform_core.Shared.{ℕ, Bool, List, map, Text, is_some}
use editingtab_platform_core.Identity.Models.{User, Membership}
use editingtab_platform_core.Authorization.Models.{Role, Permissions}
use editingtab_platform_core.Authorization.Repository.{
  role_permission_grants, permission_state, membership_roles,
}
use editingtab_platform_core.Authorization.Guards.{system_managed}
use editingtab_platform_core.Storage.Tables.{Database}

pub record RoleInfo : Type 0 where
  pub id : ℕ
  pub name : Text
  pub permissions : Permissions

unfoldable pub role_info : Database → Role → RoleInfo
role_info db role = record {
  id = role.id;
  name = role.name;
  permissions = permission_state (role_permission_grants db role.organization_id role.id);
}

-- `archived` is the state "archived", its absence the state "active".
pub record RoleDetail : Type 0 where
  pub info : RoleInfo
  pub archived : Bool
  pub is_system_managed : Bool

unfoldable pub role_detail : Database → Role → RoleDetail
role_detail db role = record {
  info = role_info db role;
  archived = is_some role.deleted_at;
  is_system_managed = system_managed role;
}

pub record MemberInfo : Type 0 where
  pub membership_id : ℕ
  pub user_id : ℕ
  pub display_name : Text
  pub email : Text
  pub archived : Bool
  pub roles : List RoleInfo

unfoldable pub member_info : Database → Membership → User → MemberInfo
member_info db membership user = record {
  membership_id = membership.id;
  user_id = user.id;
  display_name = user.display_name;
  email = user.email;
  archived = is_some membership.deleted_at;
  roles = map (role_info db) (membership_roles db membership.organization_id membership.id);
}
