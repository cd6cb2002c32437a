-- ===== src/Authorization/Services/Api.antt =====
-- authorization/services.py: the public operations, each its body in a transaction.
use editingtab_platform_core.Shared.{ℕ, Bool, List, Option, String, Text}
use editingtab_platform_core.Authorization.Models.{PermissionDefinition}
use editingtab_platform_core.Authorization.Guards.{PermissionInput, check_page}
use editingtab_platform_core.Authorization.Views.{RoleInfo, RoleDetail, MemberInfo}
use editingtab_platform_core.Authorization.Services.Transaction.{transaction}
use editingtab_platform_core.Authorization.Services.Reads.{
  OrganizationInfo, MemberAccess, list_organizations_body, read_organization_body,
  list_members_body, read_member_body, member_access_body, list_roles_body, read_role_body,
  list_archived_roles_body, list_permission_catalog_body,
}
use editingtab_platform_core.Authorization.Services.Roles.{
  create_role_body, update_role_body, update_role_metadata_body, change_role_permission_body,
}
use editingtab_platform_core.Authorization.Services.Assignments.{
  archive_role_body, restore_role_body, change_assignment_body,
}
use editingtab_platform_core.Authorization.Services.Members.{
  add_member_body, restore_member_body, archive_member_body,
}
use editingtab_platform_core.Storage.Tables.{Session, Env}
use editingtab_platform_core.Storage.Exec.{Exec, reads, ◌>>◌}

unfoldable pub list_organizations : ℕ → ℕ → ℕ → Exec Session (List OrganizationInfo)
list_organizations actor_id limit offset =
    reads (λ _. check_page limit offset)
    >> transaction (reads (list_organizations_body actor_id limit offset))

unfoldable pub read_organization : ℕ → ℕ → Exec Session OrganizationInfo
read_organization organization_id actor_id =
    transaction (reads (read_organization_body organization_id actor_id))

unfoldable pub list_members : ℕ → ℕ → ℕ → ℕ → Exec Session (List MemberInfo)
list_members organization_id actor_id limit offset =
    reads (λ _. check_page limit offset)
    >> transaction (reads (list_members_body organization_id actor_id limit offset))

unfoldable pub read_member : ℕ → ℕ → ℕ → Exec Session MemberInfo
read_member organization_id actor_id membership_id =
    transaction (reads (read_member_body organization_id actor_id membership_id))

unfoldable pub member_access : ℕ → ℕ → ℕ → Exec Session MemberAccess
member_access organization_id actor_id membership_id =
    transaction (reads (member_access_body organization_id actor_id membership_id))

unfoldable pub list_roles : ℕ → ℕ → ℕ → ℕ → Exec Session (List RoleInfo)
list_roles organization_id actor_id limit offset =
    reads (λ _. check_page limit offset)
    >> transaction (reads (list_roles_body organization_id actor_id limit offset))

unfoldable pub read_role : ℕ → ℕ → ℕ → Exec Session RoleDetail
read_role organization_id actor_id role_id =
    transaction (reads (read_role_body organization_id actor_id role_id))

unfoldable pub list_archived_roles : ℕ → ℕ → ℕ → ℕ → Exec Session (List RoleDetail)
list_archived_roles organization_id actor_id limit offset =
    reads (λ _. check_page limit offset)
    >> transaction (reads (list_archived_roles_body organization_id actor_id limit offset))

unfoldable pub list_permission_catalog : ℕ → ℕ → Exec Session (List PermissionDefinition)
list_permission_catalog organization_id actor_id =
    transaction (reads (list_permission_catalog_body organization_id actor_id))

unfoldable pub create_role :
    Env → ℕ → ℕ → Text → Option PermissionInput → Option (List String) → Exec Session RoleInfo
create_role env organization_id actor_id name permissions codes =
    transaction (create_role_body env organization_id actor_id name permissions codes)

unfoldable pub update_role :
    Env → ℕ → ℕ → ℕ → Text → Option PermissionInput → Option (List String) → Exec Session RoleInfo
update_role env organization_id actor_id role_id name permissions codes =
    transaction (update_role_body env organization_id actor_id role_id name permissions codes)

unfoldable pub update_role_metadata : Env → ℕ → ℕ → ℕ → Text → Exec Session RoleDetail
update_role_metadata env organization_id actor_id role_id name =
    transaction (update_role_metadata_body env organization_id actor_id role_id name)

unfoldable pub change_role_permission :
    Env → ℕ → ℕ → ℕ → String → Bool → Bool → Exec Session RoleDetail
change_role_permission env organization_id actor_id role_id code can_grant remove =
    transaction
      (change_role_permission_body env organization_id actor_id role_id code can_grant remove)

unfoldable pub archive_role : Env → ℕ → ℕ → ℕ → Exec Session (Unit {0})
archive_role env organization_id actor_id role_id =
    transaction (archive_role_body env organization_id actor_id role_id)

unfoldable pub restore_role : Env → ℕ → ℕ → ℕ → Exec Session RoleDetail
restore_role env organization_id actor_id role_id =
    transaction (restore_role_body env organization_id actor_id role_id)

unfoldable pub change_assignment : ℕ → ℕ → ℕ → ℕ → Bool → Exec Session (Unit {0})
change_assignment organization_id actor_id membership_id role_id remove =
    transaction (change_assignment_body organization_id actor_id membership_id role_id remove)

unfoldable pub add_member : Env → ℕ → ℕ → ℕ → List ℕ → Exec Session MemberInfo
add_member env organization_id actor_id user_id role_ids =
    transaction (add_member_body env organization_id actor_id user_id role_ids)

unfoldable pub restore_member : Env → ℕ → ℕ → ℕ → List ℕ → Exec Session MemberInfo
restore_member env organization_id actor_id membership_id role_ids =
    transaction (restore_member_body env organization_id actor_id membership_id role_ids)

unfoldable pub archive_member : Env → ℕ → ℕ → ℕ → Exec Session (Unit {0})
archive_member env organization_id actor_id membership_id =
    transaction (archive_member_body env organization_id actor_id membership_id)
