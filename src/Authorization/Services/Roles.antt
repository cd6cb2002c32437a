-- ===== src/Authorization/Services/Roles.antt =====
-- authorization/services.py: the operations that change roles and assignments.
use editingtab_platform_core.Shared.{
  ℕ, Bool, false, List, [], ◌∷◌, Option, none, some, String, Text, contains, same_set, is_none,
}
use editingtab_platform_core.Errors.{access_error, invalid_permission}
use editingtab_platform_core.Authorization.Models.{Role, Permissions}
use editingtab_platform_core.Authorization.Policy.{role_create, role_update, role_name}
use editingtab_platform_core.Authorization.Repository.{
  assignable_permission_codes, effective_grant_authority, role_permission_grants, insert_role,
  replace_permissions, audit, rename_role,
}
use editingtab_platform_core.Authorization.Guards.{
  PermissionInput, by_codes, authorize, find_role, custom_role, grantable, permissions_of,
  ensure_administrator,
}
use editingtab_platform_core.Authorization.Views.{RoleInfo, RoleDetail, role_info, role_detail}
use editingtab_platform_core.Authorization.Services.Rows.{
  write_role, dict_get, dict_set, dict_del, same_grant,
}
use editingtab_platform_core.Storage.Tables.{Database, Env}
use editingtab_platform_core.Storage.Exec.{Exec, reads, gets, require, branch, ◌>>=◌, ◌>>◌}

-- `permissions if permissions is not None else codes or []`
unfoldable pub requested : Option PermissionInput → Option (List String) → PermissionInput
requested (some permissions) _ = permissions
requested none (some codes) = by_codes codes
requested none none = by_codes []

unfoldable pub create_role_body :
    Env → ℕ → ℕ → Text → Option PermissionInput → Option (List String) → Exec Database RoleInfo
create_role_body env organization_id actor_id name permissions codes = do
  reads (λ db. authorize db organization_id actor_id role_create)
  grant_authority ← gets (λ db. effective_grant_authority db organization_id actor_id)
  selected ← reads (λ db. permissions_of db (requested permissions codes))
  reads (λ _. grantable grant_authority selected)
  names ← reads (λ _. role_name name)
  let role : Role = record {
    id = env.uuid4 0;
    organization_id = organization_id;
    provisioning_kind = none;
    name = names.0;
    normalized_name = names.1;
    created_at = env.now;
    updated_at = env.now;
    deleted_at = none;
  }
  insert_role role
  replace_permissions organization_id role.id selected
  audit organization_id actor_id "role.created" role.id [] selected none
  gets (λ db. role_info db role)

unfoldable pub update_role_body :
    Env → ℕ → ℕ → ℕ → Text → Option PermissionInput → Option (List String) → Exec Database RoleInfo
update_role_body env organization_id actor_id role_id name permissions codes = do
  reads (λ db. authorize db organization_id actor_id role_update)
  grant_authority ← gets (λ db. effective_grant_authority db organization_id actor_id)
  found ← reads (λ db. find_role db organization_id role_id false)
  role ← reads (λ _. custom_role found)
  before ← gets (λ db. role_permission_grants db organization_id role_id)
  after ← reads (λ db. permissions_of db (requested permissions codes))
  reads (λ _. grantable grant_authority before)
  reads (λ _. grantable grant_authority after)
  names ← reads (λ _. role_name name)
  renamed ← rename_role role names.0 names.1 env.utc_now
  replace_permissions organization_id role_id after
  reads (λ db. ensure_administrator db organization_id)
  audit organization_id actor_id "role.updated" role_id before after none
  gets (λ db. role_info db renamed)

unfoldable pub update_role_metadata_body : Env → ℕ → ℕ → ℕ → Text → Exec Database RoleDetail
update_role_metadata_body env organization_id actor_id role_id name = do
  reads (λ db. authorize db organization_id actor_id role_update)
  found ← reads (λ db. find_role db organization_id role_id false)
  role ← reads (λ _. custom_role found)
  authority ← gets (λ db. effective_grant_authority db organization_id actor_id)
  permissions ← gets (λ db. role_permission_grants db organization_id role_id)
  reads (λ _. grantable authority permissions)
  names ← reads (λ _. role_name name)
  renamed ← rename_role role names.0 names.1 env.utc_now
  audit organization_id actor_id "role.metadata.updated" role_id permissions permissions none
  gets (λ db. role_detail db renamed)

-- The write at the end of `change_role_permission`, after the early returns.
unfoldable pub apply_permissions :
    Env → ℕ → ℕ → Role → List String → Permissions → Permissions → String → Exec Database RoleDetail
unfolding write_role
apply_permissions env organization_id actor_id role authority before after action = do
  reads (λ _. grantable authority before)
  reads (λ _. grantable authority after)
  write_role role.id (λ r. record r { updated_at = env.utc_now })
  replace_permissions organization_id role.id after
  reads (λ db. ensure_administrator db organization_id)
  audit organization_id actor_id action role.id before after none
  gets (λ db. role_detail db role)

unfoldable pub change_role_permission_body :
    Env → ℕ → ℕ → ℕ → String → Bool → Bool → Exec Database RoleDetail
change_role_permission_body env organization_id actor_id role_id code can_grant remove = do
  reads (λ db. authorize db organization_id actor_id role_update)
  found ← reads (λ db. find_role db organization_id role_id false)
  role ← reads (λ _. custom_role found)
  authority ← gets (λ db. effective_grant_authority db organization_id actor_id)
  before ← gets (λ db. role_permission_grants db organization_id role_id)
  db ← gets (λ db. db)
  require (same_set (assignable_permission_codes db (code ∷ [])) (code ∷ [])) invalid_permission
  require (contains authority code) access_error
  let unchanged = gets (λ db. role_detail db role)
  let apply = apply_permissions env organization_id actor_id role authority before
  branch remove
      (branch (is_none (dict_get code before)) unchanged
        (apply (dict_del code before) "role.permission.revoked"))
      (branch (same_grant (dict_get code before) can_grant) unchanged
        (apply (dict_set code can_grant before) "role.permission.granted"))
