-- ===== src/Authorization/Services/Assignments.antt =====
-- authorization/services.py: archiving and restoring roles, and assignments.
use editingtab_platform_core.Shared.{
  ℕ, Bool, true, false, List, [], ◌∷◌, none, some, any, is_none, ◌==◌,
}
use editingtab_platform_core.Errors.{inaccessible}
use editingtab_platform_core.Identity.Models.{User, Membership}
use editingtab_platform_core.Authorization.Models.{Role, MembershipRole, Permissions}
use editingtab_platform_core.Authorization.Policy.{role_archive, role_assign}
use editingtab_platform_core.Authorization.Repository.{
  active_members, effective_grant_authority, role_permission_grants, role_assignments,
  has_assignment, insert_assignment, audit, delete_assignment,
}
use editingtab_platform_core.Authorization.Guards.{
  authorize, find_role, custom_role, grantable, ensure_administrator,
}
use editingtab_platform_core.Authorization.Views.{RoleDetail, role_detail}
use editingtab_platform_core.Authorization.Services.Rows.{write_role}
use editingtab_platform_core.Storage.Tables.{Database, Env}
use editingtab_platform_core.Storage.Exec.{Exec, pure, reads, gets, require, branch, ◌>>=◌, ◌>>◌}

-- The loop of `archive_role` over the role's assignments.
unfoldable pub remove_assignments :
    ℕ → ℕ → ℕ → Permissions → List MembershipRole → Exec Database (Unit {0})
remove_assignments organization_id actor_id role_id before [] = pure tt
remove_assignments organization_id actor_id role_id before (assignment ∷ rest) = do
  delete_assignment assignment
  audit organization_id actor_id "assignment.removed" role_id before []
      (some assignment.membership_id)
  remove_assignments organization_id actor_id role_id before rest

unfoldable pub archive_role_body : Env → ℕ → ℕ → ℕ → Exec Database (Unit {0})
unfolding write_role
archive_role_body env organization_id actor_id role_id = do
  reads (λ db. authorize db organization_id actor_id role_archive)
  grant_authority ← gets (λ db. effective_grant_authority db organization_id actor_id)
  found ← reads (λ db. find_role db organization_id role_id false)
  role ← reads (λ _. custom_role found)
  before ← gets (λ db. role_permission_grants db organization_id role_id)
  reads (λ _. grantable grant_authority before)
  assignments ← gets (λ db. role_assignments db organization_id role_id)
  remove_assignments organization_id actor_id role_id before assignments
  write_role role.id (λ r. record r { deleted_at = some env.utc_now })
  reads (λ db. ensure_administrator db organization_id)
  audit organization_id actor_id "role.archived" role_id before [] none

-- The loop of `restore_role` over dormant assignments.
unfoldable pub delete_assignments : List MembershipRole → Exec Database (Unit {0})
delete_assignments [] = pure tt
delete_assignments (assignment ∷ rest) = do delete_assignment assignment; delete_assignments rest

-- The rest of `restore_role` for a role that is archived.
unfoldable pub revive_role : Env → ℕ → ℕ → Role → Permissions → Exec Database RoleDetail
unfolding write_role
revive_role env organization_id actor_id role permissions = do
  assignments ← gets (λ db. role_assignments db organization_id role.id)
  delete_assignments assignments
  write_role role.id (λ r. record r { deleted_at = none; updated_at = env.utc_now })
  audit organization_id actor_id "role.restored" role.id [] permissions none
  gets (λ db. role_detail db (record role { deleted_at = none }))

unfoldable pub restore_role_body : Env → ℕ → ℕ → ℕ → Exec Database RoleDetail
restore_role_body env organization_id actor_id role_id = do
  reads (λ db. authorize db organization_id actor_id role_archive)
  authority ← gets (λ db. effective_grant_authority db organization_id actor_id)
  found ← reads (λ db. find_role db organization_id role_id true)
  role ← reads (λ _. custom_role found)
  permissions ← gets (λ db. role_permission_grants db organization_id role_id)
  reads (λ _. grantable authority permissions)
  branch (is_none role.deleted_at) (gets (λ db. role_detail db role))
      (revive_role env organization_id actor_id role permissions)

-- The current membership with the given key.
unfoldable pub current_membership : Database → ℕ → ℕ → Bool
current_membership db organization_id membership_id =
    any (λ (row : Membership × User). row.0.id == membership_id) (active_members db organization_id)

unfoldable pub add_assignment : ℕ → ℕ → ℕ → ℕ → Permissions → Exec Database (Unit {0})
add_assignment organization_id actor_id membership_id role_id permissions = do
  insert_assignment (record {
    organization_id = organization_id;
    membership_id = membership_id;
    role_id = role_id;
  })
  reads (λ db. ensure_administrator db organization_id)
  audit organization_id actor_id "assignment.added" role_id [] permissions (some membership_id)

unfoldable pub remove_assignment : ℕ → ℕ → ℕ → ℕ → Permissions → Exec Database (Unit {0})
remove_assignment organization_id actor_id membership_id role_id permissions = do
  delete_assignment (record {
    organization_id = organization_id;
    membership_id = membership_id;
    role_id = role_id;
  })
  reads (λ db. ensure_administrator db organization_id)
  audit organization_id actor_id "assignment.removed" role_id permissions [] (some membership_id)

unfoldable pub change_assignment_body : ℕ → ℕ → ℕ → ℕ → Bool → Exec Database (Unit {0})
change_assignment_body organization_id actor_id membership_id role_id remove = do
  reads (λ db. authorize db organization_id actor_id role_assign)
  grant_authority ← gets (λ db. effective_grant_authority db organization_id actor_id)
  reads (λ db. find_role db organization_id role_id remove)
  db ← gets (λ db. db)
  require (current_membership db organization_id membership_id) inaccessible
  permissions ← gets (λ db. role_permission_grants db organization_id role_id)
  reads (λ _. grantable grant_authority permissions)
  let assigned = has_assignment db organization_id membership_id role_id
  branch remove
      (require assigned inaccessible
        >> remove_assignment organization_id actor_id membership_id role_id permissions)
      (branch assigned (pure tt)
        (add_assignment organization_id actor_id membership_id role_id permissions))
