-- ===== src/Authorization/Services/Members.antt =====
-- authorization/services.py: the operations that add, restore and archive members.
use editingtab_platform_core.Shared.{
  ℕ, List, [], ◌∷◌, Option, none, some, String, ◌&&◌, first, where_, update_where, is_none, is_some,
  ◌==◌,
}
use editingtab_platform_core.Errors.{access_error, inaccessible}
use editingtab_platform_core.Outcome.{Outcome, ok, err, or_raise}
use editingtab_platform_core.Identity.Models.{User, Membership}
use editingtab_platform_core.Identity.Repository.{
  create_membership, membership_pair_including_archived,
}
use editingtab_platform_core.Authorization.Models.{Role, MembershipRole}
use editingtab_platform_core.Authorization.Policy.{member_manage, role_assign}
use editingtab_platform_core.Authorization.Repository.{
  members, effective_grant_authority, role_permission_grants, has_assignment, insert_assignment,
  audit, member_audit, delete_assignment,
}
use editingtab_platform_core.Authorization.Guards.{
  authorize, grantable, initial_roles, ensure_administrator,
}
use editingtab_platform_core.Authorization.Views.{MemberInfo, member_info}
use editingtab_platform_core.Storage.Tables.{Database, Env}
use editingtab_platform_core.Storage.Exec.{
  Exec, pure, raise, reads, gets, modify, branch, ◌>>=◌, ◌>>◌,
}

-- The assignments of a membership, archived or not.
unfoldable pub membership_assignments : Database → ℕ → ℕ → List MembershipRole
membership_assignments db organization_id membership_id =
    where_
      (λ (a : MembershipRole).
        a.organization_id == organization_id && a.membership_id == membership_id)
      db.membership_roles

-- A write to the membership with the given key.
unfoldable pub write_membership : ℕ → (Membership → Membership) → Exec Database (Unit {0})
write_membership membership_id f = modify (λ db. record db {
  memberships = update_where (λ (m : Membership). m.id == membership_id) f db.memberships;
})

-- Assignments that an archived membership still has are never revived.
unfoldable pub before_membership_restore : ℕ → ℕ → Database → Outcome (Unit {0})
unfolding membership_assignments
before_membership_restore organization_id membership_id db =
    elim (membership_assignments db organization_id membership_id) [
      | [] ↦ ok tt
      | _ ∷ _ ↦ err access_error
    ]

-- The loop of `before_membership_archive`.
unfoldable pub strip_assignments :
    ℕ → ℕ → ℕ → List String → List MembershipRole → Exec Database (Unit {0})
strip_assignments organization_id actor_id membership_id grant_authority [] = pure tt
strip_assignments organization_id actor_id membership_id grant_authority (assignment ∷ rest) = do
  permissions ← gets (λ db. role_permission_grants db organization_id assignment.role_id)
  reads (λ _. grantable grant_authority permissions)
  delete_assignment assignment
  audit organization_id actor_id "assignment.removed" assignment.role_id permissions []
      (some membership_id)
  strip_assignments organization_id actor_id membership_id grant_authority rest

-- What is left to do for a membership that has assignments, by an explicit actor.
unfoldable pub strip_membership : ℕ → ℕ → ℕ → List MembershipRole → Exec Database (Unit {0})
unfolding strip_assignments
strip_membership organization_id actor_id membership_id assignments = do
  reads (λ db. authorize db organization_id actor_id role_assign)
  grant_authority ← gets (λ db. effective_grant_authority db organization_id actor_id)
  strip_assignments organization_id actor_id membership_id grant_authority assignments
  reads (λ db. ensure_administrator db organization_id)

unfoldable pub strip_if_any : ℕ → ℕ → Option ℕ → List MembershipRole → Exec Database (Unit {0})
strip_if_any organization_id membership_id actor_id [] = pure tt
strip_if_any organization_id membership_id none (a ∷ rest) = raise access_error
strip_if_any organization_id membership_id (some actor_id) (a ∷ rest) =
    strip_membership organization_id actor_id membership_id (a ∷ rest)

-- The hook of `archive_membership` and `archive_member`.
unfoldable pub before_membership_archive : ℕ → ℕ → Option ℕ → Exec Database (Unit {0})
unfolding strip_if_any strip_membership membership_assignments
before_membership_archive organization_id membership_id actor_id = do
  assignments ← gets (λ db. membership_assignments db organization_id membership_id)
  strip_if_any organization_id membership_id actor_id assignments

-- The membership that is active afterwards: a new one, a restored one, or the one given.
unfoldable pub activate_membership :
    Env → ℕ → ℕ → Option Membership → User → Exec Database Membership
unfolding before_membership_restore write_membership
activate_membership env organization_id actor_id none user = do
  membership ← create_membership env (env.uuid4 0) organization_id user.id
  member_audit organization_id actor_id "member.added" membership.id user.id
  pure membership
activate_membership env organization_id actor_id (some membership) user =
    branch (is_some membership.deleted_at)
      (do
        reads (before_membership_restore organization_id membership.id)
        write_membership membership.id
            (λ m. record m { deleted_at = none; updated_at = env.utc_now })
        member_audit organization_id actor_id "member.restored" membership.id user.id
        pure (record membership { deleted_at = none; updated_at = env.utc_now }))
      (pure membership)

-- The loop of `_activate_member` over the requested roles.
unfoldable pub assign_roles : ℕ → ℕ → ℕ → List Role → Exec Database (Unit {0})
assign_roles organization_id actor_id membership_id [] = pure tt
assign_roles organization_id actor_id membership_id (role ∷ rest) = do
  db ← gets (λ db. db)
  let skip : Exec Database (Unit {0}) = pure tt
  let assign : Exec Database (Unit {0}) = do
    insert_assignment (record {
      organization_id = organization_id;
      membership_id = membership_id;
      role_id = role.id;
    })
    permissions ← gets (λ db'. role_permission_grants db' organization_id role.id)
    audit organization_id actor_id "assignment.added" role.id [] permissions (some membership_id)
  branch (has_assignment db organization_id membership_id role.id) skip assign
  assign_roles organization_id actor_id membership_id rest

unfoldable pub activate_member :
    Env → ℕ → ℕ → Option Membership → User → List Role → Exec Database MemberInfo
unfolding activate_membership assign_roles
activate_member env organization_id actor_id membership user roles = do
  active ← activate_membership env organization_id actor_id membership user
  assign_roles organization_id actor_id active.id roles
  gets (λ db. member_info db active user)

-- The user with the given key, if current and active.
unfoldable pub find_active_user : Database → ℕ → Option User
find_active_user db user_id =
    first (λ (u : User). u.id == user_id && (is_none u.deleted_at && u.is_active)) db.users

unfoldable pub add_member_body : Env → ℕ → ℕ → ℕ → List ℕ → Exec Database MemberInfo
unfolding find_active_user activate_member
add_member_body env organization_id actor_id user_id role_ids = do
  reads (λ db. authorize db organization_id actor_id member_manage)
  user ← reads (λ db. or_raise (find_active_user db user_id) inaccessible)
  roles ← reads (λ db. initial_roles db organization_id actor_id role_ids)
  membership ← gets (λ db. membership_pair_including_archived db organization_id user_id)
  activate_member env organization_id actor_id membership user roles

-- The member row with the given membership key, and an active user where that is asked.
unfoldable pub find_member : Database → ℕ → ℕ → Option (Membership × User)
find_member db organization_id membership_id =
    first (λ (row : Membership × User). row.0.id == membership_id) (members db organization_id)

unfoldable pub restore_member_body : Env → ℕ → ℕ → ℕ → List ℕ → Exec Database MemberInfo
unfolding activate_member
restore_member_body env organization_id actor_id membership_id role_ids = do
  reads (λ db. authorize db organization_id actor_id member_manage)
  row ← reads (λ db.
      or_raise
        (first (λ (row : Membership × User). row.0.id == membership_id && row.1.is_active)
          (members db organization_id))
        inaccessible)
  roles ← reads (λ db. initial_roles db organization_id actor_id role_ids)
  activate_member env organization_id actor_id (some row.0) row.1 roles

-- The rest of `archive_member` for a membership that is current.
unfoldable pub archive_current_member : Env → ℕ → ℕ → Membership → User → Exec Database (Unit {0})
unfolding before_membership_archive write_membership
archive_current_member env organization_id actor_id membership user = do
  before_membership_archive organization_id membership.id (some actor_id)
  write_membership membership.id
      (λ m. record m { deleted_at = some env.utc_now; updated_at = env.utc_now })
  member_audit organization_id actor_id "member.archived" membership.id user.id

unfoldable pub archive_member_body : Env → ℕ → ℕ → ℕ → Exec Database (Unit {0})
unfolding find_member archive_current_member
archive_member_body env organization_id actor_id membership_id = do
  reads (λ db. authorize db organization_id actor_id member_manage)
  row ← reads (λ db. or_raise (find_member db organization_id membership_id) inaccessible)
  branch (is_some row.0.deleted_at) (pure tt)
      (archive_current_member env organization_id actor_id row.0 row.1)
