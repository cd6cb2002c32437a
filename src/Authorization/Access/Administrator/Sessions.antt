-- ===== src/Authorization/Access/Administrator/Sessions.antt =====
-- An organization's administrator under the public operations of authorization/services.py.
use editingtab_platform_core.Shared.{ℕ, Bool, List, Option, String, Text}
use editingtab_platform_core.Authorization.Guards.{PermissionInput}
use editingtab_platform_core.Authorization.Services.Transaction.{transaction}
use editingtab_platform_core.Authorization.Services.Api.{
  update_role, change_role_permission, archive_role, restore_role, change_assignment,
  archive_member,
}
use editingtab_platform_core.Storage.Tables.{Database, Session, Env}
use editingtab_platform_core.Storage.Exec.{Exec}
use editingtab_platform_core.Storage.Ensures.{Ensures, transact-committed}
use editingtab_platform_core.Authorization.Access.Effective.{HasAdministrator}
use editingtab_platform_core.Authorization.Access.Administrator.Roles
use editingtab_platform_core.Authorization.Access.Administrator.Assignments.{KeyedRoles}
use editingtab_platform_core.Authorization.Access.Administrator.Assignments
use editingtab_platform_core.Authorization.Access.Administrator.Members

module _ (organization_id actor_id : ℕ) (s : Session) where
  committed-HasAdministrator :
      {A : Type 0} (body : Exec Database A)
      → HasAdministrator s.database organization_id
      → Ensures (λ _ db'. HasAdministrator db' organization_id) (body s.database)
      → HasAdministrator (transaction body s).1.database organization_id
  unfolding transaction
  committed-HasAdministrator body admin h =
      transact-committed _ _ body (λ db'. HasAdministrator db' organization_id) s admin h

  -- If the organization had an administrator before `update_role`, then it has one afterwards,
  -- whether the call returns or raises.
  pub update_role-HasAdministrator :
      (env : Env) (role_id : ℕ) (name : Text) (permissions : Option PermissionInput)
      (codes : Option (List String))
      → HasAdministrator s.database organization_id
      → HasAdministrator
          (update_role env organization_id actor_id role_id name permissions codes s).1.database
          organization_id
  unfolding update_role
  update_role-HasAdministrator env role_id name permissions codes admin =
      committed-HasAdministrator _ admin (
        Roles.update_role_body-HasAdministrator env organization_id actor_id s.database role_id name
          permissions codes)

  -- If the organization had an administrator before `change_role_permission`, then it has one
  -- afterwards, whether the call returns or raises.
  pub change_role_permission-HasAdministrator :
      (env : Env) (role_id : ℕ) (code : String) (can_grant remove : Bool)
      → HasAdministrator s.database organization_id
      → HasAdministrator
          (change_role_permission env organization_id actor_id role_id code can_grant remove
            s).1.database
          organization_id
  unfolding change_role_permission
  change_role_permission-HasAdministrator env role_id code can_grant remove admin =
      committed-HasAdministrator _ admin (
        Roles.change_role_permission_body-HasAdministrator env organization_id actor_id s.database
          role_id code can_grant remove admin)

  -- If the organization had an administrator before `archive_role`, then it has one afterwards,
  -- whether the call returns or raises.
  pub archive_role-HasAdministrator :
      (env : Env) (role_id : ℕ)
      → HasAdministrator s.database organization_id
      → HasAdministrator
          (archive_role env organization_id actor_id role_id s).1.database
          organization_id
  unfolding archive_role
  archive_role-HasAdministrator env role_id admin = committed-HasAdministrator _ admin (
      Assignments.archive_role_body-HasAdministrator organization_id actor_id s.database env
        role_id)

  -- If no two roles share a key and the organization had an administrator before `restore_role`,
  -- then it has one afterwards, whether the call returns or raises.
  pub restore_role-HasAdministrator :
      (env : Env) (role_id : ℕ)
      → KeyedRoles s.database
      → HasAdministrator s.database organization_id
      → HasAdministrator
          (restore_role env organization_id actor_id role_id s).1.database
          organization_id
  unfolding restore_role
  restore_role-HasAdministrator env role_id keyed admin = committed-HasAdministrator _ admin (
      Assignments.restore_role_body-HasAdministrator organization_id actor_id s.database env role_id
        keyed admin)

  -- If the organization had an administrator before `change_assignment`, then it has one
  -- afterwards, whether the call returns or raises.
  pub change_assignment-HasAdministrator :
      (membership_id role_id : ℕ) (remove : Bool)
      → HasAdministrator s.database organization_id
      → HasAdministrator
          (change_assignment organization_id actor_id membership_id role_id remove s).1.database
          organization_id
  unfolding change_assignment
  change_assignment-HasAdministrator membership_id role_id remove admin =
      committed-HasAdministrator _ admin (
        Assignments.change_assignment_body-HasAdministrator organization_id actor_id s.database
          membership_id role_id remove admin)

  -- If the organization had an administrator before `archive_member`, then it has one afterwards,
  -- whether the call returns or raises, although the check for an administrator precedes the
  -- archiving of the membership.
  pub archive_member-HasAdministrator :
      (env : Env) (membership_id : ℕ)
      → HasAdministrator s.database organization_id
      → HasAdministrator
          (archive_member env organization_id actor_id membership_id s).1.database
          organization_id
  unfolding archive_member
  archive_member-HasAdministrator env membership_id admin = committed-HasAdministrator _ admin (
      Members.archive_member_body-HasAdministrator organization_id actor_id s.database env
        membership_id admin)
