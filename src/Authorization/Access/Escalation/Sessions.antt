-- ===== src/Authorization/Access/Escalation/Sessions.antt =====
-- What the public operations of authorization/services.py let users do and grant that they could
-- not before.
use editingtab_platform_core.Shared.{ℕ, Bool, List, Option, String, Text, inl}
use editingtab_platform_core.Authorization.Guards.{PermissionInput}
use editingtab_platform_core.Authorization.Services.Transaction.{transaction}
use editingtab_platform_core.Authorization.Services.Api.{
  create_role, update_role, change_role_permission, restore_role, change_assignment, add_member,
  restore_member,
}
use editingtab_platform_core.Authorization.Access.Join.{AssignedMembers}
use editingtab_platform_core.Authorization.Access.Join.Members.{
  add_member_body-Grows, restore_member_body-Grows,
}
use editingtab_platform_core.Storage.Tables.{Database, Session, Env}
use editingtab_platform_core.Storage.Exec.{Exec}
use editingtab_platform_core.Storage.Ensures.{Ensures, Ensures-weaken, transact-committed}
use editingtab_platform_core.Authorization.Access.Escalation.{
  NoNewChain, NoEscalation, NoNewChain-NoEscalation,
}
use editingtab_platform_core.Authorization.Access.Escalation.Roles
use editingtab_platform_core.Authorization.Access.Escalation.Assignments

module _ (organization_id actor_id : ℕ) (s : Session) where
  committed-NoEscalation :
      {A : Type 0} (body : Exec Database A)
      → Ensures (λ _ db'. NoNewChain s.database db' organization_id actor_id) (body s.database)
      → NoEscalation s.database (transaction body s).1.database organization_id actor_id
  unfolding transaction
  committed-NoEscalation body h = NoNewChain-NoEscalation (
      transact-committed _ _ body (λ db'. NoNewChain s.database db' organization_id actor_id) s
        (λ _ _ c. inl c) h)

  -- Whether `create_role` returns or raises, a permission that some user may use or grant in the
  -- organization afterwards, that user could use or grant before, or the actor could grant it
  -- before.
  pub create_role-NoEscalation :
      (env : Env) (name : Text) (permissions : Option PermissionInput)
      (codes : Option (List String))
      → NoEscalation s.database
          (create_role env organization_id actor_id name permissions codes s).1.database
          organization_id
          actor_id
  unfolding create_role
  create_role-NoEscalation env name permissions codes = committed-NoEscalation _ (
      Roles.create_role_body-NoNewChain env organization_id actor_id s.database name permissions
        codes)

  -- Whether `update_role` returns or raises, a permission that some user may use or grant in the
  -- organization afterwards, that user could use or grant before, or the actor could grant it
  -- before.
  pub update_role-NoEscalation :
      (env : Env) (role_id : ℕ) (name : Text) (permissions : Option PermissionInput)
      (codes : Option (List String))
      → NoEscalation s.database
          (update_role env organization_id actor_id role_id name permissions codes s).1.database
          organization_id
          actor_id
  unfolding update_role
  update_role-NoEscalation env role_id name permissions codes = committed-NoEscalation _ (
      Roles.update_role_body-NoNewChain env organization_id actor_id s.database role_id name
        permissions codes)

  -- Whether `change_role_permission` returns or raises, a permission that some user may use or
  -- grant in the organization afterwards, that user could use or grant before, or the actor could
  -- grant it before.
  pub change_role_permission-NoEscalation :
      (env : Env) (role_id : ℕ) (code : String) (can_grant remove : Bool)
      → NoEscalation s.database
          (change_role_permission env organization_id actor_id role_id code can_grant remove
            s).1.database
          organization_id
          actor_id
  unfolding change_role_permission
  change_role_permission-NoEscalation env role_id code can_grant remove = committed-NoEscalation _ (
      Roles.change_role_permission_body-NoNewChain env organization_id actor_id s.database role_id
        code can_grant remove)

  -- Whether `restore_role` returns or raises, a permission that some user may use or grant in the
  -- organization afterwards, that user could use or grant before, or the actor could grant it
  -- before, also where the archived role still had assignments.
  pub restore_role-NoEscalation :
      (env : Env) (role_id : ℕ)
      → NoEscalation s.database
          (restore_role env organization_id actor_id role_id s).1.database
          organization_id
          actor_id
  unfolding restore_role
  restore_role-NoEscalation env role_id =
      committed-NoEscalation _
        (Assignments.restore_role_body-NoNewChain s.database organization_id actor_id env role_id)

  -- Whether `change_assignment` returns or raises, a permission that some user may use or grant
  -- in the organization afterwards, that user could use or grant before, or the actor could grant
  -- it before.
  pub change_assignment-NoEscalation :
      (membership_id role_id : ℕ) (remove : Bool)
      → NoEscalation s.database
          (change_assignment organization_id actor_id membership_id role_id remove s).1.database
          organization_id
          actor_id
  unfolding change_assignment
  change_assignment-NoEscalation membership_id role_id remove = committed-NoEscalation _ (
      Assignments.change_assignment_body-NoNewChain s.database organization_id actor_id
        membership_id role_id remove)

  -- If every assignment belongs to a membership of the tables, then whether `add_member` returns
  -- or raises, a permission that some user may use or grant in the organization afterwards, that
  -- user could use or grant before, or the actor could grant it before, also where an archived
  -- membership is revived or roles are assigned at once.
  pub add_member-NoEscalation :
      (env : Env) (user_id : ℕ) (role_ids : List ℕ)
      → AssignedMembers s.database
      → NoEscalation s.database
          (add_member env organization_id actor_id user_id role_ids s).1.database
          organization_id
          actor_id
  unfolding add_member
  add_member-NoEscalation env user_id role_ids assigned = committed-NoEscalation _ (
      Ensures-weaken _ _ _ (λ _ _ g. g.fresh)
        (add_member_body-Grows s.database organization_id actor_id env user_id role_ids assigned))

  -- Whether `restore_member` returns or raises, a permission that some user may use or grant in
  -- the organization afterwards, that user could use or grant before, or the actor could grant it
  -- before.
  pub restore_member-NoEscalation :
      (env : Env) (membership_id : ℕ) (role_ids : List ℕ)
      → NoEscalation s.database
          (restore_member env organization_id actor_id membership_id role_ids s).1.database
          organization_id
          actor_id
  unfolding restore_member
  restore_member-NoEscalation env membership_id role_ids = committed-NoEscalation _ (
      Ensures-weaken _ _ _ (λ _ _ g. g.fresh)
        (restore_member_body-Grows s.database organization_id actor_id env membership_id role_ids))
