-- ===== src/Authorization/Access/Join/Members.antt =====
-- The chains after `add_member` and `restore_member`.
use editingtab_platform_core.Shared.{
  ℕ, true, List, Option, none, some, ◌≡◌, refl, subst, ◌==◌, any, not, arith,
}
use editingtab_platform_core.Identity.Models.{User, Membership}
use editingtab_platform_core.Authorization.Models.{Role}
use editingtab_platform_core.Authorization.Repository.{member_audit}
use editingtab_platform_core.Authorization.Access.Join.{
  AssignedMembers, Grows, Grows-refl, AllRoles, assign_roles-Ensures, initial_roles-AllRoles,
}
use editingtab_platform_core.Authorization.Access.Writes.{audit-Ensures}
use editingtab_platform_core.Authorization.Services.Members.{
  write_membership, activate_membership, activate_member, add_member_body, restore_member_body,
}
use editingtab_platform_core.Storage.Tables.{Database, Env}
use editingtab_platform_core.Storage.Ensures.{
  Ensures, Ensures-reads, Ensures-gets, Ensures-step, Ensures-bind, Ensures-last, Ensures-pure,
  Ensures-branch, Ensures-modify,
}
use editingtab_platform_core.Authorization.Access.Join.Memberships.{
  create_membership-Ensures, Grows-created, no_assignment, Grows-restored,
}

module _ (db : Database) (organization_id actor_id : ℕ) where
  activate_membership-Ensures :
      (env : Env) (membership : Option Membership) (user : User)
      → (membership ≡ none → AssignedMembers db)
      → Ensures
          (λ _ s. Grows db organization_id actor_id s)
          (activate_membership env organization_id actor_id membership user db)
  unfolding activate_membership write_membership member_audit
  activate_membership-Ensures env none user assigned =
      Ensures-step _ _ _ _ _ _ (create_membership-Ensures env _ _ _ db) λ row (e, unused).
        Ensures-step _ _ _ _ _ _ (audit-Ensures _ _ _ _ _ _ _ _) λ _ _. Ensures-pure _ _ _ (
          Grows-created db organization_id actor_id _ _ (assigned refl)
            (subst (λ i. not (any (λ (m : Membership). m.id == i) db.memberships) ≡ true) e unused))
  activate_membership-Ensures env (some membership) user assigned =
      Ensures-branch _ _ _ _ _
        (λ _. Ensures-reads _ _ _ _ λ _ h. Ensures-modify _ _ _ _ (
          Ensures-step _ _ _ _ _ _ (audit-Ensures _ _ _ _ _ _ _ _) λ _ _. Ensures-pure _ _ _ (
            Grows-restored db organization_id actor_id membership.id env.utc_now _
              (no_assignment db organization_id actor_id membership.id h))))
        (λ _. Ensures-pure _ _ _ (Grows-refl db organization_id actor_id))

  pub activate_member-Ensures :
      (env : Env) (membership : Option Membership) (user : User) (roles : List Role)
      → (membership ≡ none → AssignedMembers db)
      → AllRoles db organization_id actor_id roles
      → Ensures
          (λ _ s. Grows db organization_id actor_id s)
          (activate_member env organization_id actor_id membership user roles db)
  unfolding activate_member
  activate_member-Ensures env membership user roles assigned all =
      Ensures-bind _ (λ _ s. Grows db organization_id actor_id s) _ _ _
        (activate_membership-Ensures env membership user assigned)
        λ active s g.
          Ensures-bind _ (λ _ s. Grows db organization_id actor_id s) _ _ _
            (assign_roles-Ensures db organization_id actor_id active.id roles s g all)
            λ _ s' g'. Ensures-last _ _ _ g'

  pub add_member_body-Grows :
      (env : Env) (user_id : ℕ) (role_ids : List ℕ)
      → AssignedMembers db
      → Ensures
          (λ _ s. Grows db organization_id actor_id s)
          (add_member_body env organization_id actor_id user_id role_ids db)
  unfolding add_member_body
  add_member_body-Grows env user_id role_ids assigned = Ensures-reads _ _ _ _ λ _ _.
      Ensures-reads _ _ _ _ λ user _. Ensures-reads _ _ _ _ λ roles h. Ensures-gets _ _ _ _ (
        activate_member-Ensures env _ user roles (λ _. assigned)
          (initial_roles-AllRoles db organization_id actor_id role_ids h))

  pub restore_member_body-Grows :
      (env : Env) (membership_id : ℕ) (role_ids : List ℕ)
      → Ensures
          (λ _ s. Grows db organization_id actor_id s)
          (restore_member_body env organization_id actor_id membership_id role_ids db)
  unfolding restore_member_body
  restore_member_body-Grows env membership_id role_ids = Ensures-reads _ _ _ _ λ _ _.
      Ensures-reads _ _ _ _ λ row _. Ensures-reads _ _ _ _ λ roles h.
        activate_member-Ensures env (some row.0) row.1 roles (λ e. absurd (ground (arith, e)))
          (initial_roles-AllRoles db organization_id actor_id role_ids h)
