-- ===== src/Authorization/Access/Join.antt =====
-- The chains after the loop that assigns roles to a member who is added or restored.
pub mod Memberships
pub mod Members
use editingtab_platform_core.Shared.{
  ℕ, Bool, true, false, List, [], ◌∷◌, ◌++◌, map, Memᴰ, Option, none, some, String, ◌≡◌, refl, sym,
  ap, ◌∙◌, subst, ◌⊎◌, inl, inr, ◌&&◌, ◌==◌, any, not, update_where, update_cases, where_,
  where-Memᴰ, Memᴰ-where, Memᴰ-any, Memᴰ-update_ne, Bool-cases, first-Memᴰ, ==→≡, arith, is_some,
  &&-left, &&-right,
}
use mathlib.Core.List.Memᴰ
use editingtab_platform_core.Errors.{inaccessible}
use editingtab_platform_core.Outcome.{Outcome, ok, or_raise, or_raise-ok, >>=-ok, require-ok}
use editingtab_platform_core.Identity.Models.{User, Membership, Organization}
use editingtab_platform_core.Identity.Repository.{create_membership}
use editingtab_platform_core.Authorization.Models.{
  Role, RolePermission, MembershipRole, RoleAudit, Permissions,
}
use editingtab_platform_core.Authorization.Repository.{
  effective_grant_authority, role_permission_grants, member_audit,
}
use editingtab_platform_core.Authorization.Policy.{role_assign}
use editingtab_platform_core.Authorization.Guards.{
  authorize, grantable, find_role, find_grantable_roles, initial_roles,
}
use editingtab_platform_core.Authorization.Access.Chain.{Chain}
use editingtab_platform_core.Authorization.Access.Effective.{MayGrant}
use editingtab_platform_core.Authorization.Access.Escalation.{NoNewChain, rebase}
use editingtab_platform_core.Authorization.Access.Escalation.Granting.{
  AllGrantable, grantable-AllGrantable,
}
use editingtab_platform_core.Authorization.Access.Escalation.Assignments.{
  role_permission_grants-row,
}
use editingtab_platform_core.Authorization.Access.Writes.{
  of_role, audit-Ensures, insert_assignment-Ensures,
}
use editingtab_platform_core.Authorization.Services.Members.{
  membership_assignments, write_membership, before_membership_restore, activate_membership,
  assign_roles, activate_member,
}
use editingtab_platform_core.Authorization.Views.{MemberInfo}
use editingtab_platform_core.Storage.Tables.{Database, Env}
use editingtab_platform_core.Storage.Ensures.{
  Ensures, Ensures-reads, Ensures-gets, Ensures-step, Ensures-bind, Ensures-last, Ensures-pure,
  Ensures-require, Ensures-branch, Ensures-modify, Ensures-modify_last, Ensures-weaken,
}

-- Every assignment is one of a membership.
abbrev pub AssignedMembers : Database → Type 0
AssignedMembers db =
    (a : MembershipRole)
    → Memᴰ a db.membership_roles
    → (m : Membership) × Memᴰ m db.memberships × (m.id ≡ a.membership_id)

-- From `db` to `db'` no chain is lost, and the new ones are within the actor's authority in `db`.
pub record Grows (db : Database) (organization_id actor_id : ℕ) (db' : Database) : Type 0 where
  pub fresh : NoNewChain db db' organization_id actor_id
  pub kept :
      (p : RolePermission) (u : User) → Chain db organization_id p u → Chain db' organization_id p u
  pub permissions : db'.role_permissions ≡ db.role_permissions

module _ (db : Database) (organization_id actor_id : ℕ) where
  pub Grows-refl : Grows db organization_id actor_id db
  Grows-refl = record { fresh = λ p u c. inl c; kept = λ p u c. c; permissions = refl }

  -- Each of the roles may be granted by the actor.
  abbrev pub AllRoles : List Role → Type 0
  AllRoles roles =
      (r : Role)
      → Memᴰ r roles
      → AllGrantable db organization_id actor_id (role_permission_grants db organization_id r.id)

  -- One more assignment, of a role that the actor may grant.
  Grows-assigned :
      (db' : Database) (row : MembershipRole) (audits : List RoleAudit)
      → Grows db organization_id actor_id db'
      → AllGrantable db organization_id actor_id
          (role_permission_grants db organization_id row.role_id)
      → Grows db organization_id actor_id
          (record db' { membership_roles = db'.membership_roles ++ row ∷ []; role_audit = audits })
  Grows-assigned db' row audits g granted = record {
    fresh = λ p u c. go p u c (Memᴰ.append_cases db'.membership_roles c.assignment_row);
    kept = λ p u c0. keep p u (g.kept p u c0);
    permissions = g.permissions;
  }
    where
      keep :
          (p : RolePermission) (u : User)
          → Chain db' organization_id p u
          → Chain
              (record db' {
                membership_roles = db'.membership_roles ++ row ∷ [];
                role_audit = audits;
              })
              organization_id
              p
              u
      keep p u c =
          rebase c c.p_row c.role c.role_row refl refl c.role_current
            (Memᴰ.append_left (row ∷ []) c.assignment_row) c.membership c.membership_row refl refl
            refl c.membership_current c.user_row c.organization_row

      go :
          (p : RolePermission) (u : User)
          → (c : Chain
              (record db' {
                membership_roles = db'.membership_roles ++ row ∷ [];
                role_audit = audits;
              })
              organization_id
              p
              u)
          → Memᴰ c.assignment db'.membership_roles ⊎ Memᴰ c.assignment (row ∷ [])
          → Chain db organization_id p u ⊎ MayGrant db organization_id actor_id p.code
      go p u c (inl m) = g.fresh p u (
          rebase c c.p_row c.role c.role_row refl refl c.role_current m c.membership
            c.membership_row refl refl refl c.membership_current c.user_row c.organization_row)
      go p u c (inr m) =
          let e : c.assignment.role_id ≡ row.role_id =
            ap (λ (a : MembershipRole). a.role_id) (Memᴰ.eq_of_singleton m) in
          inr (
            granted (p.code, p.can_grant)
              (role_permission_grants-row db organization_id row.role_id
                (subst (λ ps. Memᴰ p ps) g.permissions c.p_row)
                (ground (arith, c.p_organization, c.role_id, c.assignment_role))))

  pub assign_roles-Ensures :
      (membership_id : ℕ) (roles : List Role) (db' : Database)
      → Grows db organization_id actor_id db'
      → AllRoles roles
      → Ensures
          (λ _ s. Grows db organization_id actor_id s)
          (assign_roles organization_id actor_id membership_id roles db')
  unfolding assign_roles
  assign_roles-Ensures membership_id [] db' g all = Ensures-pure _ _ _ g
  assign_roles-Ensures membership_id (role ∷ rest) db' g all = Ensures-gets _ _ _ _ (
      Ensures-bind _ (λ _ s. Grows db organization_id actor_id s) _ _ _
        (Ensures-branch _ _ _ _ _ (λ _. Ensures-pure _ _ _ g)
          (λ _. Ensures-step _ _ _ _ _ _ (insert_assignment-Ensures _ _) λ _ _.
            Ensures-gets _ _ _ _ (
              Ensures-weaken _ _ _
                (λ _ s (_, e).
                  subst (Grows db organization_id actor_id) (sym e)
                    (Grows-assigned db' _ _ g (all role (Memᴰ.head refl))))
                (audit-Ensures _ _ _ _ _ _ _ _))))
        (λ _ s h. assign_roles-Ensures membership_id rest s h (λ r m. all r (Memᴰ.tail m))))

  found_role-AllGrantable :
      (role_id : ℕ) (role r : Role) {a : Unit {0}}
      → find_role db organization_id role_id false ≡ ok role
      → grantable
          (effective_grant_authority db organization_id actor_id)
          (role_permission_grants db organization_id role_id)
        ≡ ok a
      → r ≡ role
      → AllGrantable db organization_id actor_id (role_permission_grants db organization_id r.id)
  unfolding find_role
  found_role-AllGrantable role_id role r er eg e =
      let t = (first-Memᴰ _ db.roles (or_raise-ok _ _ er)).1 in
      let k : role.id ≡ role_id =
        ==→≡ _ _ (&&-right (role.organization_id == organization_id) _ (&&-left _ _ t)) in
      subst
        (λ i.
          AllGrantable db organization_id actor_id (role_permission_grants db organization_id i))
        (sym (ap (λ (x : Role). x.id) e ∙ k))
        (grantable-AllGrantable db organization_id actor_id _ eg)

  find_grantable_roles-AllRoles :
      (role_ids : List ℕ) {roles : List Role}
      → find_grantable_roles db organization_id
          (effective_grant_authority db organization_id actor_id)
          role_ids
        ≡ ok roles
      → AllRoles roles
  unfolding find_grantable_roles
  find_grantable_roles-AllRoles [] {roles} h r m =
      let e : [] ≡ roles = ground arith in elim (subst (Memᴰ r) (sym e) m) [ ]
  find_grantable_roles-AllRoles (role_id ∷ rest) {roles} h r m =
      let (role, er, h1) = >>=-ok (find_role db organization_id role_id false) _ h in
      let (_, eg, h2) =
        >>=-ok
          (grantable (effective_grant_authority db organization_id actor_id)
            (role_permission_grants db organization_id role_id))
          _ h1 in
      let (others, ers, h3) =
        >>=-ok
          (find_grantable_roles db organization_id
            (effective_grant_authority db organization_id actor_id) rest)
          _ h2 in
      let e : role ∷ others ≡ roles = ground arith in
      elim (subst (Memᴰ r) (sym e) m) [
        | Memᴰ.head k ↦ found_role-AllGrantable role_id role r er eg k
        | Memᴰ.tail k ↦ find_grantable_roles-AllRoles rest ers r k
      ]

  -- What `_initial_roles` returns may be granted.
  pub initial_roles-AllRoles :
      (role_ids : List ℕ) {roles : List Role}
      → initial_roles db organization_id actor_id role_ids ≡ ok roles
      → AllRoles roles
  unfolding initial_roles
  initial_roles-AllRoles [] {roles} h r m =
      let e : [] ≡ roles = ground arith in elim (subst (Memᴰ r) (sym e) m) [ ]
  initial_roles-AllRoles (role_id ∷ rest) h r m =
      let (_, h1) = require-ok _ _ _ h in
      let (_, _, h2) = >>=-ok (authorize db organization_id actor_id role_assign) _ h1 in
      find_grantable_roles-AllRoles (role_id ∷ rest) h2 r m
