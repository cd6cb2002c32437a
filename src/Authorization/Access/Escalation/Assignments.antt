-- ===== src/Authorization/Access/Escalation/Assignments.antt =====
-- The chains after `restore_role` and `change_assignment`.
use editingtab_platform_core.Shared.{
  ℕ, Bool, true, false, List, [], ◌∷◌, ◌++◌, Memᴰ, none, ◌≡◌, refl, sym, ap, subst, ◌⊎◌, inl, inr,
  ◌&&◌, ◌==◌, update_where, update_cases, delete-Memᴰ, Memᴰ-where, arith,
}
use mathlib.Core.List.Memᴰ
use editingtab_platform_core.Authorization.Models.{Role, RolePermission, MembershipRole, RoleAudit}
use editingtab_platform_core.Authorization.Repository.{role_permission_grants, role_assignments}
use editingtab_platform_core.Authorization.Access.Chain.{Chain}
use editingtab_platform_core.Authorization.Access.Effective.{MayGrant}
use editingtab_platform_core.Authorization.Access.Escalation.{NoNewChain, rebase}
use editingtab_platform_core.Authorization.Access.Escalation.Granting.{
  AllGrantable, grantable-AllGrantable,
}
use editingtab_platform_core.Authorization.Access.Loops.{
  Removed, RemovedFrom, relisted, delete_assignments-Ensures,
}
use editingtab_platform_core.Authorization.Access.Writes.{
  of_role, audit-Ensures, insert_assignment-Ensures, delete_assignment-Ensures,
}
use editingtab_platform_core.Authorization.Services.Assignments.{
  restore_role_body, revive_role, change_assignment_body, add_assignment, remove_assignment,
}
use editingtab_platform_core.Storage.Tables.{Database, Env}
use editingtab_platform_core.Storage.Ensures.{
  Ensures, Ensures-reads, Ensures-gets, Ensures-step, Ensures-family, Ensures-last, Ensures-pure,
  Ensures-require, Ensures-branch, Ensures-modify, Ensures-weaken,
}

-- Each permission of a role that may be granted stands in the dict of its grants.
pub role_permission_grants-row :
    (db : Database) (organization_id role_id : ℕ) {p : RolePermission}
    → Memᴰ p db.role_permissions
    → of_role organization_id role_id p ≡ true
    → Memᴰ (p.code, p.can_grant) (role_permission_grants db organization_id role_id)
unfolding role_permission_grants
role_permission_grants-row db organization_id role_id m e =
    Memᴰ.map (λ (p : RolePermission). (p.code, p.can_grant)) (Memᴰ-where _ _ m e)

module _ (db : Database) (organization_id actor_id : ℕ) where
  -- Only assignments deleted.
  relisted-NoNewChain :
      (left : List MembershipRole) (audits : List RoleAudit)
      → ((a : MembershipRole) → Memᴰ a left → Memᴰ a db.membership_roles)
      → NoNewChain db (relisted db (left, audits)) organization_id actor_id
  relisted-NoNewChain left audits was p u c = inl (
      rebase c c.p_row c.role c.role_row refl refl c.role_current
        (was c.assignment c.assignment_row) c.membership c.membership_row refl refl refl
        c.membership_current c.user_row c.organization_row)

  -- A role that is current again, without assignments.
  revived-NoNewChain :
      (role_id at : ℕ) (left : List MembershipRole) (audits : List RoleAudit)
      → Removed db.membership_roles (role_assignments db organization_id role_id) left
      → NoNewChain db
          (record db {
            roles =
                update_where
                  (λ (r : Role). r.id == role_id)
                  (λ r. record r { deleted_at = none; updated_at = at })
                  db.roles;
            membership_roles = left;
            role_audit = audits;
          })
          organization_id
          actor_id
  unfolding role_assignments
  revived-NoNewChain role_id at left audits r p u c =
      let (q, k, e) = update_cases _ _ db.roles c.role_row in go q k e
    where
      go :
          (q : Role)
          → Memᴰ q db.roles
          → ((c.role ≡ record q { deleted_at = none; updated_at = at })
              × ((q.id == role_id) ≡ true))
            ⊎ ((c.role ≡ q) × ((q.id == role_id) ≡ false))
          → Chain db organization_id p u ⊎ MayGrant db organization_id actor_id p.code
      go q k (inl (e, t)) =
          let rid : c.role.id ≡ q.id = ap (λ (x : Role). x.id) e in
          let m =
            Memᴰ-where
              (λ (a : MembershipRole). a.organization_id == organization_id && a.role_id == role_id)
              db.membership_roles (r.was c.assignment c.assignment_row)
              (ground (
                arith, c.assignment_role, c.assignment_organization, c.role_organization,
                c.p_organization,
              )) in
          absurd (ground (arith, r.not_gone c.assignment c.assignment c.assignment_row m))
      go q k (inr (e, _)) = inl (
          rebase c c.p_row c.role (Memᴰ.cast e k) refl refl c.role_current
            (r.was c.assignment c.assignment_row) c.membership c.membership_row refl refl refl
            c.membership_current c.user_row c.organization_row)

  -- A new assignment of a role whose permissions the actor may grant.
  assigned-NoNewChain :
      (row : MembershipRole) (audits : List RoleAudit)
      → row.organization_id ≡ organization_id
      → AllGrantable db organization_id actor_id
          (role_permission_grants db organization_id row.role_id)
      → NoNewChain db
          (record db { membership_roles = db.membership_roles ++ row ∷ []; role_audit = audits })
          organization_id
          actor_id
  assigned-NoNewChain row audits same g p u c =
      go (Memᴰ.append_cases db.membership_roles c.assignment_row)
    where
      go :
          Memᴰ c.assignment db.membership_roles ⊎ Memᴰ c.assignment (row ∷ [])
          → Chain db organization_id p u ⊎ MayGrant db organization_id actor_id p.code
      go (inl m) = inl (
          rebase c c.p_row c.role c.role_row refl refl c.role_current m c.membership
            c.membership_row refl refl refl c.membership_current c.user_row c.organization_row)
      go (inr m) =
          let e : c.assignment.role_id ≡ row.role_id =
            ap (λ (a : MembershipRole). a.role_id) (Memᴰ.eq_of_singleton m) in
          inr (
            g (p.code, p.can_grant)
              (role_permission_grants-row db organization_id row.role_id c.p_row
                (ground (arith, c.p_organization, c.role_id, c.assignment_role))))

  pub restore_role_body-NoNewChain :
      (env : Env) (role_id : ℕ)
      → Ensures
          (λ _ db'. NoNewChain db db' organization_id actor_id)
          (restore_role_body env organization_id actor_id role_id db)
  unfolding restore_role_body revive_role
  restore_role_body-NoNewChain env role_id = Ensures-reads _ _ _ _ λ _ _. Ensures-gets _ _ _ _ (
      Ensures-reads _ _ _ _ λ _ _. Ensures-reads _ _ _ _ λ role _. Ensures-gets _ _ _ _ (
        Ensures-reads _ _ _ _ λ _ _.
          Ensures-branch _ _ _ _ _ (λ _. Ensures-last _ _ _ (λ p u c. inl c))
            (λ _. Ensures-gets _ _ _ _ (
              Ensures-family _ (RemovedFrom db _) (relisted db) _ _ _
                (delete_assignments-Ensures _ _)
                λ _ i r. Ensures-modify _ _ _ _ (
                  Ensures-step _ _ _ _ _ _ (audit-Ensures _ _ _ _ _ _ _ _)
                    λ _ _. Ensures-last _ _ _ (revived-NoNewChain role.id env.utc_now i.0 _ r))))))

  pub change_assignment_body-NoNewChain :
      (membership_id role_id : ℕ) (remove : Bool)
      → Ensures
          (λ _ db'. NoNewChain db db' organization_id actor_id)
          (change_assignment_body organization_id actor_id membership_id role_id remove db)
  unfolding change_assignment_body add_assignment remove_assignment
  change_assignment_body-NoNewChain membership_id role_id remove = Ensures-reads _ _ _ _ λ _ _.
      Ensures-gets _ _ _ _ (
        Ensures-reads _ _ _ _ λ _ _. Ensures-gets _ _ _ _ (
          Ensures-require _ _ _ _ _ λ _. Ensures-gets _ _ _ _ (
            Ensures-reads _ _ _ _ λ _ g.
              Ensures-branch _ _ _ _ _
                (λ _. Ensures-require _ _ _ _ _ λ _.
                  Ensures-step _ _ _ _ _ _ (delete_assignment-Ensures _ _) λ _ _.
                    Ensures-reads _ _ _ _ λ _ _.
                      Ensures-weaken _ _ _
                        (λ _ db' (_, e).
                          subst (λ x. NoNewChain db x organization_id actor_id) (sym e)
                            (relisted-NoNewChain _ _
                              (λ a m. (delete-Memᴰ _ db.membership_roles m).0)))
                        (audit-Ensures _ _ _ _ _ _ _ _))
                (λ _.
                  Ensures-branch _ _ _ _ _ (λ _. Ensures-pure _ _ _ (λ p u c. inl c))
                    (λ _. Ensures-step _ _ _ _ _ _ (insert_assignment-Ensures _ _) λ _ _.
                      Ensures-reads _ _ _ _ λ _ _.
                        Ensures-weaken _ _ _
                          (λ _ db' (_, e).
                            subst (λ x. NoNewChain db x organization_id actor_id) (sym e)
                              (assigned-NoNewChain _ _ refl
                                (grantable-AllGrantable db organization_id actor_id _ g)))
                          (audit-Ensures _ _ _ _ _ _ _ _))))))
