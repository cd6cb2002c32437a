-- ===== src/Authorization/Access/Administrator/Assignments.antt =====
-- An organization's administrator where roles are archived, restored and assigned.
use editingtab_platform_core.Shared.{
  ℕ, Bool, true, false, List, Memᴰ, Option, none, ◌≡◌, refl, sym, ap, ◌∙◌, subst, ◌&&◌, ◌==◌,
  update_where, Memᴰ-update_ne, where-Memᴰ, Bool-cases, is_none, first-Memᴰ, inl, inr, arith,
}
use mathlib.Core.List.Memᴰ
use editingtab_platform_core.Outcome.{Outcome, ok, or_raise-ok}
use editingtab_platform_core.Identity.Models.{User}
use editingtab_platform_core.Authorization.Models.{Role, RolePermission, MembershipRole, RoleAudit}
use editingtab_platform_core.Authorization.Repository.{role_assignments}
use editingtab_platform_core.Authorization.Guards.{find_role, custom_role}
use editingtab_platform_core.Authorization.Access.Chain.{Chain}
use editingtab_platform_core.Authorization.Access.Effective.{HasAdministrator}
use editingtab_platform_core.Authorization.Access.Administrator.{HasAdministrator-map}
use editingtab_platform_core.Authorization.Access.Administrator.Roles.{
  ensure_administrator-HasAdministrator, audited-HasAdministrator,
}
use editingtab_platform_core.Authorization.Access.Escalation.{rebase}
use editingtab_platform_core.Authorization.Access.Loops.{
  Removed, RemovedFrom, relisted, remove_assignments-Ensures, delete_assignments-Ensures,
}
use editingtab_platform_core.Authorization.Access.Writes.{
  same_assignment, audit-Ensures, insert_assignment-Ensures, delete_assignment-Ensures,
}
use editingtab_platform_core.Authorization.Services.Assignments.{
  archive_role_body, restore_role_body, revive_role, change_assignment_body, add_assignment,
  remove_assignment,
}
use editingtab_platform_core.Storage.Tables.{Database, Env}
use editingtab_platform_core.Storage.Ensures.{
  Ensures, Ensures-reads, Ensures-gets, Ensures-step, Ensures-family, Ensures-last, Ensures-pure,
  Ensures-require, Ensures-branch, Ensures-modify, Ensures-weaken,
}

-- The last audit row of an operation that has checked for an administrator.
audited-Ensures :
    (organization_id : ℕ) (db : Database) (m : Outcome (Unit {0}) × Database)
    → HasAdministrator db organization_id
    → (audits : List RoleAudit)
    → Ensures (λ _ db'. Unit {0} × (db' ≡ record db { role_audit = audits })) m
    → Ensures (λ _ db'. HasAdministrator db' organization_id) m
audited-Ensures organization_id db m admin audits h =
    Ensures-weaken _ _ m
      (λ _ db' (_, e).
        subst (λ x. HasAdministrator x organization_id) (sym e)
          (audited-HasAdministrator db organization_id audits admin))
      h

-- A role that is archived and without assignments is on no chain.
revived-Chain :
    (db : Database) (organization_id role_id at : ℕ) (left : List MembershipRole)
    (audits : List RoleAudit)
    → Removed db.membership_roles (role_assignments db organization_id role_id) left
    → ((r : Role) → Memᴰ r db.roles → r.id ≡ role_id → (r.deleted_at ≡ none) → ⊥)
    → (p : RolePermission) (u : User) → Chain db organization_id p u
    → Chain
        (record db {
          roles =
              update_where
                (λ (r : Role). r.id == role_id)
                (λ r. record r { deleted_at = none; updated_at = at })
                db.roles;
          membership_roles = left;
          role_audit = audits;
        })
        organization_id
        p
        u
unfolding role_assignments
revived-Chain db organization_id role_id at left audits r archived p u c =
    elim (Bool-cases (c.role.id == role_id)) [
      | inl t ↦ absurd (archived c.role c.role_row (ground arith) c.role_current)
      | inr t ↦
          rebase c c.p_row c.role (Memᴰ-update_ne _ _ db.roles c.role_row t) refl refl
            c.role_current
            (r.kept c.assignment c.assignment_row
              (λ b k. other b (where-Memᴰ _ db.membership_roles k).1 t))
            c.membership c.membership_row refl refl refl c.membership_current c.user_row
            c.organization_row
    ]
  where
    other :
        (b : MembershipRole)
        → (b.organization_id == organization_id && b.role_id == role_id) ≡ true
        → (c.role.id == role_id) ≡ false
        → same_assignment b c.assignment ≡ false
    other b e t = ground (arith, c.assignment_role)

-- A role's key is unique.
abbrev pub KeyedRoles : Database → Type 0
KeyedRoles db = (r q : Role) → Memᴰ r db.roles → Memᴰ q db.roles → r.id ≡ q.id → r ≡ q

-- The role that `restore_role` works on.
found_role :
    (db : Database) (organization_id role_id : ℕ) (archived : Bool) {role : Role}
    → find_role db organization_id role_id archived ≡ ok role
    → Memᴰ role db.roles
unfolding find_role
found_role db organization_id role_id archived h = (first-Memᴰ _ db.roles (or_raise-ok _ _ h)).0

custom_role-same : {found role : Role} → custom_role found ≡ ok role → found ≡ role
unfolding custom_role
custom_role-same h = ground arith

module _ (organization_id actor_id : ℕ) (db : Database) where
  pub archive_role_body-HasAdministrator :
      (env : Env) (role_id : ℕ)
      → Ensures
          (λ _ db'. HasAdministrator db' organization_id)
          (archive_role_body env organization_id actor_id role_id db)
  unfolding archive_role_body
  archive_role_body-HasAdministrator env role_id = Ensures-reads _ _ _ _ λ _ _.
      Ensures-gets _ _ _ _ (
        Ensures-reads _ _ _ _ λ _ _. Ensures-reads _ _ _ _ λ role _. Ensures-gets _ _ _ _ (
          Ensures-reads _ _ _ _ λ _ _. Ensures-gets _ _ _ _ (
            Ensures-family _ (RemovedFrom db _) (relisted db) _ _ _
              (remove_assignments-Ensures _ _ _ _ _ _)
              λ _ i r. Ensures-modify _ _ _ _ (
                Ensures-reads _ _ _ _ λ _ ensured.
                  audited-Ensures organization_id _ _
                    (ensure_administrator-HasAdministrator _ _ ensured) _
                    (audit-Ensures _ _ _ _ _ _ _ _)))))

  pub restore_role_body-HasAdministrator :
      (env : Env) (role_id : ℕ)
      → KeyedRoles db
      → HasAdministrator db organization_id
      → Ensures
          (λ _ db'. HasAdministrator db' organization_id)
          (restore_role_body env organization_id actor_id role_id db)
  unfolding restore_role_body revive_role
  restore_role_body-HasAdministrator env role_id keyed admin = Ensures-reads _ _ _ _ λ _ _.
      Ensures-gets _ _ _ _ (
        Ensures-reads _ _ _ _ λ found ef. Ensures-reads _ _ _ _ λ role er. Ensures-gets _ _ _ _ (
          Ensures-reads _ _ _ _ λ _ _.
            Ensures-branch _ _ _ _ _ (λ _. Ensures-last _ _ _ admin)
              (λ gone. Ensures-gets _ _ _ _ (
                Ensures-family _ (RemovedFrom db _) (relisted db) _ _ _
                  (delete_assignments-Ensures _ _)
                  λ _ i r. Ensures-modify _ _ _ _ (
                    Ensures-step _ _ _ _ _ _ (audit-Ensures _ _ _ _ _ _ _ _) λ _ _.
                      Ensures-last _ _ _ (
                        HasAdministrator-map
                          (revived-Chain db organization_id role.id env.utc_now i.0 _ r
                            (archived_only found role ef er gone))
                          admin))))))
    where
      archived_only :
          (found role : Role)
          → find_role db organization_id role_id true ≡ ok found
          → custom_role found ≡ ok role
          → is_none role.deleted_at ≡ false
          → (r : Role) → Memᴰ r db.roles
          → r.id ≡ role.id
          → r.deleted_at ≡ none
          → ⊥
      archived_only found role ef er gone r m e cur =
          let same : r ≡ role =
            keyed r role m
              (Memᴰ.cast (sym (custom_role-same er))
                (found_role db organization_id role_id true ef))
              e in
          absurd (
            ground (
              arith,
              ap (λ (x : Option ℕ). is_none x) (ap (λ (x : Role). x.deleted_at) (sym same) ∙ cur),
            ))

  pub change_assignment_body-HasAdministrator :
      (membership_id role_id : ℕ) (remove : Bool)
      → HasAdministrator db organization_id
      → Ensures
          (λ _ db'. HasAdministrator db' organization_id)
          (change_assignment_body organization_id actor_id membership_id role_id remove db)
  unfolding change_assignment_body add_assignment remove_assignment
  change_assignment_body-HasAdministrator membership_id role_id remove admin =
      Ensures-reads _ _ _ _ λ _ _. Ensures-gets _ _ _ _ (
        Ensures-reads _ _ _ _ λ _ _. Ensures-gets _ _ _ _ (
          Ensures-require _ _ _ _ _ λ _. Ensures-gets _ _ _ _ (
            Ensures-reads _ _ _ _ λ _ g.
              Ensures-branch _ _ _ _ _
                (λ _. Ensures-require _ _ _ _ _ λ _.
                  Ensures-step _ _ _ _ _ _ (delete_assignment-Ensures _ _) λ _ _.
                    Ensures-reads _ _ _ _ λ _ ensured.
                      audited-Ensures organization_id _ _
                        (ensure_administrator-HasAdministrator _ _ ensured) _
                        (audit-Ensures _ _ _ _ _ _ _ _))
                (λ _.
                  Ensures-branch _ _ _ _ _ (λ _. Ensures-pure _ _ _ admin)
                    (λ _. Ensures-step _ _ _ _ _ _ (insert_assignment-Ensures _ _) λ _ _.
                      Ensures-reads _ _ _ _ λ _ ensured.
                        audited-Ensures organization_id _ _
                          (ensure_administrator-HasAdministrator _ _ ensured) _
                          (audit-Ensures _ _ _ _ _ _ _ _))))))
