-- ===== src/Authorization/Access/Administrator/Roles.antt =====
-- An organization's administrator where roles are changed.
use editingtab_platform_core.Shared.{ℕ, Bool, List, Option, String, Text, ◌≡◌, refl}
use editingtab_platform_core.Outcome.{ok, require-true}
use editingtab_platform_core.Authorization.Models.{Role, RoleAudit, Permissions}
use editingtab_platform_core.Authorization.Guards.{PermissionInput, ensure_administrator}
use editingtab_platform_core.Authorization.Access.Effective.{
  HasAdministrator, has_administrator_iff,
}
use editingtab_platform_core.Authorization.Access.Administrator.{HasAdministrator-map}
use editingtab_platform_core.Authorization.Access.Escalation.{rebase}
use editingtab_platform_core.Authorization.Access.Writes.{
  replace_permissions-Ensures, rename_role-Ensures, audit-Ensures,
}
use editingtab_platform_core.Authorization.Services.Roles.{
  update_role_body, change_role_permission_body, apply_permissions,
}
use editingtab_platform_core.Storage.Tables.{Database, Env}
use editingtab_platform_core.Storage.Ensures.{
  Ensures, Ensures-reads, Ensures-gets, Ensures-step, Ensures-last, Ensures-require, Ensures-branch,
  Ensures-modify,
}

-- The check that the operations make.
pub ensure_administrator-HasAdministrator :
    (db : Database) (organization_id : ℕ) {a : Unit {0}}
    → ensure_administrator db organization_id ≡ ok a
    → HasAdministrator db organization_id
unfolding ensure_administrator
ensure_administrator-HasAdministrator db organization_id h =
    (has_administrator_iff db organization_id).0 (require-true _ _ h)

-- The audit has no part in a chain.
pub audited-HasAdministrator :
    (db : Database) (organization_id : ℕ) (audits : List RoleAudit)
    → HasAdministrator db organization_id
    → HasAdministrator (record db { role_audit = audits }) organization_id
audited-HasAdministrator db organization_id audits = HasAdministrator-map λ p u c.
    rebase c c.p_row c.role c.role_row refl refl c.role_current c.assignment_row c.membership
      c.membership_row refl refl refl c.membership_current c.user_row c.organization_row

module _ (env : Env) (organization_id actor_id : ℕ) (db : Database) where
  pub update_role_body-HasAdministrator :
      (role_id : ℕ) (name : Text) (permissions : Option PermissionInput)
      (codes : Option (List String))
      → Ensures
          (λ _ db'. HasAdministrator db' organization_id)
          (update_role_body env organization_id actor_id role_id name permissions codes db)
  unfolding update_role_body
  update_role_body-HasAdministrator role_id name permissions codes = Ensures-reads _ _ _ _ λ _ _.
      Ensures-gets _ _ _ _ (
        Ensures-reads _ _ _ _ λ found _. Ensures-reads _ _ _ _ λ role _. Ensures-gets _ _ _ _ (
          Ensures-reads _ _ _ _ λ after _. Ensures-reads _ _ _ _ λ _ _. Ensures-reads _ _ _ _ λ _ g.
            Ensures-reads _ _ _ _ λ names _.
              Ensures-step _ _ _ _ _ _ (rename_role-Ensures _ _ _ _ _) λ _ _.
                Ensures-step _ _ _ _ _ _ (replace_permissions-Ensures _ _ _ _) λ _ _.
                  Ensures-reads _ _ _ _ λ _ ensured.
                    Ensures-step _ _ _ _ _ _ (audit-Ensures _ _ _ _ _ _ _ _) λ _ _.
                      Ensures-last _ _ _ (
                        audited-HasAdministrator _ _ _
                          (ensure_administrator-HasAdministrator _ _ ensured))))

  apply_permissions-HasAdministrator :
      (role : Role) (authority : List String) (before after : Permissions) (action : String)
      → Ensures
          (λ _ db'. HasAdministrator db' organization_id)
          (apply_permissions env organization_id actor_id role authority before after action db)
  unfolding apply_permissions
  apply_permissions-HasAdministrator role authority before after action =
      Ensures-reads _ _ _ _ λ _ _. Ensures-reads _ _ _ _ λ _ g. Ensures-modify _ _ _ _ (
        Ensures-step _ _ _ _ _ _ (replace_permissions-Ensures _ _ _ _) λ _ _.
          Ensures-reads _ _ _ _ λ _ ensured.
            Ensures-step _ _ _ _ _ _ (audit-Ensures _ _ _ _ _ _ _ _) λ _ _.
              Ensures-last _ _ _ (
                audited-HasAdministrator _ _ _ (ensure_administrator-HasAdministrator _ _ ensured)))

  pub change_role_permission_body-HasAdministrator :
      (role_id : ℕ) (code : String) (can_grant remove : Bool)
      → HasAdministrator db organization_id
      → Ensures
          (λ _ db'. HasAdministrator db' organization_id)
          (change_role_permission_body env organization_id actor_id role_id code can_grant remove
            db)
  unfolding change_role_permission_body
  change_role_permission_body-HasAdministrator role_id code can_grant remove admin =
      Ensures-reads _ _ _ _ λ _ _. Ensures-reads _ _ _ _ λ found _. Ensures-reads _ _ _ _ λ role _.
        Ensures-gets _ _ _ _ (
          Ensures-gets _ _ _ _ (
            Ensures-gets _ _ _ _ (
              Ensures-require _ _ _ _ _ λ _. Ensures-require _ _ _ _ _ λ _.
                Ensures-branch _ _ _ _ _
                  (λ _.
                    Ensures-branch _ _ _ _ _ (λ _. Ensures-last _ _ _ admin)
                      (λ _. apply_permissions-HasAdministrator role _ _ _ _))
                  (λ _.
                    Ensures-branch _ _ _ _ _ (λ _. Ensures-last _ _ _ admin)
                      (λ _. apply_permissions-HasAdministrator role _ _ _ _)))))
