-- ===== src/Authorization/Access/Administrator/Members.antt =====
-- An organization's administrator under `archive_member`.
use editingtab_platform_core.Shared.{
  ℕ, false, List, ◌≡◌, refl, sym, subst, update_where, ◌==◌, Memᴰ-update_ne,
}
use editingtab_platform_core.Identity.Models.{User, Membership}
use editingtab_platform_core.Authorization.Models.{RolePermission, RoleAudit}
use editingtab_platform_core.Authorization.Repository.{member_audit}
use editingtab_platform_core.Authorization.Access.Chain.{Chain}
use editingtab_platform_core.Authorization.Access.Effective.{HasAdministrator}
use editingtab_platform_core.Authorization.Access.Administrator.{HasAdministrator-map}
use editingtab_platform_core.Authorization.Access.Escalation.{rebase}
use editingtab_platform_core.Authorization.Access.Loops.{relisted}
use editingtab_platform_core.Authorization.Access.Strip.{
  Stripped, stripped_lem, before_membership_archive-Ensures,
}
use editingtab_platform_core.Authorization.Access.Writes.{audit-Ensures}
use editingtab_platform_core.Authorization.Services.Members.{
  write_membership, archive_current_member, archive_member_body,
}
use editingtab_platform_core.Storage.Tables.{Database, Env}
use editingtab_platform_core.Storage.Ensures.{
  Ensures, Ensures-reads, Ensures-family, Ensures-pure, Ensures-branch, Ensures-modify,
  Ensures-weaken,
}

-- A write to a membership that is on no chain.
kept-Chain :
    (db : Database) (organization_id key : ℕ) (f : Membership → Membership)
    (audits : List RoleAudit)
    → ((p : RolePermission) (u : User)
        → (c : Chain db organization_id p u) → (c.membership.id == key) ≡ false)
    → (p : RolePermission) (u : User) → Chain db organization_id p u
    → Chain
        (record db {
          memberships = update_where (λ (m : Membership). m.id == key) f db.memberships;
          role_audit = audits;
        })
        organization_id
        p
        u
kept-Chain db organization_id key f audits off p u c =
    rebase c c.p_row c.role c.role_row refl refl c.role_current c.assignment_row c.membership
      (Memᴰ-update_ne _ f db.memberships c.membership_row (off p u c)) refl refl refl
      c.membership_current c.user_row c.organization_row

module _ (organization_id actor_id : ℕ) (db : Database) where
  pub archive_member_body-HasAdministrator :
      (env : Env) (membership_id : ℕ)
      → HasAdministrator db organization_id
      → Ensures
          (λ _ db'. HasAdministrator db' organization_id)
          (archive_member_body env organization_id actor_id membership_id db)
  unfolding archive_member_body archive_current_member write_membership member_audit
  archive_member_body-HasAdministrator env membership_id admin = Ensures-reads _ _ _ _ λ _ _.
      Ensures-reads _ _ _ _ λ row _.
        Ensures-branch _ _ _ _ _ (λ _. Ensures-pure _ _ _ admin)
          (λ _.
            Ensures-family _ (Stripped db organization_id _) (relisted db) _ _ _
              (before_membership_archive-Ensures organization_id row.0.id actor_id db)
              λ _ i s. Ensures-modify _ _ _ _ (
                Ensures-weaken _ _ _
                  (λ _ db' (_, e).
                    subst (λ x. HasAdministrator x organization_id) (sym e)
                      (HasAdministrator-map
                        (kept-Chain (relisted db i) organization_id row.0.id _ _
                          (stripped_lem db organization_id row.0.id i s.0))
                        (s.1 admin)))
                  (audit-Ensures _ _ _ _ _ _ _ _)))
