-- ===== src/Authorization/Access/Archiving.antt =====
-- `archive_role` against what it checks and what it leaves.
pub mod Hook
pub mod Members
use editingtab_platform_core.Shared.{
  ℕ, Bool, true, false, String, ◌||◌, is_some, is_none→≡, text_eq_refl, Bool-cases, if◌then◌else◌,
  List, Memᴰ, Option, none, some, Text, codes, text_eq, ◌≡◌, ◌≢◌, refl, sym, ◌∙◌, ap, subst, ◌⊎◌,
  inl, inr, ◌&&◌, ◌==◌, ==→≡, is_none, first-Memᴰ, update_where, update_cases, Memᴰ-where, arith,
}
use mathlib.Core.List.Memᴰ
use editingtab_platform_core.Outcome.{ok, err, or_raise-ok}
use editingtab_platform_core.Errors.{protected_role}
use editingtab_platform_core.Authorization.Models.{Role, RolePermission, MembershipRole, RoleAudit}
use editingtab_platform_core.Authorization.Policy.{role_archive}
use editingtab_platform_core.Authorization.Repository.{role_assignments, role_permission_grants}
use editingtab_platform_core.Authorization.Guards.{find_role, custom_role, system_managed}
use editingtab_platform_core.Authorization.Access.Effective.{MayUse, MayGrant}
use editingtab_platform_core.Authorization.Access.Authorize.{authorize_iff}
use editingtab_platform_core.Authorization.Access.Escalation.Granting.{
  AllGrantable, grantable-AllGrantable,
}
use editingtab_platform_core.Authorization.Access.Escalation.Assignments.{
  role_permission_grants-row,
}
use editingtab_platform_core.Authorization.Access.Loops.{
  Removed, RemovedFrom, relisted, remove_assignments-Ensures,
}
use editingtab_platform_core.Authorization.Access.Writes.{audit-Ensures}
use editingtab_platform_core.Authorization.Services.Assignments.{archive_role_body}
use editingtab_platform_core.Authorization.Services.Api.{archive_role}
use editingtab_platform_core.Authorization.Services.Transaction.{transaction-Ensures}
use editingtab_platform_core.Storage.Tables.{Database, Session, Env}
use editingtab_platform_core.Storage.Ensures.{
  Ensures, Ensures-ok, Ensures-reads, Ensures-gets, Ensures-family, Ensures-modify, Ensures-weaken,
}

-- A role that its organization made: neither provisioned nor the owner's.
pub record IsCustom (role : Role) : Type 0 where
  pub unprovisioned : role.provisioning_kind ≡ none
  pub not_owner : role.normalized_name ≢ codes "organization owner"

-- The tables before and after a role is archived. Before, the role was current and custom, the
-- actor could archive roles and grant every permission of the role; after, no row of its key is
-- current, and nobody is assigned to it.
pub record ArchivedRole (organization_id actor_id role_id : ℕ) (before after : Database)
    : Type 0 where
  pub allowed : MayUse before organization_id actor_id role_archive
  pub role : Role
  pub row : Memᴰ role before.roles
  pub key : role.id ≡ role_id
  pub organization : role.organization_id ≡ organization_id
  pub current : role.deleted_at ≡ none
  pub custom : IsCustom role
  pub granted :
      (p : RolePermission)
      → Memᴰ p before.role_permissions
      → p.organization_id ≡ organization_id
      → p.role_id ≡ role_id
      → MayGrant before organization_id actor_id p.code
  pub archived : (r : Role) → Memᴰ r after.roles → r.id ≡ role_id → r.deleted_at ≢ none
  pub unassigned :
      (a : MembershipRole)
      → Memᴰ a after.membership_roles
      → a.organization_id ≡ organization_id
      → a.role_id ≢ role_id

neither : (t : Bool) (o : Option String) → (t || is_some o) ≡ false → (t ≡ false) × (o ≡ none)
neither false none e = (refl, refl)
neither false (some x) e = cc
neither true o e = cc

unmanaged-IsCustom : (role : Role) → system_managed role ≡ false → IsCustom role
unfolding system_managed
unmanaged-IsCustom role t =
    let owner : Text = codes "organization owner" in
    let (n, k) = neither (text_eq role.normalized_name owner) role.provisioning_kind t in
    record {
      unprovisioned = k;
      not_owner = λ e.
          absurd
            (ground (arith, n, subst (λ x. text_eq x owner ≡ true) (sym e) (text_eq_refl owner)));
    }

custom_role-IsCustom :
    {found role : Role} → custom_role found ≡ ok role → IsCustom found × (found ≡ role)
unfolding custom_role
custom_role-IsCustom {found} {role} e = elim (Bool-cases (system_managed found)) [
  | inl t ↦ refused (rw t at e)
  | inr t ↦ (unmanaged-IsCustom found t, same (rw t at e))
]
  where
    refused : {C : Type 0} → err protected_role ≡ ok role → C
    refused k = cc

    same : ok found ≡ ok role → found ≡ role
    same k = ground arith

module _ (organization_id actor_id role_id : ℕ) (db : Database) where
  archived_rows :
      (key at : ℕ) (r : Role)
      → key ≡ role_id
      → Memᴰ r (
          update_where
            (λ (r : Role). r.id == key)
            (λ r. record r { deleted_at = some at })
            db.roles)
      → r.id ≡ role_id
      → r.deleted_at ≢ none
  archived_rows key at r same m e gone = let (q, k, c) = update_cases _ _ db.roles m in go q c
    where
      go :
          (q : Role)
          → ((r ≡ record q { deleted_at = some at }) × ((q.id == key) ≡ true))
            ⊎ ((r ≡ q) × ((q.id == key) ≡ false))
          → ⊥
      go q (inl (c, _)) = absurd (ground (arith, ap (λ (x : Role). x.deleted_at) c, gone))
      go q (inr (c, t)) = absurd (ground (arith, ap (λ (x : Role). x.id) c, e, same, t))

  unassigned_rows :
      (i : List MembershipRole × List RoleAudit)
      → RemovedFrom db (role_assignments db organization_id role_id) i
      → (a : MembershipRole) → Memᴰ a i.0
      → a.organization_id ≡ organization_id
      → a.role_id ≢ role_id
  unfolding role_assignments
  unassigned_rows i r a m o e =
      let k =
        Memᴰ-where
          (λ (a : MembershipRole). a.organization_id == organization_id && a.role_id == role_id)
          db.membership_roles (r.was a m) (ground (arith, o, e)) in
      absurd (ground (arith, r.not_gone a a m k))

  archive_role_body-ArchivedRole :
      (env : Env)
      → Ensures
          (λ _ db'. ArchivedRole organization_id actor_id role_id db db')
          (archive_role_body env organization_id actor_id role_id db)
  unfolding archive_role_body find_role
  archive_role_body-ArchivedRole env = Ensures-reads _ _ _ _ λ o auth. Ensures-gets _ _ _ _ (
      Ensures-reads _ _ _ _ λ found ef. Ensures-reads _ _ _ _ λ role er. Ensures-gets _ _ _ _ (
        Ensures-reads _ _ _ _ λ _ g. Ensures-gets _ _ _ _ (
          Ensures-family _ (RemovedFrom db _) (relisted db) _ _ _
            (remove_assignments-Ensures _ _ _ _ _ _)
            λ _ i r. Ensures-modify _ _ _ _ (
              Ensures-reads _ _ _ _ λ _ _.
                let (m, t) = first-Memᴰ _ db.roles (or_raise-ok _ _ ef) in
                let (custom, same) = custom_role-IsCustom er in
                Ensures-weaken _ _ _
                  (λ _ db' (_, e).
                    subst (ArchivedRole organization_id actor_id role_id db) (sym e) (record {
                      allowed =
                          ((authorize_iff db organization_id actor_id role_archive o).0 auth).1;
                      role = found;
                      row = m;
                      key = ground (arith, t);
                      organization = ground (arith, t);
                      current = is_none→≡ _ (ground (arith, t));
                      custom = custom;
                      granted = λ p k po pr.
                          grantable-AllGrantable db organization_id actor_id _ g
                            (p.code, p.can_grant)
                            (role_permission_grants-row db organization_id role_id k
                              (ground (arith, po, pr)));
                      archived = λ q k.
                          archived_rows role.id env.utc_now q
                            (ap (λ (x : Role). x.id) (sym same) ∙ ground (arith, t)) k;
                      unassigned = unassigned_rows i r;
                    }))
                  (audit-Ensures _ _ _ _ _ _ _ _)))))

-- When `archive_role` returns, the role was a current and custom one of the organization, neither
-- provisioned nor the owner's, the actor could archive roles and grant every permission of the
-- role, and in the committed tables no row of its key is current and no assignment of it is left.
pub archive_role-ArchivedRole :
    (organization_id actor_id : ℕ) (s : Session) (env : Env) (role_id : ℕ)
    → (archive_role env organization_id actor_id role_id s).0 ≡ ok tt
    → ArchivedRole organization_id actor_id role_id s.database
        (archive_role env organization_id actor_id role_id s).1.database
unfolding archive_role
archive_role-ArchivedRole organization_id actor_id s env role_id returned =
    Ensures-ok (λ _ s'. ArchivedRole organization_id actor_id role_id s.database s'.database)
      (archive_role env organization_id actor_id role_id s)
      (transaction-Ensures _ (λ _ db'. ArchivedRole organization_id actor_id role_id s.database db')
        s (archive_role_body-ArchivedRole organization_id actor_id role_id s.database env))
      returned
