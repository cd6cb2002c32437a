-- ===== src/Platform/BookingGrants.antt =====
-- The chains after a booking role is designated (platform/booking_permissions.py).
pub mod Provision
use editingtab_platform_core.Shared.{
  ℕ, Bool, true, false, not, List, [], ◌∷◌, ◌++◌, map, Memᴰ, Option, none, some, String, str_eq,
  str_eq→≡, all, all-Memᴰ, delete_where, delete-Memᴰ, update_where, order_by-Memᴰ, contains,
  contains-Memᴰ, ◌&&◌, ◌==◌, &&-left, ◌≡◌, refl, sym, ap, ◌∙◌, subst, ◌⊎◌, inl, inr, Bool-cases,
  if◌then◌else◌, arith,
}
use mathlib.Core.List.Memᴰ
use editingtab_platform_core.Errors.{storage_unavailable}
use editingtab_platform_core.Identity.Models.{User}
use editingtab_platform_core.Authorization.Models.{
  Role, RolePermission, MembershipRole, RoleAudit, Permissions,
}
use editingtab_platform_core.Authorization.Policy.{booking_permissions}
use editingtab_platform_core.Authorization.Repository.{
  role_permission_grants, permission_state, rename_role,
}
use editingtab_platform_core.Authorization.Guards.{from_keys}
use editingtab_platform_core.Authorization.Services.Rows.{write_role, dict_get, same_grant}
use editingtab_platform_core.Authorization.Services.Transaction.{transaction, translate}
use editingtab_platform_core.Authorization.Access.Chain.{Chain}
use editingtab_platform_core.Authorization.Access.Effective.{MayUse, MayGrant}
use editingtab_platform_core.Authorization.Access.Escalation.{rebase}
use editingtab_platform_core.Authorization.Access.Escalation.Granting.{update_source}
use editingtab_platform_core.Authorization.Access.Escalation.Assignments.{
  role_permission_grants-row,
}
use editingtab_platform_core.Authorization.Access.Writes.{
  permission_rows, of_role, insert_role-Ensures, insert_assignment-Ensures, rename_role-Ensures,
  replace_permissions-Ensures, audit-Ensures,
}
use editingtab_platform_core.Platform.Models.{PlatformAudit}
use editingtab_platform_core.Platform.Services.Modules.{platform_audit}
use editingtab_platform_core.Platform.BookingPermissions.{
  booking_grants, dict_eq, designate, replace_if_changed, assign_if_missing, audit_provision,
  provision_body, provision,
}
use editingtab_platform_core.Storage.Tables.{Database, Session, Env}
use editingtab_platform_core.Storage.Ensures.{
  Ensures, Ensures-reads, Ensures-gets, Ensures-step, Ensures-rows, Ensures-family, Ensures-branch,
  Ensures-require, Ensures-modify, Ensures-modify_last, Ensures-pure, Ensures-weaken,
  transact-committed,
}

-- A booking permission that its holder may not grant.
abbrev pub IsBookingUse : RolePermission → Type 0
IsBookingUse p = Memᴰ p.code booking_permissions × (p.can_grant ≡ false)

booking_grants-false :
    (codes : List String) {item : String × Bool}
    → Memᴰ item (from_keys codes false)
    → Memᴰ item.0 codes × (item.1 ≡ false)
booking_grants-false codes m =
    let (c, k, e) = Memᴰ.of_map _ _ m in
    (Memᴰ.cast (sym (ap (λ (i : String × Bool). i.0) e)) k, sym (ap (λ (i : String × Bool). i.1) e))

dict_get-false :
    (codes : List String) (code : String) (grant : Bool)
    → same_grant (dict_get code (from_keys codes false)) grant ≡ true
    → Memᴰ code codes × (grant ≡ false)
unfolding dict_get
dict_get-false [] code grant e = cc
dict_get-false (c ∷ codes) code grant e = elim (Bool-cases (str_eq c code)) [
  | inl t ↦ (Memᴰ.head (sym (str_eq→≡ c code t)), here grant (rw t at e))
  | inr t ↦ let (m, f) = dict_get-false codes code grant (rw t at e) in (Memᴰ.tail m, f)
]
  where
    here : (grant : Bool) → not grant ≡ true → grant ≡ false
    here grant e = ground arith

module _ (db : Database) (organization_id role_id : ℕ) where
  -- A role of the tables before, as far as chains read it, or the designated one.
  abbrev RoleOrigin : Role → Type 0
  RoleOrigin r =
      ((q : Role) × Memᴰ q db.roles
        × (q.id ≡ r.id)
        × (q.organization_id ≡ r.organization_id)
        × (q.deleted_at ≡ r.deleted_at))
      ⊎ ((r.id ≡ role_id) × (r.organization_id ≡ organization_id))

  abbrev Roles : List Role → Type 0
  Roles rs = (r : Role) → Memᴰ r rs → RoleOrigin r

  abbrev Rows : List RolePermission → Type 0
  Rows ps =
      (p : RolePermission)
      → Memᴰ p ps
      → (Memᴰ p db.role_permissions × (of_role organization_id role_id p ≡ false)) ⊎ IsBookingUse p

  abbrev Assigned : List MembershipRole → Type 0
  Assigned ms =
      (a : MembershipRole)
      → Memᴰ a ms
      → Memᴰ a db.membership_roles ⊎ ((a.role_id ≡ role_id) × (a.organization_id ≡ organization_id))

  -- The chains of tables that differ so are those from before, but for booking permissions.
  provisioned-Chain :
      (rs : List Role) (ps : List RolePermission) (ms : List MembershipRole)
      (audits : List RoleAudit) (platform : List PlatformAudit)
      → Roles rs
      → Rows ps
      → Assigned ms
      → (o : ℕ) (p : RolePermission) (u : User)
      → Chain
          (record db {
            roles = rs;
            role_permissions = ps;
            membership_roles = ms;
            role_audit = audits;
            platform_audit = platform;
          })
          o
          p
          u
      → Chain db o p u ⊎ IsBookingUse p
  provisioned-Chain rs ps ms audits platform roles rows assigned o p u c = go (rows p c.p_row)
    where
      go :
          (Memᴰ p db.role_permissions × (of_role organization_id role_id p ≡ false))
            ⊎ IsBookingUse p
          → Chain db o p u ⊎ IsBookingUse p
      go (inr b) = inr b
      go (inl (m, other)) =
          inl (old_role (roles c.role c.role_row) (assigned c.assignment c.assignment_row))
        where
          old_role :
              RoleOrigin c.role
              → Memᴰ c.assignment db.membership_roles
                ⊎ ((c.assignment.role_id ≡ role_id)
                    × (c.assignment.organization_id ≡ organization_id))
              → Chain db o p u
          old_role (inr (e, f)) k =
              absurd (ground (arith, c.role_id, c.role_organization, e, f, other))
          old_role (inl k) (inr (e, f)) = absurd (
              ground (
                arith, c.role_id, c.role_organization, c.assignment_role, c.assignment_organization,
                e, f, other,
              ))
          old_role (inl (q, mq, e1, e2, e3)) (inl k) =
              rebase c m q mq e1 e2 (e3 ∙ c.role_current) k c.membership c.membership_row refl refl
                refl c.membership_current c.user_row c.organization_row

  -- A role that is written keeps its origin.
  written-Roles :
      (rs : List Role) (key : ℕ) (f : Role → Role)
      → ((q : Role)
          → ((f q).id ≡ q.id)
            × ((f q).organization_id ≡ q.organization_id)
            × ((f q).deleted_at ≡ q.deleted_at))
      → Roles rs
      → Roles (update_where (λ (r : Role). r.id == key) f rs)
  written-Roles rs key f keep roles r m =
      let (q, k, e1, e2, e3) = update_source (record db { roles = rs }) key f r keep m in
      go q e1 e2 e3 (roles q k)
    where
      go :
          (q : Role)
          → q.id ≡ r.id
          → q.organization_id ≡ r.organization_id
          → q.deleted_at ≡ r.deleted_at
          → RoleOrigin q
          → RoleOrigin r
      go q e1 e2 e3 (inl (o, m, f1, f2, f3)) = inl (o, m, f1 ∙ e1, f2 ∙ e2, f3 ∙ e3)
      go q e1 e2 e3 (inr (f1, f2)) = inr (sym e1 ∙ f1, sym e2 ∙ f2)

  same-Roles : Roles db.roles
  same-Roles r m = inl (r, m, refl, refl, refl)

-- What designating the role leaves: the roles from before, and the designated one.
designate-Ensures :
    (env : Env) (organization_id : ℕ) (named : Option ℕ) (designated : Option Role) (db : Database)
    → Ensures
        (λ found db'.
          (rs : List Role) × Roles db organization_id found.0.id rs
          × (db' ≡ record db { roles = rs }))
        (designate env organization_id named designated db)
unfolding designate
designate-Ensures env organization_id named none db = Ensures-require _ _ _ _ _ λ _.
    Ensures-step _ _ _ _ _ _ (insert_role-Ensures _ db)
      λ _ _. Ensures-pure _ _ _ (_, λ r m. appended (Memᴰ.append_cases db.roles m), refl)
  where
    appended :
        {r row : Role}
        → Memᴰ r db.roles ⊎ Memᴰ r (row ∷ [])
        → RoleOrigin db row.organization_id row.id r
    appended (inl m) = inl (_, m, refl, refl, refl)
    appended (inr m) = inr (
      ap (λ (x : Role). x.id) (Memᴰ.eq_of_singleton m),
      ap (λ (x : Role). x.organization_id) (Memᴰ.eq_of_singleton m),
    )
designate-Ensures env organization_id named (some role) db = Ensures-require _ _ _ _ _ λ _.
    Ensures-branch _ _ _ _ _
      (λ _. Ensures-require _ _ _ _ _ λ _.
        Ensures-step _ _ _ _ _ _ (rename_role-Ensures role _ _ env.utc_now db) λ renamed _.
          Ensures-pure _ _ _ (
            _,
            written-Roles db organization_id renamed.id db.roles role.id _ (λ q. (refl, refl, refl))
                (same-Roles db organization_id renamed.id),
            refl,
          ))
      (λ _.
        Ensures-require _ _ _ _ _
          λ _. Ensures-pure _ _ _ (db.roles, same-Roles db organization_id role.id, refl))
