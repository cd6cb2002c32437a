-- ===== src/Authorization/Access/Escalation/Granting.antt =====
-- The chains after one role or its permissions are written.
use editingtab_platform_core.Shared.{
  ℕ, Bool, true, false, List, [], ◌∷◌, ◌++◌, Memᴰ, String, ◌≡◌, refl, sym, ap, ◌∙◌, subst, ◌⊎◌, inl,
  inr, ◌==◌, update_where, delete_where, delete-Memᴰ, update_cases, order_by-Memᴰ, subset-Memᴰ,
  arith,
}
use mathlib.Core.List.Memᴰ
use editingtab_platform_core.Outcome.{ok, require-true}
use editingtab_platform_core.Identity.Models.{User}
use editingtab_platform_core.Authorization.Models.{Role, RolePermission, RoleAudit, Permissions}
use editingtab_platform_core.Authorization.Repository.{permission_state, effective_grant_authority}
use editingtab_platform_core.Authorization.Guards.{grantable, keys}
use editingtab_platform_core.Authorization.Access.Chain.{Chain}
use editingtab_platform_core.Authorization.Access.Effective.{
  MayGrant, effective_grant_authority_iff,
}
use editingtab_platform_core.Authorization.Access.Escalation.{NoNewChain, rebase}
use editingtab_platform_core.Authorization.Access.Writes.{permission_rows, of_role}
use editingtab_platform_core.Storage.Tables.{Database}

-- Each code of the dict is one that the actor may grant.
abbrev pub AllGrantable : Database → ℕ → ℕ → Permissions → Type 0
AllGrantable db organization_id actor_id permissions =
    (item : String × Bool) → Memᴰ item permissions → MayGrant db organization_id actor_id item.0

-- A dict that passed the check has only codes that the actor may grant.
pub grantable-AllGrantable :
    (db : Database) (organization_id actor_id : ℕ) (permissions : Permissions) {a : Unit {0}}
    → grantable (effective_grant_authority db organization_id actor_id) permissions ≡ ok a
    → AllGrantable db organization_id actor_id permissions
unfolding grantable
grantable-AllGrantable db organization_id actor_id permissions h item m =
    (effective_grant_authority_iff db organization_id actor_id).0 (
      subset-Memᴰ (keys permissions) _ (require-true _ _ h)
        (Memᴰ.map (λ (i : String × Bool). i.0) m))

-- A role row of the new table: it agrees with an old one, or it is the role that is written.
abbrev pub RoleOrigin : Database → ℕ → Role → Type 0
RoleOrigin db role_id r =
    ((q : Role) × Memᴰ q db.roles
      × (q.id ≡ r.id)
      × (q.organization_id ≡ r.organization_id)
      × (q.deleted_at ≡ r.deleted_at))
    ⊎ (r.id ≡ role_id)

module _ (db : Database) (organization_id actor_id role_id : ℕ) (after : Permissions)
    (roles : List Role) (audits : List RoleAudit)
    (granted : AllGrantable db organization_id actor_id after)
    (origin : (r : Role) → Memᴰ r roles → RoleOrigin db role_id r) where
  abbrev replaced : Database
  replaced = record db {
    roles = roles;
    role_permissions =
        delete_where (of_role organization_id role_id) db.role_permissions
        ++ permission_rows organization_id role_id (permission_state after);
    role_audit = audits;
  }

  new_row :
      (p : RolePermission)
      → Memᴰ p (permission_rows organization_id role_id (permission_state after))
      → MayGrant db organization_id actor_id p.code
  unfolding permission_state
  new_row p m =
      let (item, k, e) = Memᴰ.of_map _ _ m in
      subst (MayGrant db organization_id actor_id) (ap (λ (q : RolePermission). q.code) e)
        (granted item (order_by-Memᴰ _ after k))

  kept_row :
      (p : RolePermission) (u : User) (c : Chain replaced organization_id p u)
      → Memᴰ p db.role_permissions
      → of_role organization_id role_id p ≡ false
      → RoleOrigin db role_id c.role
      → Chain db organization_id p u
  kept_row p u c m other (inl (q, mq, e1, e2, e3)) =
      rebase c m q mq e1 e2 (e3 ∙ c.role_current) c.assignment_row c.membership c.membership_row
        refl refl refl c.membership_current c.user_row c.organization_row
  kept_row p u c m other (inr e) = absurd (ground (arith, c.role_id, c.p_organization))

  replaced_row :
      (p : RolePermission) (u : User) (c : Chain replaced organization_id p u)
      → Memᴰ p (delete_where (of_role organization_id role_id) db.role_permissions)
        ⊎ Memᴰ p (permission_rows organization_id role_id (permission_state after))
      → Chain db organization_id p u ⊎ MayGrant db organization_id actor_id p.code
  replaced_row p u c (inl m) =
      let (k, other) = delete-Memᴰ (of_role organization_id role_id) db.role_permissions m in
      inl (kept_row p u c k other (origin c.role c.role_row))
  replaced_row p u c (inr m) = inr (new_row p m)

  -- Replacing a role's permissions by ones that the actor may grant makes no other new chain.
  pub replaced-NoNewChain : NoNewChain db replaced organization_id actor_id
  replaced-NoNewChain p u c = replaced_row p u c (
      Memᴰ.append_cases (delete_where (of_role organization_id role_id) db.role_permissions)
        c.p_row)

-- A new role at the end of the table.
pub append-RoleOrigin :
    (db : Database) (row r : Role) → Memᴰ r db.roles ⊎ Memᴰ r (row ∷ []) → RoleOrigin db row.id r
append-RoleOrigin db row r (inl m) = inl (r, m, refl, refl, refl)
append-RoleOrigin db row r (inr m) = inr (ap (λ (q : Role). q.id) (Memᴰ.eq_of_singleton m))

-- A write to one role that keeps its keys and its archival.
pub update_source :
    (db : Database) (key : ℕ) (f : Role → Role) (r : Role)
    → ((q : Role)
        → ((f q).id ≡ q.id)
          × ((f q).organization_id ≡ q.organization_id)
          × ((f q).deleted_at ≡ q.deleted_at))
    → Memᴰ r (update_where (λ (q : Role). q.id == key) f db.roles)
    → (q : Role) × Memᴰ q db.roles
      × (q.id ≡ r.id)
      × (q.organization_id ≡ r.organization_id)
      × (q.deleted_at ≡ r.deleted_at)
update_source db key f r keep m =
    let (q, k, e) = update_cases _ f db.roles m in
    let (k1, k2, k3) = origin_keys q r e in (q, k, k1, k2, k3)
  where
    origin_keys :
        (q r : Role)
        → ((r ≡ f q) × ((q.id == key) ≡ true)) ⊎ ((r ≡ q) × ((q.id == key) ≡ false))
        → (q.id ≡ r.id) × (q.organization_id ≡ r.organization_id) × (q.deleted_at ≡ r.deleted_at)
    origin_keys q r (inl (e, _)) =
        let (k1, k2, k3) = keep q in
        (
          sym k1 ∙ ap (λ (x : Role). x.id) (sym e),
          sym k2 ∙ ap (λ (x : Role). x.organization_id) (sym e),
          sym k3 ∙ ap (λ (x : Role). x.deleted_at) (sym e),
        )
    origin_keys q r (inr (e, _)) = (
      ap (λ (x : Role). x.id) (sym e),
      ap (λ (x : Role). x.organization_id) (sym e),
      ap (λ (x : Role). x.deleted_at) (sym e),
    )
