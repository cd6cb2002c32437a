-- ===== src/Authorization/Access/Writes.antt =====
-- What each write of the authorization tables leaves, as an equation for the whole database.
use editingtab_platform_core.Shared.{
  ℕ, Bool, true, List, [], ◌∷◌, ◌++◌, map, String, Text, Option, ◌≡◌, refl, sym, ap, ◌∙◌, any, not,
  ◌&&◌, ◌==◌, update_where, delete_where,
}
use mathlib.Core.List.{append_assoc, append-nil}
use editingtab_platform_core.Authorization.Models.{
  Role, RolePermission, MembershipRole, Permissions,
}
use editingtab_platform_core.Authorization.Repository.{
  insert_role, insert_assignment, insert_permissions, replace_permissions, permission_state, audit,
  rename_role, delete_assignment,
}
use editingtab_platform_core.Storage.Tables.{Database}
use editingtab_platform_core.Storage.Ensures.{
  Ensures, Ensures-gets, Ensures-require, Ensures-modify, Ensures-pure, Ensures-modify_last,
  Ensures-weaken,
}

-- The rows that a dict of permissions stands for.
abbrev pub permission_rows : ℕ → ℕ → Permissions → List RolePermission
permission_rows organization_id role_id permissions =
    map
      (λ (item : String × Bool). record {
        organization_id = organization_id;
        role_id = role_id;
        code = item.0;
        can_grant = item.1;
      })
      permissions

-- The rows of one role.
abbrev pub of_role : ℕ → ℕ → RolePermission → Bool
of_role organization_id role_id p = p.organization_id == organization_id && p.role_id == role_id

insert_permissions-Ensures :
    (rows : List RolePermission) (db : Database)
    → Ensures
        (λ _ db'. db' ≡ record db { role_permissions = db.role_permissions ++ rows })
        (insert_permissions rows db)
unfolding insert_permissions
insert_permissions-Ensures [] db = Ensures-modify_last _ _ _ (
    ap (λ (x : List RolePermission). record db { role_permissions = x })
      (sym (append-nil db.role_permissions)))
insert_permissions-Ensures (row ∷ rows) db = Ensures-gets _ _ _ _ (
    Ensures-require _ _ _ _ _ λ _. Ensures-modify _ _ _ _ (
      Ensures-weaken _ _ _
        (λ _ db' e.
          e
          ∙ ap (λ (x : List RolePermission). record db { role_permissions = x })
              (append_assoc db.role_permissions (row ∷ []) rows))
        (insert_permissions-Ensures rows
          (record db { role_permissions = db.role_permissions ++ row ∷ [] }))))

-- The role has exactly the given permissions, and no other row changes.
pub replace_permissions-Ensures :
    (organization_id role_id : ℕ) (permissions : Permissions) (db : Database)
    → Ensures
        (λ _ db'.
          Unit {0}
          × (db' ≡ record db {
            role_permissions =
                delete_where (of_role organization_id role_id) db.role_permissions
                ++ permission_rows organization_id role_id (permission_state permissions);
          }))
        (replace_permissions organization_id role_id permissions db)
unfolding replace_permissions
replace_permissions-Ensures organization_id role_id permissions db =
    Ensures-modify _ _ _ _
      (Ensures-weaken _ _ _ (λ _ _ e. (tt, e)) (insert_permissions-Ensures _ _))

pub insert_role-Ensures :
    (row : Role) (db : Database)
    → Ensures
        (λ _ db'.
          (not (any (λ (r : Role). r.id == row.id) db.roles) ≡ true)
          × (db' ≡ record db { roles = db.roles ++ row ∷ [] }))
        (insert_role row db)
unfolding insert_role
insert_role-Ensures row db = Ensures-gets _ _ _ _ (
    Ensures-require _ _ _ _ _ λ fresh.
      Ensures-require _ _ _ _ _
        λ _. Ensures-require _ _ _ _ _ λ _. Ensures-modify_last _ _ _ (fresh, refl))

pub insert_assignment-Ensures :
    (row : MembershipRole) (db : Database)
    → Ensures
        (λ _ db'.
          Unit {0} × (db' ≡ record db { membership_roles = db.membership_roles ++ row ∷ [] }))
        (insert_assignment row db)
unfolding insert_assignment
insert_assignment-Ensures row db = Ensures-gets _ _ _ _ (
    Ensures-require _ _ _ _ _
      λ _. Ensures-require _ _ _ _ _ λ _. Ensures-modify_last _ _ _ (tt, refl))

-- A renamed role.
abbrev pub renamed : Text → Text → ℕ → Role → Role
renamed display normalized updated_at r = record r {
  name = display;
  normalized_name = normalized;
  updated_at = updated_at;
}

pub rename_role-Ensures :
    (role : Role) (display normalized : Text) (updated_at : ℕ) (db : Database)
    → Ensures
        (λ r db'.
          (r ≡ renamed display normalized updated_at role)
          × (db' ≡ record db {
            roles =
                update_where
                  (λ (r : Role). r.id == role.id)
                  (renamed display normalized updated_at)
                  db.roles;
          }))
        (rename_role role display normalized updated_at db)
unfolding rename_role
rename_role-Ensures role display normalized updated_at db =
    Ensures-gets _ _ _ _
      (Ensures-require _ _ _ _ _ λ _. Ensures-modify _ _ _ _ (Ensures-pure _ _ _ (refl, refl)))

-- The audit table with one more row.
abbrev pub audited : Database → ℕ → ℕ → String → ℕ → Permissions → Permissions → Option ℕ → Database
audited db organization_id actor_id action target_id before after membership_id = record db {
  role_audit =
      db.role_audit
      ++ (record {
        organization_id = organization_id;
        actor_id = actor_id;
        action = action;
        target_id = target_id;
        membership_id = membership_id;
        permissions_before = permission_state before;
        permissions_after = permission_state after;
      })
        ∷ [];
}

pub audit-Ensures :
    (organization_id actor_id : ℕ) (action : String) (target_id : ℕ) (before after : Permissions)
    (membership_id : Option ℕ) (db : Database)
    → Ensures
        (λ _ db'.
          Unit {0}
          × (db' ≡ audited db organization_id actor_id action target_id before after membership_id))
        (audit organization_id actor_id action target_id before after membership_id db)
unfolding audit
audit-Ensures organization_id actor_id action target_id before after membership_id db =
    Ensures-modify_last _ _ _ (tt, refl)

-- The rows but for one assignment.
abbrev pub same_assignment : MembershipRole → MembershipRole → Bool
same_assignment row a =
    a.organization_id == row.organization_id
    && (a.membership_id == row.membership_id && a.role_id == row.role_id)

pub delete_assignment-Ensures :
    (row : MembershipRole) (db : Database)
    → Ensures
        (λ _ db'.
          Unit {0}
          × (db' ≡ record db {
            membership_roles = delete_where (same_assignment row) db.membership_roles;
          }))
        (delete_assignment row db)
unfolding delete_assignment
delete_assignment-Ensures row db = Ensures-modify_last _ _ _ (tt, refl)
