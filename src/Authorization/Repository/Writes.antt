-- ===== src/Authorization/Repository/Writes.antt =====
-- The writes of the authorization tables, with the tables' keys and constraints.
use editingtab_platform_core.Shared.{
  ℕ, Bool, false, List, [], ◌∷◌, ◌++◌, map, Option, some, String, Text, str_eq, str_le, text_eq,
  ◌&&◌, not, any, order_by, update_where, delete_where, ◌==◌,
}
use editingtab_platform_core.Errors.{
  integrity_error, other_constraint, uq_core_roles_name, core_membership_roles_pkey,
}
use editingtab_platform_core.Identity.Models.{Membership}
use editingtab_platform_core.Authorization.Models.{
  PermissionDefinition, Role, RolePermission, MembershipRole, Permissions,
}
use editingtab_platform_core.Storage.Tables.{Database}
use editingtab_platform_core.Storage.Exec.{Exec, gets, modify, pure, require, ◌>>=◌, ◌>>◌}

-- Equal provisioning kinds; a missing one is equal to none.
abbrev pub same_kind : Option String → Option String → Bool
same_kind (some k) (some j) = str_eq k j
same_kind _ _ = false

-- The insert of a role: its key, and in its organization its name and its kind, are unique.
unfoldable pub insert_role : Role → Exec Database (Unit {0})
insert_role row = do
  db ← gets (λ db. db)
  require (not (any (λ (r : Role). r.id == row.id) db.roles)) (integrity_error other_constraint)
  require
      (not (
        any
          (λ (r : Role).
            r.organization_id == row.organization_id
            && text_eq r.normalized_name row.normalized_name)
          db.roles))
      (integrity_error uq_core_roles_name)
  require
      (not (
        any
          (λ (r : Role).
            r.organization_id == row.organization_id
            && same_kind r.provisioning_kind row.provisioning_kind)
          db.roles))
      (integrity_error other_constraint)
  modify (λ db. record db { roles = db.roles ++ row ∷ [] })

-- The insert of an assignment: its key is unique, and the member and the role exist.
unfoldable pub insert_assignment : MembershipRole → Exec Database (Unit {0})
insert_assignment row = do
  db ← gets (λ db. db)
  require
      (not (
        any
          (λ (a : MembershipRole).
            a.organization_id == row.organization_id
            && (a.membership_id == row.membership_id && a.role_id == row.role_id))
          db.membership_roles))
      (integrity_error core_membership_roles_pkey)
  require
      (any
          (λ (m : Membership).
            m.id == row.membership_id && m.organization_id == row.organization_id)
          db.memberships
        && any (λ (r : Role). r.id == row.role_id && r.organization_id == row.organization_id)
            db.roles)
      (integrity_error other_constraint)
  modify (λ db. record db { membership_roles = db.membership_roles ++ row ∷ [] })

-- The insert of permission rows: the registry holds each code as active and assignable, and the
-- role exists.
unfoldable pub insert_permissions : List RolePermission → Exec Database (Unit {0})
insert_permissions [] = modify (λ db. db)
insert_permissions (row ∷ rows) = do
  db ← gets (λ db. db)
  require
      (any
          (λ (d : PermissionDefinition).
            str_eq d.code row.code && (d.organization_assignable && str_eq d.lifecycle "active"))
          db.permission_definitions
        && any (λ (r : Role). r.id == row.role_id && r.organization_id == row.organization_id)
            db.roles)
      (integrity_error other_constraint)
  modify (λ db. record db { role_permissions = db.role_permissions ++ row ∷ [] })
  insert_permissions rows

-- The sorted items of a dict of permissions.
unfoldable pub permission_state : Permissions → Permissions
permission_state permissions = order_by (λ (a b : String × Bool). str_le a.0 b.0) permissions

unfoldable pub replace_permissions : ℕ → ℕ → Permissions → Exec Database (Unit {0})
unfolding insert_permissions permission_state
replace_permissions organization_id role_id permissions = do
  modify (λ db. record db {
    role_permissions =
        delete_where
          (λ (p : RolePermission). p.organization_id == organization_id && p.role_id == role_id)
          db.role_permissions;
  })
  insert_permissions (
      map
        (λ (item : String × Bool). record {
          organization_id = organization_id;
          role_id = role_id;
          code = item.0;
          can_grant = item.1;
        })
        (permission_state permissions))

unfoldable pub audit :
    ℕ → ℕ → String → ℕ → Permissions → Permissions → Option ℕ → Exec Database (Unit {0})
unfolding permission_state
audit organization_id actor_id action target_id before after membership_id = modify (λ db.
    record db {
      role_audit =
          db.role_audit
          ++ (record {
            organization_id = organization_id;
            actor_id = actor_id;
            action = action;
            target_id = target_id;
            membership_id = membership_id;
            permissions_before = permission_state before;
            permissions_after = permission_state after;
          })
            ∷ [];
    })

unfoldable pub member_audit : ℕ → ℕ → String → ℕ → ℕ → Exec Database (Unit {0})
unfolding audit
member_audit organization_id actor_id action membership_id user_id =
    audit organization_id actor_id action user_id [] [] (some membership_id)

-- A role's new name: in its organization names are unique.
unfoldable pub rename_role : Role → Text → Text → ℕ → Exec Database Role
rename_role role display normalized updated_at = do
  db ← gets (λ db. db)
  require
      (not (
        any
          (λ (r : Role).
            r.organization_id == role.organization_id
            && (not (r.id == role.id) && text_eq r.normalized_name normalized))
          db.roles))
      (integrity_error uq_core_roles_name)
  modify (λ db. record db {
    roles =
        update_where (λ (r : Role). r.id == role.id)
          (λ r. record r { name = display; normalized_name = normalized; updated_at = updated_at })
          db.roles;
  })
  pure (record role { name = display; normalized_name = normalized; updated_at = updated_at })

-- `session.delete(assignment)`
unfoldable pub delete_assignment : MembershipRole → Exec Database (Unit {0})
delete_assignment row = modify (λ db. record db {
  membership_roles =
      delete_where
        (λ (a : MembershipRole).
          a.organization_id == row.organization_id
          && (a.membership_id == row.membership_id && a.role_id == row.role_id))
        db.membership_roles;
})
