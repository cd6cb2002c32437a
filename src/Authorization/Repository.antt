-- ===== src/Authorization/Repository.antt =====
-- authorization/repository.py: what members may do and grant, and the writes of roles.
mod Writes
unfoldable pub use Writes.{
  insert_role, insert_assignment, insert_permissions, replace_permissions, permission_state, audit,
  member_audit, rename_role, delete_assignment,
}
use editingtab_platform_core.Shared.{
  ℕ, Bool, true, false, List, [], ◌∷◌, map, String, Text, str_eq, str_le, ◌&&◌, ◌||◌, any, first,
  where_, join, order_by, contains, subset, is_none, ◌==◌, leb, if◌then◌else◌, text_eq, ltb,
}
use editingtab_platform_core.Identity.Models.{Organization, User, Membership}
use editingtab_platform_core.Authorization.Models.{
  PermissionDefinition, Role, RolePermission, MembershipRole, Permissions,
}
use editingtab_platform_core.Authorization.Policy.{administrator_permissions}
use editingtab_platform_core.Storage.Tables.{Database}

-- The current members of an active organization: the membership and the user are current too.
unfoldable pub active_members : Database → ℕ → List (Membership × User)
active_members db organization_id =
    join
      (where_ (λ (m : Membership). m.organization_id == organization_id && is_none m.deleted_at)
        db.memberships)
      (λ m.
        join
          (where_ (λ (u : User). u.id == m.user_id && (is_none u.deleted_at && u.is_active))
            db.users)
          (λ u.
            join
              (where_ (λ (o : Organization). o.id == m.organization_id && is_none o.deleted_at)
                db.organizations)
              (λ _. (m, u) ∷ [])))

-- The members of an active organization, archived memberships and inactive users included.
unfoldable pub members : Database → ℕ → List (Membership × User)
members db organization_id =
    join (where_ (λ (m : Membership). m.organization_id == organization_id) db.memberships) (λ m.
      join (where_ (λ (u : User). u.id == m.user_id && is_none u.deleted_at) db.users) (λ u.
        join
          (where_ (λ (o : Organization). o.id == m.organization_id && is_none o.deleted_at)
            db.organizations)
          (λ _. (m, u) ∷ [])))

-- The rows of `permission_query`: a permission of a current role that a current assignment gives
-- to a current member, with the user.
unfoldable pub permission_query : Database → ℕ → List (RolePermission × User)
permission_query db organization_id =
    join (where_ (λ (p : RolePermission). p.organization_id == organization_id) db.role_permissions)
      (λ p.
        join
          (where_
            (λ (r : Role).
              (r.id == p.role_id && r.organization_id == p.organization_id) && is_none r.deleted_at)
            db.roles)
          (λ r.
            join
              (where_
                (λ (a : MembershipRole).
                  a.role_id == r.id && a.organization_id == r.organization_id)
                db.membership_roles)
              (λ a.
                join
                  (where_
                    (λ (m : Membership).
                      (m.id == a.membership_id && m.organization_id == a.organization_id)
                      && is_none m.deleted_at)
                    db.memberships)
                  (λ m.
                    join
                      (where_
                        (λ (u : User). u.id == m.user_id && (is_none u.deleted_at && u.is_active))
                        db.users)
                      (λ u.
                        join
                          (where_
                            (λ (o : Organization).
                              o.id == m.organization_id && is_none o.deleted_at)
                            db.organizations)
                          (λ _. (p, u) ∷ []))))))

-- `frozenset(codes)`
unfoldable pub frozenset : List String → List String
frozenset [] = []
frozenset (c ∷ cs) = let rest = frozenset cs in if contains rest c then rest else c ∷ rest

unfoldable pub effective_permissions : Database → ℕ → ℕ → List String
unfolding frozenset
effective_permissions db organization_id actor_id = frozenset (
    map (λ (row : RolePermission × User). row.0.code)
      (where_ (λ (row : RolePermission × User). row.1.id == actor_id)
        (permission_query db organization_id)))

unfoldable pub effective_grant_authority : Database → ℕ → ℕ → List String
unfolding frozenset
effective_grant_authority db organization_id actor_id = frozenset (
    map (λ (row : RolePermission × User). row.0.code)
      (where_ (λ (row : RolePermission × User). row.1.id == actor_id && row.0.can_grant)
        (permission_query db organization_id)))

-- The requested codes that the registry holds as active and assignable.
unfoldable pub assignable_permission_codes : Database → List String → List String
assignable_permission_codes db requested =
    map (λ (d : PermissionDefinition). d.code)
      (where_
        (λ (d : PermissionDefinition).
          contains requested d.code && (d.organization_assignable && str_eq d.lifecycle "active"))
        db.permission_definitions)

abbrev pub catalog_order : PermissionDefinition → PermissionDefinition → Bool
catalog_order d e =
    if str_eq d.module_name e.module_name
    then str_le d.code e.code
    else str_le d.module_name e.module_name

unfoldable pub permission_catalog : Database → List PermissionDefinition
permission_catalog db = order_by catalog_order (
    where_ (λ (d : PermissionDefinition). d.organization_assignable && str_eq d.lifecycle "active")
      db.permission_definitions)

-- Some current member may use and grant every administrator permission.
unfoldable pub has_administrator : Database → ℕ → Bool
has_administrator db organization_id =
    any
      (λ user_id.
        subset administrator_permissions (effective_permissions db organization_id user_id)
        && subset administrator_permissions (effective_grant_authority db organization_id user_id))
      (map (λ (row : Membership × User). row.1.id) (active_members db organization_id))

-- The rows' primary key makes the dict's keys distinct.
unfoldable pub role_permission_grants : Database → ℕ → ℕ → Permissions
role_permission_grants db organization_id role_id =
    map (λ (p : RolePermission). (p.code, p.can_grant))
      (where_ (λ (p : RolePermission). p.organization_id == organization_id && p.role_id == role_id)
        db.role_permissions)

-- `a <= b` on texts, by code points.
unfoldable pub text_le : Text → Text → Bool
text_le [] t = true
text_le (a ∷ s) [] = false
text_le (a ∷ s) (b ∷ t) = ltb a b || (a == b && text_le s t)

abbrev pub role_order : Role → Role → Bool
role_order r q = if text_eq r.name q.name then leb r.id q.id else text_le r.name q.name

-- The current roles of a member, by name.
unfoldable pub membership_roles : Database → ℕ → ℕ → List Role
unfolding text_le
membership_roles db organization_id membership_id = order_by role_order (
    join (where_ (λ (r : Role). is_none r.deleted_at) db.roles) (λ r.
      join
        (where_
          (λ (a : MembershipRole).
            (a.role_id == r.id && a.organization_id == r.organization_id)
            && (a.organization_id == organization_id && a.membership_id == membership_id))
          db.membership_roles)
        (λ _. r ∷ [])))

unfoldable pub role_assignments : Database → ℕ → ℕ → List MembershipRole
role_assignments db organization_id role_id =
    where_ (λ (a : MembershipRole). a.organization_id == organization_id && a.role_id == role_id)
      db.membership_roles

-- `session.get(MembershipRole, key)`
unfoldable pub has_assignment : Database → ℕ → ℕ → ℕ → Bool
has_assignment db organization_id membership_id role_id =
    any
      (λ (a : MembershipRole).
        a.organization_id == organization_id
        && (a.membership_id == membership_id && a.role_id == role_id))
      db.membership_roles
