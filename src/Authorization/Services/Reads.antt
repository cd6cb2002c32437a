-- ===== src/Authorization/Services/Reads.antt =====
-- authorization/services.py: the operations that only read.
use editingtab_platform_core.Shared.{
  ℕ, Bool, true, List, [], ◌∷◌, map, String, Text, ◌&&◌, where_, join, take, drop, order_by,
  is_none, is_some, str_le, leb, ◌==◌,
}
use editingtab_platform_core.Errors.{inaccessible}
use editingtab_platform_core.Outcome.{Outcome, ok, or_raise, ◌>>=◌, ◌>>◌}
use editingtab_platform_core.Identity.Models.{Organization, User, Membership}
use editingtab_platform_core.Authorization.Models.{PermissionDefinition, Role}
use editingtab_platform_core.Authorization.Repository.{
  members, effective_permissions, effective_grant_authority, permission_catalog,
}
use editingtab_platform_core.Authorization.Guards.{authorize, find_role}
use editingtab_platform_core.Authorization.Views.{
  RoleInfo, role_info, RoleDetail, role_detail, MemberInfo, member_info,
}
use editingtab_platform_core.Authorization.Services.Members.{find_member}
use editingtab_platform_core.Storage.Tables.{Database}

-- `.limit(limit).offset(offset)`
abbrev pub page {ℓ} : {A : Type ℓ} → ℕ → ℕ → List A → List A
page limit offset rows = take limit (drop offset rows)

pub record OrganizationInfo : Type 0 where
  pub id : ℕ
  pub name : Text
  pub slug : Text

unfoldable pub organization_info : Organization → OrganizationInfo
organization_info o = record { id = o.id; name = o.name; slug = o.slug }

-- The organizations of which the user is a current member, by key.
unfoldable pub organizations_of : Database → ℕ → List Organization
organizations_of db actor_id =
    order_by (λ (o q : Organization). leb o.id q.id)
      (join (where_ (λ (o : Organization). is_none o.deleted_at) db.organizations) (λ o.
        join
          (where_ (λ (m : Membership). m.organization_id == o.id && is_none m.deleted_at)
            db.memberships)
          (λ m.
            join
              (where_
                (λ (u : User).
                  u.id == m.user_id && (u.id == actor_id && (u.is_active && is_none u.deleted_at)))
                db.users)
              (λ _. o ∷ []))))

unfoldable pub list_organizations_body : ℕ → ℕ → ℕ → Database → Outcome (List OrganizationInfo)
unfolding organizations_of organization_info
list_organizations_body actor_id limit offset db =
    ok (map organization_info (page limit offset (organizations_of db actor_id)))

unfoldable pub read_organization_body : ℕ → ℕ → Database → Outcome OrganizationInfo
unfolding organization_info
read_organization_body organization_id actor_id db = do
  organization ← authorize db organization_id actor_id "core.organization.read"
  ok (organization_info organization)

unfoldable pub list_members_body : ℕ → ℕ → ℕ → ℕ → Database → Outcome (List MemberInfo)
list_members_body organization_id actor_id limit offset db = do
  authorize db organization_id actor_id "core.members.read"
  ok (
      map (λ (row : Membership × User). member_info db row.0 row.1)
        (page limit offset (
          order_by (λ (row other : Membership × User). leb row.0.id other.0.id)
            (members db organization_id))))

unfoldable pub read_member_body : ℕ → ℕ → ℕ → Database → Outcome MemberInfo
read_member_body organization_id actor_id membership_id db = do
  authorize db organization_id actor_id "core.members.read"
  row ← or_raise (find_member db organization_id membership_id) inaccessible
  ok (member_info db row.0 row.1)

pub record MemberAccess : Type 0 where
  pub membership_id : ℕ
  pub archived : Bool
  pub effective_permissions : List String
  pub effective_grant_authority : List String

unfoldable pub member_access_body : ℕ → ℕ → ℕ → Database → Outcome MemberAccess
member_access_body organization_id actor_id membership_id db = do
  authorize db organization_id actor_id "core.members.read"
  row ← or_raise (find_member db organization_id membership_id) inaccessible
  ok (record {
    membership_id = row.0.id;
    archived = is_some row.0.deleted_at;
    effective_permissions =
        order_by str_le (effective_permissions db organization_id row.0.user_id);
    effective_grant_authority =
        order_by str_le (effective_grant_authority db organization_id row.0.user_id);
  })

unfoldable pub list_roles_body : ℕ → ℕ → ℕ → ℕ → Database → Outcome (List RoleInfo)
list_roles_body organization_id actor_id limit offset db = do
  authorize db organization_id actor_id "core.roles.read"
  ok (
      map (role_info db) (
        page limit offset (
          order_by (λ (r q : Role). leb r.id q.id)
            (where_ (λ (r : Role). r.organization_id == organization_id && is_none r.deleted_at)
              db.roles))))

unfoldable pub read_role_body : ℕ → ℕ → ℕ → Database → Outcome RoleDetail
read_role_body organization_id actor_id role_id db = do
  authorize db organization_id actor_id "core.roles.read"
  role ← find_role db organization_id role_id true
  ok (role_detail db role)

unfoldable pub list_archived_roles_body : ℕ → ℕ → ℕ → ℕ → Database → Outcome (List RoleDetail)
list_archived_roles_body organization_id actor_id limit offset db = do
  authorize db organization_id actor_id "core.roles.read"
  ok (
      map (role_detail db) (
        page limit offset (
          order_by (λ (r q : Role). leb r.id q.id)
            (where_ (λ (r : Role). r.organization_id == organization_id && is_some r.deleted_at)
              db.roles))))

unfoldable pub list_permission_catalog_body : ℕ → ℕ → Database → Outcome (List PermissionDefinition)
list_permission_catalog_body organization_id actor_id db = do
  authorize db organization_id actor_id "core.roles.read"
  ok (permission_catalog db)
