-- ===== src/Authorization/Guards.antt =====
-- authorization/services.py: the read-only checks that every operation makes first.
use editingtab_platform_core.Shared.{
  ℕ, Bool, false, List, [], ◌∷◌, map, Option, String, codes, text_eq, ◌&&◌, ◌||◌, not, any, first,
  contains, subset, same_set, is_none, is_some, ◌==◌, leb, if◌then◌else◌,
}
use editingtab_platform_core.Errors.{
  access_error, inaccessible, invalid_permission, last_administrator, protected_role,
}
use editingtab_platform_core.Outcome.{Outcome, ok, err, require, or_raise, ◌>>=◌, ◌>>◌}
use editingtab_platform_core.Identity.Models.{Organization, User, Membership}
use editingtab_platform_core.Identity.Repository.{get_organization}
use editingtab_platform_core.Authorization.Models.{Role, Permissions}
use editingtab_platform_core.Authorization.Policy.{role_assign}
use editingtab_platform_core.Authorization.Repository.{
  active_members, assignable_permission_codes, effective_permissions, effective_grant_authority,
  has_administrator, role_permission_grants,
}
use editingtab_platform_core.Storage.Tables.{Database}

-- What an authorized call knows: the organization, the actor's membership and permissions.
pub record Context : Type 0 where
  pub organization : Organization
  pub membership : Membership
  pub held : List String

-- The current membership of the actor, if the organization and the user are current too.
unfoldable pub actor_membership : Database → ℕ → ℕ → Option (Membership × User)
actor_membership db organization_id actor_id =
    first (λ (row : Membership × User). row.1.id == actor_id) (active_members db organization_id)

unfoldable pub authorization_context : Database → ℕ → ℕ → String → Outcome Context
authorization_context db organization_id actor_id code = do
  require (same_set (assignable_permission_codes db (code ∷ [])) (code ∷ [])) invalid_permission
  organization ← or_raise (get_organization db organization_id) inaccessible
  member ← or_raise (actor_membership db organization_id actor_id) inaccessible
  let held = effective_permissions db organization_id actor_id
  require (contains held code) access_error
  ok (record { organization = organization; membership = member.0; held = held })

unfoldable pub authorize : Database → ℕ → ℕ → String → Outcome Organization
authorize db organization_id actor_id code = do
  context ← authorization_context db organization_id actor_id code
  ok context.organization

-- A role of the organization, current unless `archived` is set.
unfoldable pub find_role : Database → ℕ → ℕ → Bool → Outcome Role
find_role db organization_id role_id archived =
    or_raise
      (first
        (λ (r : Role).
          (r.organization_id == organization_id && r.id == role_id)
          && (archived || is_none r.deleted_at))
        db.roles)
      inaccessible

unfoldable pub system_managed : Role → Bool
system_managed role =
    text_eq role.normalized_name (codes "organization owner") || is_some role.provisioning_kind

unfoldable pub custom_role : Role → Outcome Role
unfolding system_managed
custom_role role = if system_managed role then err protected_role else ok role

-- The keys of a dict of permissions.
abbrev pub keys : Permissions → List String
keys permissions = map (λ (item : String × Bool). item.0) permissions

unfoldable pub grantable : List String → Permissions → Outcome (Unit {0})
grantable grant_authority permissions =
    require (subset (keys permissions) grant_authority) access_error

-- What a caller submits: a dict with `can_grant` for each code, or plain codes.
pub data PermissionInput : Type 0 where
  by_dict : Permissions → PermissionInput
  by_codes : List String → PermissionInput

-- `len(items) != len(set(items))`
unfoldable pub has_duplicates : List String → Bool
has_duplicates [] = false
has_duplicates (c ∷ cs) = contains cs c || has_duplicates cs

-- `dict.fromkeys(items, value)`
abbrev pub from_keys : List String → Bool → Permissions
from_keys items value = map (λ (c : String). (c, value)) items

unfoldable pub read_input : PermissionInput → Outcome Permissions
unfolding has_duplicates
read_input (by_dict values) = ok values
read_input (by_codes items) =
    require (not (has_duplicates items)) invalid_permission >> ok (from_keys items false)

-- The submitted permissions, each in the registry as active and assignable.
unfoldable pub permissions_of : Database → PermissionInput → Outcome Permissions
unfolding read_input
permissions_of db values = do
  result ← read_input values
  require (same_set (assignable_permission_codes db (keys result)) (keys result)) invalid_permission
  ok result

unfoldable pub ensure_administrator : Database → ℕ → Outcome (Unit {0})
ensure_administrator db organization_id =
    require (has_administrator db organization_id) last_administrator

unfoldable pub check_page : ℕ → ℕ → Outcome (Unit {0})
check_page limit offset =
    require ((leb 1 limit && leb limit 100) && leb offset 100000) invalid_permission

-- The loop of `_initial_roles` over the requested identifiers.
unfoldable pub find_grantable_roles : Database → ℕ → List String → List ℕ → Outcome (List Role)
find_grantable_roles db organization_id grant_authority [] = ok []
find_grantable_roles db organization_id grant_authority (role_id ∷ rest) = do
  role ← find_role db organization_id role_id false
  grantable grant_authority (role_permission_grants db organization_id role_id)
  roles ← find_grantable_roles db organization_id grant_authority rest
  ok (role ∷ roles)

unfoldable pub has_duplicate_ids : List ℕ → Bool
has_duplicate_ids [] = false
has_duplicate_ids (i ∷ is) = any (λ j. i == j) is || has_duplicate_ids is

unfoldable pub initial_roles : Database → ℕ → ℕ → List ℕ → Outcome (List Role)
unfolding find_grantable_roles has_duplicate_ids
initial_roles db organization_id actor_id [] = ok []
initial_roles db organization_id actor_id (first_id ∷ rest) = do
  require (not (has_duplicate_ids (first_id ∷ rest))) invalid_permission
  authorize db organization_id actor_id role_assign
  find_grantable_roles db organization_id (effective_grant_authority db organization_id actor_id)
      (first_id ∷ rest)
