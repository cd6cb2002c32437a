-- ===== src/Tests/Tenant.antt =====
-- An organization with an owner, a manager and a user without membership, and three roles.
use editingtab_platform_core.Shared.{
  ℕ, ◌+◌, Bool, true, false, List, [], ◌∷◌, map, Option, none, some, String, codes, refl, any, ◌≡◌,
  ◌&&◌, not, ◌==◌, Memᴰ, sym, ap, ◌∙◌, Memᴰ-any, ≡→==, &&-right, arith, join, where_, subset, all,
  contains,
}
use editingtab_platform_core.Outcome.{Outcome, ok, err}
use editingtab_platform_core.Identity.Models.{Organization, User, Membership}
use editingtab_platform_core.Authorization.Models.{
  MembershipRole, PermissionDefinition, Role, RolePermission,
}
use editingtab_platform_core.Authorization.Policy.{owner_permissions}
use editingtab_platform_core.Authorization.Repository.{
  has_administrator, active_members, effective_permissions, permission_query,
  effective_grant_authority,
}
use editingtab_platform_core.Authorization.Access.Effective.{
  HasAdministrator, has_administrator_iff,
}
use editingtab_platform_core.Authorization.Access.Administrator.Assignments.{KeyedRoles}
use editingtab_platform_core.Authorization.Access.Join.{AssignedMembers}
use editingtab_platform_core.Storage.Tables.{Database, Session, Env}

abbrev pub env : Env
env = record {
  utc_now = 500;
  now = 500;
  clock_timestamp = 500;
  uuid4 = λ n. 1000 + n;
  token_urlsafe = codes "token";
  salt = 7;
}

abbrev pub user : ℕ → String → User
user id email = record {
  id = id;
  email = codes email;
  normalized_email = codes email;
  display_name = codes email;
  is_active = true;
  deleted_at = none;
}

abbrev pub membership : ℕ → ℕ → Membership
membership id user_id = record {
  id = id;
  organization_id = 1;
  user_id = user_id;
  created_at = 10;
  updated_at = 10;
  deleted_at = none;
}

abbrev pub role : ℕ → String → String → Option ℕ → Role
role id name normalized_name deleted_at = record {
  id = id;
  organization_id = 1;
  provisioning_kind = none;
  name = codes name;
  normalized_name = codes normalized_name;
  created_at = 10;
  updated_at = 10;
  deleted_at = deleted_at;
}

abbrev pub definition : String → PermissionDefinition
definition code = record {
  code = code;
  module_name = "core";
  description = code;
  organization_assignable = true;
  lifecycle = "active";
}

abbrev pub permission : ℕ → Bool → String → RolePermission
permission role_id can_grant code = record {
  organization_id = 1;
  role_id = role_id;
  code = code;
  can_grant = can_grant;
}

abbrev pub tab : Organization
tab = record { id = 1; name = codes "Tab"; slug = codes "tab"; deleted_at = none }

-- User 1 owns organization 1 (membership 11, role 21); user 2 has role 22, with which members are
-- read; role 23 is archived; user 3 is no member.
abbrev pub database : Database
database = record {
  organizations = tab ∷ [];
  users = user 1 "owner@tab" ∷ user 2 "member@tab" ∷ user 3 "guest@tab" ∷ [];
  memberships = membership 11 1 ∷ membership 12 2 ∷ [];
  permission_definitions = map definition owner_permissions;
  roles =
      role 21 "Organization owner" "organization owner" none
      ∷ role 22 "Manager" "manager" none
      ∷ role 23 "Helper" "helper" (some 40)
      ∷ [];
  role_permissions =
      permission 22 false "core.members.read" ∷ map (permission 21 true) owner_permissions;
  membership_roles =
      record { organization_id = 1; membership_id = 11; role_id = 21 }
      ∷ record { organization_id = 1; membership_id = 12; role_id = 22 }
      ∷ [];
  role_audit = [];
  password_credentials = record { user_id = 3; password_hash = codes "hash" } ∷ [];
  login_sessions = [];
  login_throttles = [];
  organization_invitations = [];
  invitation_roles = [];
  password_reset_tokens = [];
  security_audit = [];
  platform_admin_grants = record { id = 31; user_id = 2; revoked_at = none } ∷ [];
  platform_bootstrap = record { id = 1; completed_at = some 5 } ∷ [];
  module_entitlements = [];
  platform_audit = [];
}

abbrev pub session : Session
session = record { in_transaction = false; database = database }

abbrev pub is_ok : {A : Type 0} → Outcome A → Bool
is_ok (ok a) = true
is_ok (err e) = false

-- The tenant has an administrator.
pub owner_is_administrator : HasAdministrator database 1
unfolding has_administrator any active_members join where_ subset all contains effective_permissions
    permission_query effective_grant_authority
owner_is_administrator = (has_administrator_iff database 1).0 refl

-- Whether no two roles share a key.
unfoldable distinct : List Role → Bool
distinct [] = true
distinct (r ∷ rs) = not (any (λ (q : Role). q.id == r.id) rs) && distinct rs

distinct_lem :
    (rs : List Role) (r q : Role) → distinct rs ≡ true → Memᴰ r rs → Memᴰ q rs → r.id ≡ q.id → r ≡ q
unfolding distinct
distinct_lem [] r q h m n e = elim m [ ]
distinct_lem (x ∷ rs) r q h (Memᴰ.head a) (Memᴰ.head b) e = a ∙ sym b
distinct_lem (x ∷ rs) r q h (Memᴰ.head a) (Memᴰ.tail n) e = absurd (
    ground (
      arith,
      ap (λ (y : Role). y.id) a,
      Memᴰ-any (λ (y : Role). y.id == x.id) rs n (≡→== _ _ (sym e ∙ ap (λ (y : Role). y.id) a)),
      h,
    ))
distinct_lem (x ∷ rs) r q h (Memᴰ.tail m) (Memᴰ.head b) e = absurd (
    ground (
      arith,
      ap (λ (y : Role). y.id) b,
      Memᴰ-any (λ (y : Role). y.id == x.id) rs m (≡→== _ _ (e ∙ ap (λ (y : Role). y.id) b)),
      h,
    ))
distinct_lem (x ∷ rs) r q h (Memᴰ.tail m) (Memᴰ.tail n) e =
    distinct_lem rs r q (&&-right (not (any (λ (y : Role). y.id == x.id) rs)) _ h) m n e

-- No two roles of the tenant share a key.
pub keyed_roles : KeyedRoles database
unfolding distinct any
keyed_roles r q = distinct_lem database.roles r q refl

-- The tenant's assignments are of its two members.
pub assigned_members : AssignedMembers database
assigned_members a (Memᴰ.head e) =
    (membership 11 1, Memᴰ.head refl, sym (ap (λ (b : MembershipRole). b.membership_id) e))
assigned_members a (Memᴰ.tail (Memᴰ.head e)) = (
  membership 12 2,
  Memᴰ.tail (Memᴰ.head refl),
  sym (ap (λ (b : MembershipRole). b.membership_id) e),
)
assigned_members a (Memᴰ.tail (Memᴰ.tail m)) = elim m [ ]
