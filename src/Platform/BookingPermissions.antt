-- ===== src/Platform/BookingPermissions.antt =====
-- platform/booking_permissions.py: `provision`.
use editingtab_platform_core.Shared.{
  ℕ, Bool, true, false, List, [], ◌∷◌, Option, none, some, String, str_eq, str_le, codes, text_eq,
  lower, ◌&&◌, ◌||◌, not, all, first, where_, join, order_by, subset, is_none, ◌==◌, if◌then◌else◌,
}
use editingtab_platform_core.Errors.{conflict, inaccessible}
use editingtab_platform_core.Outcome.{or_raise}
use editingtab_platform_core.Identity.Models.{User, Membership}
use editingtab_platform_core.Authorization.Models.{Role, Permissions}
use editingtab_platform_core.Authorization.Policy.{booking_permissions, role_assign}
use editingtab_platform_core.Authorization.Repository.{
  role_permission_grants, has_assignment, insert_role, insert_assignment, replace_permissions,
  rename_role, audit, permission_state,
}
use editingtab_platform_core.Authorization.Guards.{authorize, keys, from_keys}
use editingtab_platform_core.Authorization.Services.Rows.{write_role, dict_get, same_grant}
use editingtab_platform_core.Authorization.Services.Transaction.{transaction}
use editingtab_platform_core.Platform.Models.{AuditValue, text, flag, uuid, permissions}
use editingtab_platform_core.Platform.Services.Modules.{
  require_platform, find_current, platform_audit,
}
use editingtab_platform_core.Platform.Services.Reads.{require_entitlement}
use editingtab_platform_core.Storage.Tables.{Database, Session, Env}
use editingtab_platform_core.Storage.Exec.{Exec, pure, reads, gets, require, branch, ◌>>=◌, ◌>>◌}

abbrev pub booking_role_name : String
booking_role_name = "Booking administrator"

abbrev pub legacy_role_name : String
legacy_role_name = "Booking inventory administrator"

abbrev pub booking_kind : String
booking_kind = "booking_inventory"

-- The current membership of an active, current user.
unfoldable pub provisioned_member : Database → ℕ → ℕ → Option Membership
provisioned_member db organization_id membership_id =
    first
      (λ (m : Membership).
        m.id == membership_id && (m.organization_id == organization_id && is_none m.deleted_at))
      (join db.memberships (λ m.
        join
          (where_ (λ (u : User). u.id == m.user_id && (is_none u.deleted_at && u.is_active))
            db.users)
          (λ _. m ∷ [])))

abbrev pub is_kind : Option String → String → Bool
is_kind none kind = false
is_kind (some k) kind = str_eq k kind

-- The role of the organization with the booking kind, archived or not.
unfoldable pub designated_role : Database → ℕ → Option Role
designated_role db organization_id =
    first
      (λ (r : Role).
        r.organization_id == organization_id && is_kind r.provisioning_kind booking_kind)
      db.roles

-- The key of the role of the organization with the booking role's name.
unfoldable pub named_role : Database → ℕ → Option ℕ
named_role db organization_id =
    elim (first
      (λ (r : Role).
        r.organization_id == organization_id
        && text_eq r.normalized_name (lower (codes booking_role_name)))
      db.roles) [ none ↦ none | some r ↦ some r.id ]

abbrev pub is_key : Option ℕ → ℕ → Bool
is_key none id = false
is_key (some k) id = k == id

-- The designated role afterwards, and whether it was renamed.
unfoldable pub designate : Env → ℕ → Option ℕ → Option Role → Exec Database (Role × Bool)
designate env organization_id named none = do
  require (is_none named) conflict
  let role : Role = record {
    id = env.uuid4 0;
    organization_id = organization_id;
    provisioning_kind = some booking_kind;
    name = codes booking_role_name;
    normalized_name = lower (codes booking_role_name);
    created_at = env.now;
    updated_at = env.now;
    deleted_at = none;
  }
  insert_role role
  pure (role, false)
designate env organization_id named (some role) = do
  require (is_none role.deleted_at) conflict
  branch (text_eq role.name (codes legacy_role_name))
      (do
        require (text_eq role.normalized_name (lower (codes legacy_role_name)) && is_none named)
            conflict
        renamed ←
            rename_role role (codes booking_role_name) (lower (codes booking_role_name)) env.utc_now
        pure (renamed, true))
      (do
        require (text_eq role.name (codes booking_role_name) && is_key named role.id) conflict
        pure (role, false))

-- `a == b` on dicts
unfoldable pub dict_eq : Permissions → Permissions → Bool
dict_eq a b =
    all (λ (item : String × Bool). same_grant (dict_get item.0 b) item.1) a
    && subset (keys b) (keys a)

-- `dict.fromkeys(BOOKING_PERMISSIONS, False)`
abbrev pub booking_grants : Permissions
booking_grants = from_keys booking_permissions false

unfoldable pub replace_if_changed : Env → ℕ → ℕ → ℕ → Permissions → Exec Database (Unit {0})
replace_if_changed env organization_id actor_id role_id before =
    branch (dict_eq before booking_grants) (pure tt) (do
      write_role role_id (λ r. record r { updated_at = env.utc_now })
      replace_permissions organization_id role_id booking_grants
      audit organization_id actor_id "booking.role.provisioned" role_id before booking_grants none)

unfoldable pub assign_if_missing : ℕ → ℕ → ℕ → ℕ → Bool → Exec Database (Unit {0})
assign_if_missing organization_id actor_id membership_id role_id was_assigned =
    branch was_assigned (pure tt) (do
      insert_assignment (record {
        organization_id = organization_id;
        membership_id = membership_id;
        role_id = role_id;
      })
      audit organization_id actor_id "assignment.added" role_id [] booking_grants
          (some membership_id))

abbrev name_if : Bool → String → List (String × AuditValue)
name_if renamed name = if renamed then ("role_name", text name) ∷ [] else []

unfoldable pub audit_provision :
    ℕ → ℕ → ℕ → ℕ → Permissions → Bool → Bool → Exec Database (Unit {0})
audit_provision organization_id actor_id membership_id role_id before was_assigned renamed =
    branch (not (dict_eq before booking_grants) || (not was_assigned || renamed))
      (platform_audit (some actor_id) (some organization_id) "booking.permissions.provisioned"
        membership_id
        (("permissions", permissions (permission_state before))
          ∷ ("assigned", flag was_assigned)
          ∷ name_if renamed legacy_role_name)
        (("role_id", uuid role_id)
          ∷ ("permissions", permissions (permission_state booking_grants))
          ∷ ("assigned", flag true)
          ∷ name_if renamed booking_role_name))
      (pure tt)

pub record BookingProvision : Type 0 where
  pub organization_id : ℕ
  pub membership_id : ℕ
  pub role_id : ℕ
  pub permissions : List String

unfoldable pub provision_body : Env → ℕ → ℕ → ℕ → Exec Database BookingProvision
unfolding provisioned_member designated_role named_role designate replace_if_changed
    assign_if_missing audit_provision dict_eq
provision_body env actor_id organization_id membership_id = do
  reads (λ db. require_platform db actor_id)
  reads (λ db. find_current db organization_id)
  reads (λ db. require_entitlement db organization_id "booking")
  member ← reads (λ db. or_raise (provisioned_member db organization_id membership_id) inaccessible)
  reads (λ db. authorize db organization_id member.user_id role_assign)
  designated ← gets (λ db. designated_role db organization_id)
  named ← gets (λ db. named_role db organization_id)
  found ← designate env organization_id named designated
  before ← gets (λ db. role_permission_grants db organization_id found.0.id)
  require (subset (keys before) booking_permissions) conflict
  was_assigned ← gets (λ db. has_assignment db organization_id membership_id found.0.id)
  replace_if_changed env organization_id actor_id found.0.id before
  assign_if_missing organization_id actor_id membership_id found.0.id was_assigned
  audit_provision organization_id actor_id membership_id found.0.id before was_assigned found.1
  pure (record {
    organization_id = organization_id;
    membership_id = membership_id;
    role_id = found.0.id;
    permissions = order_by str_le booking_permissions;
  })

unfoldable pub provision : Env → ℕ → ℕ → ℕ → Exec Session BookingProvision
unfolding provision_body
provision env actor_id organization_id membership_id =
    transaction (provision_body env actor_id organization_id membership_id)
