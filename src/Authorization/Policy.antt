-- ===== src/Authorization/Policy.antt =====
-- authorization/policy.py: the permission codes that the services name, and role names.
use editingtab_platform_core.Shared.{
  List, [], ◌∷◌, ◌++◌, String, Text, strip, lower, length, all, leb, ◌&&◌,
}
use editingtab_platform_core.Errors.{invalid_permission}
use editingtab_platform_core.Outcome.{Outcome, ok, require, ◌>>◌}

abbrev pub booking_inventory_permissions : List String
booking_inventory_permissions = "booking.inventory.read" ∷ "booking.inventory.manage" ∷ []

abbrev pub booking_permissions : List String
booking_permissions =
    booking_inventory_permissions
    ++ ("booking.reservations.read" ∷ "booking.reservations.create" ∷ "booking.reservations.update"
        ∷ "booking.reservations.cancel" ∷ "booking.availability.read" ∷ "booking.safari.read"
        ∷ "booking.safari.manage" ∷ "booking.settings.read" ∷ "booking.settings.manage" ∷ [])

abbrev pub role_create : String
role_create = "core.roles.create"

abbrev pub role_update : String
role_update = "core.roles.update"

abbrev pub role_archive : String
role_archive = "core.roles.archive"

abbrev pub role_assign : String
role_assign = "core.roles.assign"

abbrev pub member_manage : String
member_manage = "core.members.manage"

abbrev pub owner_permissions : List String
owner_permissions =
    "core.organization.read" ∷ "core.members.read" ∷ "core.members.manage" ∷ "core.roles.read"
    ∷ "core.roles.create" ∷ "core.roles.update" ∷ "core.roles.archive" ∷ "core.roles.assign" ∷ []

abbrev pub administrator_permissions : List String
administrator_permissions =
    "core.roles.read" ∷ role_create ∷ role_update ∷ role_archive ∷ role_assign ∷ []

-- The display name, and its lower case, by which names are unique.
unfoldable pub role_name : Text → Outcome (Text × Text)
role_name value =
    let name = strip value in
    require (leb 1 (length name) && leb (length name) 100 && all (λ c. leb 32 c && leb c 126) name)
      invalid_permission
    >> ok (name, lower name)
