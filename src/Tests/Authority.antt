-- ===== src/Tests/Authority.antt =====
-- What the queries and `authorize` answer for the tenant's owner.
use editingtab_platform_core.Shared.{◌≡◌, true, some, Memᴰ, ◌↔◌}
use editingtab_platform_core.Outcome.{ok}
use editingtab_platform_core.Identity.Repository.{get_organization}
use editingtab_platform_core.Authorization.Repository.{
  effective_permissions, effective_grant_authority, has_administrator,
}
use editingtab_platform_core.Authorization.Guards.{authorize}
use editingtab_platform_core.Authorization.Access.Authorize.{IsAssignable, authorize_iff}
use editingtab_platform_core.Authorization.Access.Effective.{
  MayUse, MayGrant, HasAdministrator, effective_permissions_iff, effective_grant_authority_iff,
  has_administrator_iff,
}
use editingtab_platform_core.Tests.Tenant.{database, tab}

effective_permissions_iff_example :
    Memᴰ "core.roles.read" (effective_permissions database 1 1)
    ↔ MayUse database 1 1 "core.roles.read"
effective_permissions_iff_example = effective_permissions_iff database 1 1

effective_grant_authority_iff_example :
    Memᴰ "core.roles.assign" (effective_grant_authority database 1 1)
    ↔ MayGrant database 1 1 "core.roles.assign"
effective_grant_authority_iff_example = effective_grant_authority_iff database 1 1

has_administrator_iff_example : (has_administrator database 1 ≡ true) ↔ HasAdministrator database 1
has_administrator_iff_example = has_administrator_iff database 1

authorize_iff_example : (authorize database 1 1 "core.members.manage" ≡ ok tab) ↔ (
    IsAssignable database "core.members.manage"
    × MayUse database 1 1 "core.members.manage"
    × (get_organization database 1 ≡ some tab))
authorize_iff_example = authorize_iff database 1 1 "core.members.manage" tab
