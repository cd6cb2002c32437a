-- ===== src/Platform/Services/Reads.antt =====
-- platform/services.py: the operations that only read.
use editingtab_platform_core.Shared.{
  ℕ, true, List, String, map, ◌&&◌, where_, order_by, is_none, leb, contains,
}
use editingtab_platform_core.Errors.{access_error, invalid_onboarding}
use editingtab_platform_core.Outcome.{Outcome, ok, require, ◌>>=◌, ◌>>◌}
use editingtab_platform_core.Identity.Models.{Organization}
use editingtab_platform_core.Authorization.Guards.{authorize}
use editingtab_platform_core.Authorization.Services.Reads.{
  OrganizationInfo, organization_info, page,
}
use editingtab_platform_core.Platform.Services.Modules.{
  check_module, require_platform, find_current, enabled_modules_of, CompanyInfo, Entitlements,
}
use editingtab_platform_core.Storage.Tables.{Database}

unfoldable pub list_organizations_body : ℕ → ℕ → ℕ → Database → Outcome (List OrganizationInfo)
unfolding organization_info
list_organizations_body actor_id limit offset db = do
  require_platform db actor_id
  require ((leb 1 limit && leb limit 100) && leb offset 100000) invalid_onboarding
  ok (
      map organization_info (
        page limit offset (
          order_by (λ (o q : Organization). leb o.id q.id)
            (where_ (λ (o : Organization). is_none o.deleted_at) db.organizations))))

unfoldable pub read_organization_body : ℕ → ℕ → Database → Outcome CompanyInfo
unfolding organization_info
read_organization_body actor_id organization_id db = do
  require_platform db actor_id
  org ← find_current db organization_id
  ok (record {
    organization = organization_info org;
    enabled_modules = enabled_modules_of db organization_id;
  })

unfoldable pub read_entitlements_body : ℕ → ℕ → Database → Outcome Entitlements
read_entitlements_body actor_id organization_id db = do
  require_platform db actor_id
  find_current db organization_id
  ok (record {
    organization_id = organization_id;
    enabled_modules = enabled_modules_of db organization_id;
  })

unfoldable pub tenant_entitlements_body : ℕ → ℕ → Database → Outcome Entitlements
tenant_entitlements_body actor_id organization_id db = do
  authorize db organization_id actor_id "core.organization.read"
  ok (record {
    organization_id = organization_id;
    enabled_modules = enabled_modules_of db organization_id;
  })

-- In the caller's transaction, after the tenant's authorization.
unfoldable pub require_entitlement : Database → ℕ → String → Outcome (Unit {0})
require_entitlement db organization_id module_code = do
  check_module module_code true
  find_current db organization_id
  require (contains (enabled_modules_of db organization_id) module_code) access_error
