-- ===== src/Tests/Companies.antt =====
-- A company onboarded beside the tenant, and the first platform administrator.
use editingtab_platform_core.Identity.Repository.{create_organization, create_membership}
use editingtab_platform_core.Errors.{is_conflict}
use editingtab_platform_core.Authorization.Services.Reads.{organization_info}
use editingtab_platform_core.Authorization.Repository.{
  frozenset, replace_permissions, permission_state, insert_role, insert_permissions,
  insert_assignment, audit,
}
use editingtab_platform_core.Authorization.Onboarding.{create_owned_organization}
use editingtab_platform_core.Platform.Services.Companies.{
  rename_conflict, insert_entitlements, insert_entitlement, eligible_owner, onboard_body,
  bootstrap_initial_body,
}
use editingtab_platform_core.Authorization.Services.Transaction.{transaction}
use editingtab_platform_core.Identity.Normalization.{
  slug_from, is_slug_char, is_slug, normalize_slug, clean_name, has_parts, normalize_email,
}
use editingtab_platform_core.Storage.Exec.{◌>>=◌}
use editingtab_platform_core.Shared.{
  strip_right, strip_left, order_by, insert_by, contains, where_, join, lower_char, lower, text_eq,
  first, any, count_char, is_space, strip, [], ◌∷◌, none, codes, ◌≡◌, refl,
}
use editingtab_platform_core.Outcome.{ok}
use editingtab_platform_core.Authorization.Access.Effective.{HasAdministrator}
use editingtab_platform_core.Platform.Services.{onboard, bootstrap_initial}
use editingtab_platform_core.Platform.Services.Modules.{
  check_modules, check_module, require_platform, platform_audit, CompanyInfo,
}
use editingtab_platform_core.Platform.Onboarding.{onboard-HasAdministrator, bootstrap_initial_once}
use editingtab_platform_core.Storage.Tables.{Session}
use editingtab_platform_core.Tests.Tenant.{env, database, session}

abbrev company : CompanyInfo
company = record {
  organization = record { id = 1000; name = codes "Shop"; slug = codes "shop" };
  enabled_modules = "booking" ∷ [];
}

company_onboarded :
    (onboard env 2 (codes "Shop") (codes "shop") (codes "guest@tab") ("booking" ∷ []) session).0
    ≡ ok company
unfolding onboard transaction onboard_body ◌>>=◌ require_platform first join where_ clean_name strip
    is_space any normalize_slug lower is_slug is_slug_char lower_char normalize_email
    create_owned_organization audit insert_assignment insert_permissions insert_role
    permission_state replace_permissions frozenset organization_info is_conflict has_parts slug_from
    create_membership create_organization eligible_owner insert_entitlement insert_entitlements
    rename_conflict check_module check_modules platform_audit contains insert_by order_by count_char
    strip_left strip_right text_eq
company_onboarded = refl

onboard-HasAdministrator_example :
    HasAdministrator
      (onboard env 2
        (codes "Shop")
        (codes "shop")
        (codes "guest@tab")
        ("booking" ∷ [])
        session).1.database
      1000
onboard-HasAdministrator_example =
    onboard-HasAdministrator env 2 (codes "Shop") (codes "shop") (codes "guest@tab")
      ("booking" ∷ []) session {info = company} company_onboarded

-- Before the bootstrap there are no grants.
abbrev unclaimed : Session
unclaimed = record session {
  database = record database {
    platform_admin_grants = [];
    platform_bootstrap = record { id = 1; completed_at = none } ∷ [];
  };
}

first_bootstrap : (bootstrap_initial env (codes "owner@tab") unclaimed).0 ≡ ok 1000
unfolding bootstrap_initial ◌>>=◌ normalize_email strip is_space count_char any has_parts
    transaction bootstrap_initial_body first text_eq lower lower_char platform_audit
first_bootstrap = refl

bootstrap_initial_once_example : ¬ (
    (bootstrap_initial env
      (codes "member@tab")
      (bootstrap_initial env (codes "owner@tab") unclaimed).1).0
    ≡ ok 1000)
bootstrap_initial_once_example =
    bootstrap_initial_once env env (codes "owner@tab") (codes "member@tab") unclaimed
      first_bootstrap 1000
