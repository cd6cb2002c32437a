-- ===== src/Platform/Services/Modules.antt =====
-- platform/services.py: the module catalog, the platform's authority and audit, and what is enabled.
use editingtab_platform_core.Shared.{
  ℕ, Bool, true, List, [], ◌∷◌, ◌++◌, map, Option, none, some, String, str_le, ◌&&◌, ◌||◌, not,
  first, where_, join, order_by, contains, is_none, is_some, ◌==◌,
}
use editingtab_platform_core.Errors.{access_error, inaccessible, invalid_module}
use editingtab_platform_core.Outcome.{Outcome, ok, require, or_raise, ◌>>◌}
use editingtab_platform_core.Identity.Models.{Organization, User}
use editingtab_platform_core.Identity.Repository.{get_organization}
use editingtab_platform_core.Platform.Models.{PlatformAdminGrant, ModuleEntitlement, AuditValue}
use editingtab_platform_core.Authorization.Services.Reads.{OrganizationInfo}
use editingtab_platform_core.Storage.Tables.{Database}
use editingtab_platform_core.Storage.Exec.{Exec, modify}

abbrev pub module_catalog : List String
module_catalog = "booking" ∷ "pos" ∷ "unified_inbox" ∷ "chatbot" ∷ []

abbrev pub supported_modules : List String
supported_modules = "booking" ∷ []

unfoldable pub check_module : String → Bool → Outcome (Unit {0})
check_module code enabled =
    require
      (not
        (not (contains module_catalog code) || (enabled && not (contains supported_modules code))))
      invalid_module

-- `_module(code, True)` for each code.
unfoldable pub check_modules : List String → Outcome (Unit {0})
check_modules [] = ok tt
check_modules (code ∷ rest) = check_module code true >> check_modules rest

unfoldable pub platform_audit :
    Option ℕ
    → Option ℕ
    → String
    → ℕ
    → List (String × AuditValue)
    → List (String × AuditValue)
    → Exec Database (Unit {0})
platform_audit actor_id organization_id action target_id before after = modify (λ db. record db {
  platform_audit =
      db.platform_audit
      ++ (record {
        organization_id = organization_id;
        actor_id = actor_id;
        actor_kind = elim actor_id [ none ↦ "operator_bootstrap" | some _ ↦ "authenticated_user" ];
        action = action;
        target_id = target_id;
        before = before;
        after = after;
      })
        ∷ [];
})

-- A grant that is not revoked, of a current and active user.
unfoldable pub require_platform : Database → ℕ → Outcome (Unit {0})
require_platform db actor_id =
    require
      (is_some (
        first (λ (g : PlatformAdminGrant × User). g.1.id == actor_id)
          (join (where_ (λ (g : PlatformAdminGrant). is_none g.revoked_at) db.platform_admin_grants)
            (λ g.
              join
                (where_ (λ (u : User). u.id == g.user_id && (u.is_active && is_none u.deleted_at))
                  db.users)
                (λ u. (g, u) ∷ [])))))
      access_error

-- `_organization`
unfoldable pub find_current : Database → ℕ → Outcome Organization
find_current db organization_id = or_raise (get_organization db organization_id) inaccessible

-- `_enabled`
unfoldable pub enabled_modules_of : Database → ℕ → List String
enabled_modules_of db organization_id = order_by str_le (
    map (λ (e : ModuleEntitlement). e.module_code)
      (where_
        (λ (e : ModuleEntitlement).
          e.organization_id == organization_id
          && (e.enabled && contains supported_modules e.module_code))
        db.module_entitlements))

pub record CompanyInfo : Type 0 where
  pub organization : OrganizationInfo
  pub enabled_modules : List String

pub record Entitlements : Type 0 where
  pub organization_id : ℕ
  pub enabled_modules : List String
