-- ===== src/Platform/Services.antt =====
-- platform/services.py: `set_entitlement`, and the public operations, each in a transaction.
pub mod Modules
pub mod Reads
pub mod Companies
use editingtab_platform_core.Shared.{
  ℕ, Bool, true, false, List, Option, none, some, String, Text, str_eq, ◌&&◌, not, first, ◌==◌,
  update_where, [], ◌∷◌,
}
use editingtab_platform_core.Errors.{Error, invalid_onboarding}
use editingtab_platform_core.Outcome.{Outcome, ok, err}
use editingtab_platform_core.Identity.Normalization.{normalize_email}
use editingtab_platform_core.Platform.Models.{ModuleEntitlement, text, flag}
use editingtab_platform_core.Platform.Services.Modules.{
  check_module, require_platform, find_current, enabled_modules_of, platform_audit, CompanyInfo,
  Entitlements,
}
use editingtab_platform_core.Platform.Services.Reads.{
  list_organizations_body, read_organization_body, read_entitlements_body, tenant_entitlements_body,
}
use editingtab_platform_core.Platform.Services.Companies.{
  or_invalid, insert_entitlement, onboard_body, rename_conflict, bootstrap_initial_body,
}
use editingtab_platform_core.Authorization.Services.Reads.{OrganizationInfo}
use editingtab_platform_core.Authorization.Services.Transaction.{transaction}
use editingtab_platform_core.Storage.Tables.{Database, Session, Env}
use editingtab_platform_core.Storage.Exec.{Exec, pure, reads, gets, modify, branch, ◌>>=◌, ◌>>◌}

-- `session.get(ModuleEntitlement, (organization_id, module_code))`
unfoldable pub get_entitlement : Database → ℕ → String → Option ModuleEntitlement
get_entitlement db organization_id module_code =
    first
      (λ (e : ModuleEntitlement).
        e.organization_id == organization_id && str_eq e.module_code module_code)
      db.module_entitlements

-- The write of `set_entitlement`: a new row, or the row's flag.
unfoldable pub write_entitlement :
    ℕ → String → Bool → Option ModuleEntitlement → Exec Database (Unit {0})
write_entitlement organization_id module_code enabled none =
    insert_entitlement
      (record { organization_id = organization_id; module_code = module_code; enabled = enabled })
write_entitlement organization_id module_code enabled (some row) = modify (λ db. record db {
  module_entitlements =
      update_where
        (λ (e : ModuleEntitlement).
          e.organization_id == organization_id && str_eq e.module_code module_code)
        (λ e. record e { enabled = enabled }) db.module_entitlements;
})

-- `row.enabled if row is not None else False`
unfoldable pub was_enabled : Option ModuleEntitlement → Bool
was_enabled none = false
was_enabled (some row) = row.enabled

abbrev pub same_flag : Bool → Bool → Bool
same_flag true b = b
same_flag false b = not b

unfoldable pub set_entitlement_body : ℕ → ℕ → String → Bool → Exec Database Entitlements
unfolding get_entitlement write_entitlement was_enabled
set_entitlement_body actor_id organization_id module_code enabled = do
  reads (λ db. require_platform db actor_id)
  reads (λ _. check_module module_code enabled)
  reads (λ db. find_current db organization_id)
  row ← gets (λ db. get_entitlement db organization_id module_code)
  branch (same_flag (was_enabled row) enabled) (pure tt) (do
    write_entitlement organization_id module_code enabled row
    platform_audit (some actor_id) (some organization_id) "entitlement.changed" organization_id
        (("module", text module_code) ∷ ("enabled", flag (was_enabled row)) ∷ [])
        (("module", text module_code) ∷ ("enabled", flag enabled) ∷ []))
  gets (λ db. record {
    organization_id = organization_id;
    enabled_modules = enabled_modules_of db organization_id;
  })

unfoldable pub bootstrap_initial : Env → Text → Exec Session ℕ
bootstrap_initial env email = do
  emails ← reads (λ _. or_invalid (normalize_email email))
  transaction (bootstrap_initial_body env emails.1)

unfoldable pub list_organizations : ℕ → ℕ → ℕ → Exec Session (List OrganizationInfo)
list_organizations actor_id limit offset =
    transaction (reads (list_organizations_body actor_id limit offset))

unfoldable pub read_organization : ℕ → ℕ → Exec Session CompanyInfo
read_organization actor_id organization_id =
    transaction (reads (read_organization_body actor_id organization_id))

unfoldable pub onboard : Env → ℕ → Text → Text → Text → List String → Exec Session CompanyInfo
unfolding rename_conflict
onboard env actor_id name slug owner_email enabled_modules s =
    rename_conflict
      (transaction (onboard_body env actor_id name slug owner_email enabled_modules) s)

unfoldable pub read_entitlements : ℕ → ℕ → Exec Session Entitlements
read_entitlements actor_id organization_id =
    transaction (reads (read_entitlements_body actor_id organization_id))

unfoldable pub tenant_entitlements : ℕ → ℕ → Exec Session Entitlements
tenant_entitlements actor_id organization_id =
    transaction (reads (tenant_entitlements_body actor_id organization_id))

unfoldable pub set_entitlement : ℕ → ℕ → String → Bool → Exec Session Entitlements
unfolding set_entitlement_body
set_entitlement actor_id organization_id module_code enabled =
    transaction (set_entitlement_body actor_id organization_id module_code enabled)
