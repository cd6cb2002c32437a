-- ===== src/Platform/Services/Companies.antt =====
-- platform/services.py: the initial bootstrap and `onboard`.
use editingtab_platform_core.Shared.{
  ℕ, true, List, [], ◌∷◌, ◌++◌, Option, none, some, String, Text, text_eq, str_eq, str_le, ◌&&◌,
  ◌||◌, not, any, first, order_by, update_where, contains, is_none, is_some, ◌==◌, if◌then◌else◌,
}
use editingtab_platform_core.Errors.{
  conflict, storage_unavailable, invalid_onboarding, bootstrap_closed, organization_conflict,
  integrity_error, other_constraint, is_conflict,
}
use editingtab_platform_core.Outcome.{Outcome, ok, err, or_raise}
use editingtab_platform_core.Identity.Models.{Organization, User}
use editingtab_platform_core.Identity.Normalization.{normalize_email, normalize_slug, clean_name}
use editingtab_platform_core.Auth.Models.{PasswordCredential}
use editingtab_platform_core.Platform.Models.{
  PlatformAdminGrant, BootstrapState, ModuleEntitlement, uuid, flag, texts,
}
use editingtab_platform_core.Platform.Services.Modules.{
  supported_modules, module_catalog, check_modules, platform_audit, require_platform, CompanyInfo,
}
use editingtab_platform_core.Authorization.Onboarding.{create_owned_organization}
use editingtab_platform_core.Authorization.Repository.{frozenset}
use editingtab_platform_core.Authorization.Services.Reads.{organization_info}
use editingtab_platform_core.Storage.Tables.{Database, Env, Session}
use editingtab_platform_core.Storage.Exec.{Exec, pure, reads, gets, modify, require, ◌>>=◌, ◌>>◌}

-- A user who can own an organization: current, active, and with a password.
unfoldable pub eligible_owner : Database → Text → Option User
eligible_owner db normalized =
    first
      (λ (u : User).
        text_eq u.normalized_email normalized
        && (u.is_active && is_none u.deleted_at)
        && any (λ (c : PasswordCredential). c.user_id == u.id) db.password_credentials)
      db.users

-- The insert of an entitlement: its key is unique, its module known, and supported if enabled.
unfoldable pub insert_entitlement : ModuleEntitlement → Exec Database (Unit {0})
insert_entitlement row = do
  db ← gets (λ db. db)
  require
      (contains module_catalog row.module_code
        && (not row.enabled || contains supported_modules row.module_code))
      (integrity_error other_constraint)
  require
      (not (
        any
          (λ (e : ModuleEntitlement).
            e.organization_id == row.organization_id && str_eq e.module_code row.module_code)
          db.module_entitlements))
      (integrity_error other_constraint)
  require (any (λ (o : Organization). o.id == row.organization_id) db.organizations)
      (integrity_error other_constraint)
  modify (λ db. record db { module_entitlements = db.module_entitlements ++ row ∷ [] })

unfoldable pub insert_entitlements : ℕ → List String → Exec Database (Unit {0})
unfolding insert_entitlement
insert_entitlements organization_id [] = pure tt
insert_entitlements organization_id (code ∷ rest) = do
  insert_entitlement
      (record { organization_id = organization_id; module_code = code; enabled = true })
  insert_entitlements organization_id rest

-- `except InvalidIdentity: raise InvalidOnboarding()` around the three normalizations.
abbrev pub or_invalid {ℓ} : {A : Type ℓ} → Outcome A → Outcome A
or_invalid (ok a) = ok a
or_invalid (err e) = err invalid_onboarding

unfoldable pub onboard_body : Env → ℕ → Text → Text → Text → List String → Exec Database CompanyInfo
unfolding eligible_owner insert_entitlements check_modules organization_info
onboard_body env actor_id name slug owner_email enabled_modules = do
  reads (λ db. require_platform db actor_id)
  name ← reads (λ _. or_invalid (clean_name name))
  slug ← reads (λ _. or_invalid (normalize_slug slug))
  emails ← reads (λ _. or_invalid (normalize_email owner_email))
  let modules = order_by str_le (frozenset enabled_modules)
  reads (λ _. check_modules modules)
  taken ← gets (λ db. any (λ (o : Organization). text_eq o.slug slug) db.organizations)
  require (not taken) conflict
  owner ← reads (λ db. or_raise (eligible_owner db emails.1) invalid_onboarding)
  org ← create_owned_organization env name slug owner.id actor_id
  insert_entitlements org.id modules
  platform_audit (some actor_id) (some org.id) "organization.onboarded" org.id []
      (("owner_id", uuid owner.id) ∷ ("enabled_modules", texts modules) ∷ [])
  pure (record { organization = organization_info org; enabled_modules = modules })

-- `except Conflict: raise OrganizationConflict()`
unfoldable pub rename_conflict : {A : Type 0} → Outcome A × Session → Outcome A × Session
rename_conflict (ok a, s) = (ok a, s)
rename_conflict (err e, s) = (err (if is_conflict e then organization_conflict else e), s)

unfoldable pub bootstrap_initial_body : Env → Text → Exec Database ℕ
bootstrap_initial_body env normalized = do
  state ← reads (λ db.
      or_raise (first (λ (b : BootstrapState). b.id == 1) db.platform_bootstrap)
        storage_unavailable)
  granted ← gets (λ db. is_some (first (λ (g : PlatformAdminGrant). true) db.platform_admin_grants))
  require (not (is_some state.completed_at || granted)) bootstrap_closed
  user ← reads (λ db.
      or_raise
        (first
          (λ (u : User).
            text_eq u.normalized_email normalized && (u.is_active && is_none u.deleted_at))
          db.users)
        invalid_onboarding)
  let grant : PlatformAdminGrant = record { id = env.uuid4 0; user_id = user.id; revoked_at = none }
  modify (λ db. record db { platform_admin_grants = db.platform_admin_grants ++ grant ∷ [] })
  modify (λ db. record db {
    platform_bootstrap =
        update_where (λ (b : BootstrapState). b.id == 1)
          (λ b. record b { completed_at = some env.utc_now }) db.platform_bootstrap;
  })
  platform_audit none none "operator.bootstrap" grant.id []
      (("user_id", uuid user.id) ∷ ("active", flag true) ∷ [])
  pure grant.id
