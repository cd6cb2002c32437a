-- ===== src/Authorization/Bootstrap.antt =====
-- authorization/bootstrap.py: `bootstrap`, one organization for a user of a local installation.
use editingtab_platform_core.Shared.{ℕ, Text, text_eq, first, any, not, ◌&&◌, is_none}
use editingtab_platform_core.Config.{Settings}
use editingtab_platform_core.Errors.{conflict, inaccessible}
use editingtab_platform_core.Outcome.{or_raise}
use editingtab_platform_core.Identity.Models.{Organization, User}
use editingtab_platform_core.Identity.Normalization.{normalize_email, normalize_slug, clean_name}
use editingtab_platform_core.Auth.Provision.{require_local}
use editingtab_platform_core.Authorization.Onboarding.{create_owned_organization}
use editingtab_platform_core.Authorization.Services.Transaction.{transaction}
use editingtab_platform_core.Storage.Tables.{Database, Session, Env}
use editingtab_platform_core.Storage.Exec.{Exec, pure, reads, gets, require, ◌>>=◌, ◌>>◌}

unfoldable pub bootstrap_body : Env → Text → Text → Text → Exec Database ℕ
bootstrap_body env normalized slug name = do
  taken ← gets (λ db. any (λ (o : Organization). text_eq o.slug slug) db.organizations)
  require (not taken) conflict
  user ← reads (λ db.
      or_raise
        (first
          (λ (u : User).
            text_eq u.normalized_email normalized && (is_none u.deleted_at && u.is_active))
          db.users)
        inaccessible)
  org ← create_owned_organization env name slug user.id user.id
  pure org.id

unfoldable pub bootstrap : Settings → Env → Text → Text → Text → Exec Session ℕ
unfolding bootstrap_body
bootstrap settings env email slug name = do
  require_local settings
  emails ← reads (λ _. normalize_email email)
  slug ← reads (λ _. normalize_slug slug)
  name ← reads (λ _. clean_name name)
  transaction (bootstrap_body env emails.1 slug name)
