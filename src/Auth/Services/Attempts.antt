-- ===== src/Auth/Services/Attempts.antt =====
-- auth/services.py: the attempts that `login` and `request_password_reset` count first.
use editingtab_platform_core.Shared.{ℕ, Bool, String, Text, codes}
use editingtab_platform_core.Outcome.{ok, err}
use editingtab_platform_core.Identity.Normalization.{normalize_email}
use editingtab_platform_core.Config.{Settings}
use editingtab_platform_core.Auth.Security.{Hashing}
use editingtab_platform_core.Auth.Repository.Throttle.{purge_expired_throttles, consume_bucket}
use editingtab_platform_core.Storage.Tables.{Database}
use editingtab_platform_core.Storage.Exec.{Exec, pure, branch, ◌>>=◌, ◌>>◌}

-- The address in lower case, or what stands for every malformed one.
unfoldable pub normalized_or_invalid : Text → Text
normalized_or_invalid email = elim (normalize_email email) [
  | ok (_, normalized) ↦ normalized
  | err _ ↦ codes "invalid-email"
]

-- One attempt in the source's bucket and, if that is allowed, one in the account's.
unfoldable pub count_attempts :
    Hashing → Settings → ℕ → String → String → Text → Text → Exec Database Bool
count_attempts h settings clock source_kind account_kind source normalized = do
  purge_expired_throttles clock
  allowed ←
      consume_bucket h clock source_kind source settings.auth_source_limit
        settings.auth_window_seconds
  branch allowed
      (consume_bucket h clock account_kind normalized settings.auth_account_limit
        settings.auth_window_seconds)
      (pure allowed)
