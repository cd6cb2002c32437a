-- ===== src/Auth/Services/Passwords.antt =====
-- auth/services.py: `change_password`.
use editingtab_platform_core.Shared.{Bool, false, [], ◌∷◌, Option, none, some, Text}
use editingtab_platform_core.Errors.{authentication_error}
use editingtab_platform_core.Auth.Models.{PasswordCredential, text, count}
use editingtab_platform_core.Auth.Security.{
  Hashing, validate_password, verify_password, hash_password,
}
use editingtab_platform_core.Auth.Repository.{revoke_user_sessions}
use editingtab_platform_core.Auth.Repository.Records.{
  security_audit, get_credential, write_credential,
}
use editingtab_platform_core.Auth.Services.Login.{session_identity}
use editingtab_platform_core.Auth.Services.Transaction.{transaction}
use editingtab_platform_core.Storage.Tables.{Database, Session, Env}
use editingtab_platform_core.Storage.Exec.{Exec, reads, gets, require, ◌>>=◌, ◌>>◌}

module _ (h : Hashing) where
  -- Whether the user has a credential that the password matches.
  unfoldable pub has_password : Option PasswordCredential → Text → Bool
  has_password none password = false
  has_password (some credential) password =
      verify_password h (some credential.password_hash) password

  unfoldable pub change_password_body : Env → Option Text → Text → Text → Exec Database (Unit {0})
  unfolding has_password
  change_password_body env token current_password new_password = do
    identity ← reads (session_identity h env.clock_timestamp token)
    credential ← gets (λ db. get_credential db identity.0.id)
    require (has_password credential current_password) authentication_error
    encoded ← reads (λ _. hash_password h env.salt new_password)
    write_credential identity.0.id encoded
    revoked ← revoke_user_sessions env.clock_timestamp identity.0.id (some identity.1.id)
    security_audit "password.changed" identity.0.id (some identity.0.id) none
        (("other_sessions_revoked", count revoked) ∷ [])
    security_audit "sessions.revoked" identity.0.id (some identity.0.id) none (
        ("scope", text "other")
        ∷ ("count", count revoked)
        ∷ ("reason", text "password_change")
        ∷ [])

  unfoldable pub change_password : Env → Option Text → Text → Text → Exec Session (Unit {0})
  change_password env token current_password new_password = do
    reads (λ _. validate_password current_password)
    reads (λ _. validate_password new_password)
    transaction (change_password_body env token current_password new_password)
