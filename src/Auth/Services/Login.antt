-- ===== src/Auth/Services/Login.antt =====
-- auth/services.py: `login`, `current_user` and `logout`.
use editingtab_platform_core.Shared.{ℕ, Option, none, some, Text, ◌&&◌, is_none, if◌then◌else◌}
use editingtab_platform_core.Errors.{
  authentication_error, login_throttled, integrity_error, other_constraint,
}
use editingtab_platform_core.Outcome.{Outcome, ok, err, or_raise}
use editingtab_platform_core.Identity.Models.{User}
use editingtab_platform_core.Config.{Settings}
use editingtab_platform_core.Auth.Models.{PasswordCredential, LoginSession}
use editingtab_platform_core.Auth.Security.{
  Hashing, validate_password, verify_password, hash_password, token_digest,
}
use editingtab_platform_core.Auth.Repository.{
  credential_for_login, authenticated_user, authenticated_session, add_session, revoke_session,
}
use editingtab_platform_core.Auth.Repository.Records.{write_credential}
use editingtab_platform_core.Auth.Services.Attempts.{normalized_or_invalid, count_attempts}
use editingtab_platform_core.Auth.Services.Transaction.{transaction}
use editingtab_platform_core.Storage.Tables.{Database, Session, Env}
use editingtab_platform_core.Storage.Exec.{Exec, pure, reads, gets, require, branch, ◌>>=◌, ◌>>◌}

pub record Profile : Type 0 where
  pub id : ℕ
  pub email : Text
  pub display_name : Text

unfoldable pub profile : User → Profile
profile user = record { id = user.id; email = user.email; display_name = user.display_name }

-- `except ValueError: raise AuthenticationError`
abbrev pub or_unauthenticated {ℓ} : {A : Type ℓ} → Outcome A → Outcome A
or_unauthenticated (ok a) = ok a
or_unauthenticated (err e) = err authentication_error

module _ (h : Hashing) where
  -- The user with the right password, active and current.
  unfoldable pub check_login :
      Option (User × PasswordCredential) → Text → Outcome (User × PasswordCredential)
  check_login none password = err authentication_error
  check_login (some (user, credential)) password =
      if verify_password h (some credential.password_hash) password
        && (user.is_active && is_none user.deleted_at)
      then ok (user, credential)
      else err authentication_error

  -- A new hash where the parameters of the old one are out of date.
  unfoldable pub rehash : ℕ → User → PasswordCredential → Text → Exec Database (Unit {0})
  rehash salt user credential password =
      branch (h.check_needs_rehash credential.password_hash)
        (do encoded ← reads (λ _. hash_password h salt password); write_credential user.id encoded)
        (pure tt)

  -- The digest of a new token, which the column requires.
  unfoldable pub new_digest : Text → Outcome Text
  new_digest token = or_raise (token_digest h (some token)) (integrity_error other_constraint)

  unfoldable pub login_body : Settings → Env → Text → Text → Exec Database Text
  unfolding check_login rehash new_digest
  login_body settings env normalized password = do
    row ← gets (λ db. credential_for_login db normalized)
    found ← reads (λ _. check_login row password)
    rehash env.salt found.0 found.1 password
    digest ← reads (λ _. new_digest env.token_urlsafe)
    add_session env (env.uuid4 0) found.0.id digest settings.auth_session_seconds
    pure env.token_urlsafe

  -- Two transactions: the attempts count whether or not the sign-in succeeds.
  unfoldable pub login : Settings → Env → Text → Text → Text → Exec Session Text
  login settings env email password source = do
    allowed ←
        transaction (
          count_attempts h settings env.clock_timestamp "s" "a" source
            (normalized_or_invalid email))
    require allowed login_throttled
    reads (λ _. or_unauthenticated (validate_password password))
    transaction (login_body settings env (normalized_or_invalid email) password)

  unfoldable pub current_user_body : ℕ → Text → Database → Outcome Profile
  unfolding profile
  current_user_body clock digest db = elim (authenticated_user db clock digest) [
    | none ↦ err authentication_error
    | some user ↦ ok (profile user)
  ]

  unfoldable pub current_user : ℕ → Option Text → Exec Session Profile
  unfolding current_user_body
  current_user clock token = do
    digest ← reads (λ _. or_raise (token_digest h token) authentication_error)
    transaction (reads (current_user_body clock digest))

  unfoldable pub logout : ℕ → Option Text → Exec Session (Unit {0})
  logout clock token = elim (token_digest h token) [
    | none ↦ pure tt
    | some digest ↦ transaction (revoke_session clock digest)
  ]

  -- `_session_identity`
  unfoldable pub session_identity : ℕ → Option Text → Database → Outcome (User × LoginSession)
  session_identity clock token db = elim (token_digest h token) [
    | none ↦ err authentication_error
    | some digest ↦ or_raise (authenticated_session db clock digest) authentication_error
  ]
