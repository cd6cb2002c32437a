-- ===== src/Auth/Services/Resets.antt =====
-- auth/services.py: `request_password_reset` and `reset_password`.
use editingtab_platform_core.Shared.{
  ℕ, ◌+◌, Bool, not, [], ◌∷◌, ◌++◌, Option, none, some, Text, text_eq, ◌&&◌, ◌||◌, any, first,
  update_where, is_none, is_some, ◌==◌, ltb, if◌then◌else◌,
}
use editingtab_platform_core.Errors.{
  authentication_error, login_throttled, integrity_error, other_constraint,
}
use editingtab_platform_core.Outcome.{Outcome, ok, err, or_raise}
use editingtab_platform_core.Identity.Models.{User}
use editingtab_platform_core.Authorization.Services.Members.{find_active_user}
use editingtab_platform_core.Config.{Settings, is_local}
use editingtab_platform_core.Auth.Models.{PasswordResetToken, text, count}
use editingtab_platform_core.Auth.Security.{Hashing, validate_password, hash_password, token_digest}
use editingtab_platform_core.Auth.Repository.{revoke_user_sessions}
use editingtab_platform_core.Auth.Repository.Records.{
  security_audit, reset_by_digest, get_credential, write_credential,
}
use editingtab_platform_core.Auth.Services.Attempts.{normalized_or_invalid, count_attempts}
use editingtab_platform_core.Auth.Services.Login.{new_digest}
use editingtab_platform_core.Auth.Services.Transaction.{transaction}
use editingtab_platform_core.Storage.Tables.{Database, Session, Env}
use editingtab_platform_core.Storage.Exec.{Exec, pure, reads, gets, modify, require, ◌>>=◌, ◌>>◌}

-- The active, current user with the address who has a credential.
unfoldable pub reset_user : Database → Text → Option User
reset_user db normalized =
    elim (first
      (λ (u : User). text_eq u.normalized_email normalized && (is_none u.deleted_at && u.is_active))
      db.users) [
        | none ↦ none
        | some user ↦ if is_some (get_credential db user.id) then some user else none
      ]

-- The insert of a reset token: its key and its digest are unique.
unfoldable pub insert_reset : PasswordResetToken → Exec Database (Unit {0})
insert_reset row = do
  db ← gets (λ db. db)
  require
      (not (
        any (λ (r : PasswordResetToken). r.id == row.id || text_eq r.token_digest row.token_digest)
          db.password_reset_tokens))
      (integrity_error other_constraint)
  modify (λ db. record db { password_reset_tokens = db.password_reset_tokens ++ row ∷ [] })

-- A reset token that is neither consumed nor revoked.
unfoldable pub is_unused : PasswordResetToken → Bool
is_unused r = is_none r.consumed_at && is_none r.revoked_at

-- The reset of a digest, unused and in its time.
unfoldable pub check_reset : ℕ → Option PasswordResetToken → Outcome PasswordResetToken
unfolding is_unused
check_reset now none = err authentication_error
check_reset now (some reset) =
    if is_unused reset && ltb now reset.expires_at then ok reset else err authentication_error

module _ (h : Hashing) where
  unfoldable pub issue_reset : Settings → Env → User → Exec Database (Unit {0})
  unfolding insert_reset is_unused
  issue_reset settings env user = do
    modify (λ db. record db {
      password_reset_tokens =
          update_where (λ (r : PasswordResetToken). r.user_id == user.id && is_unused r)
            (λ r. record r { revoked_at = some env.clock_timestamp }) db.password_reset_tokens;
    })
    digest ← reads (λ _. new_digest h env.token_urlsafe)
    insert_reset (record {
      id = env.uuid4 0;
      user_id = user.id;
      token_digest = digest;
      created_at = env.clock_timestamp;
      expires_at = env.clock_timestamp + settings.auth_password_reset_seconds;
      consumed_at = none;
      revoked_at = none;
    })

  unfoldable pub issue_if_any : Settings → Env → Option User → Exec Database (Unit {0})
  issue_if_any settings env none = pure tt
  issue_if_any settings env (some user) = issue_reset settings env user

  unfoldable pub request_reset_body : Settings → Env → Text → Exec Database (Unit {0})
  unfolding reset_user issue_reset issue_if_any
  request_reset_body settings env normalized = do
    user ← gets (λ db. reset_user db normalized)
    issue_if_any settings env user

  -- The token is the answer in a local environment alone.
  unfoldable pub request_password_reset : Settings → Env → Text → Text → Exec Session (Option Text)
  unfolding request_reset_body
  request_password_reset settings env email source = do
    allowed ←
        transaction (
          count_attempts h settings env.clock_timestamp "r" "p" source
            (normalized_or_invalid email))
    require allowed login_throttled
    transaction (request_reset_body settings env (normalized_or_invalid email))
    pure (if is_local settings then some env.token_urlsafe else none)

  unfoldable pub reset_password_body : Env → Text → Text → Exec Database (Unit {0})
  unfolding check_reset
  reset_password_body env digest password = do
    reset ← reads (λ db. check_reset env.clock_timestamp (reset_by_digest db digest))
    user ← reads (λ db. or_raise (find_active_user db reset.user_id) authentication_error)
    credential ← reads (λ db. or_raise (get_credential db reset.user_id) authentication_error)
    encoded ← reads (λ _. hash_password h env.salt password)
    write_credential credential.user_id encoded
    modify (λ db. record db {
      password_reset_tokens =
          update_where (λ (r : PasswordResetToken). r.id == reset.id)
            (λ r. record r { consumed_at = some env.clock_timestamp }) db.password_reset_tokens;
    })
    revoked ← revoke_user_sessions env.clock_timestamp user.id none
    security_audit "password.reset" user.id none none (("sessions_revoked", count revoked) ∷ [])
    security_audit "sessions.revoked" user.id none none
        (("scope", text "all") ∷ ("count", count revoked) ∷ ("reason", text "password_reset") ∷ [])

  unfoldable pub reset_password : Env → Text → Text → Exec Session (Unit {0})
  unfolding reset_password_body
  reset_password env token password = do
    reads (λ _. validate_password password)
    digest ← reads (λ _. or_raise (token_digest h (some token)) authentication_error)
    transaction (reset_password_body env digest password)
