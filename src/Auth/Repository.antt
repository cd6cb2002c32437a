-- ===== src/Auth/Repository.antt =====
-- auth/repository.py: the sessions of users and the queries on them. `clock` is the value of
-- PostgreSQL's `clock_timestamp()`.
pub mod Throttle
pub mod Records
use editingtab_platform_core.Shared.{
  ℕ, ◌+◌, Bool, true, List, [], ◌∷◌, ◌++◌, Option, none, some, Text, text_eq, ◌&&◌, ◌||◌, not, any,
  first, where_, join, length, order_by, update_where, is_none, ◌==◌, ltb, leb,
}
use editingtab_platform_core.Errors.{integrity_error, other_constraint}
use editingtab_platform_core.Identity.Models.{User}
use editingtab_platform_core.Auth.Models.{LoginSession, PasswordCredential}
use editingtab_platform_core.Platform.Models.{PlatformAdminGrant}
use editingtab_platform_core.Storage.Tables.{Database, Env}
use editingtab_platform_core.Storage.Exec.{Exec, gets, modify, pure, require, ◌>>=◌, ◌>>◌}

unfoldable pub credential_for_login : Database → Text → Option (User × PasswordCredential)
credential_for_login db normalized_email =
    first (λ (row : User × PasswordCredential). text_eq row.0.normalized_email normalized_email)
      (join db.users (λ u.
        join (where_ (λ (c : PasswordCredential). c.user_id == u.id) db.password_credentials)
          (λ c. (u, c) ∷ [])))

-- A session that is neither revoked nor expired.
unfoldable pub is_live : ℕ → LoginSession → Bool
is_live clock session = is_none session.revoked_at && ltb clock session.expires_at

unfoldable pub authenticated_session : Database → ℕ → Text → Option (User × LoginSession)
unfolding is_live
authenticated_session db clock digest =
    first (λ (row : User × LoginSession). is_none row.0.deleted_at && row.0.is_active)
      (join
        (where_ (λ (l : LoginSession). text_eq l.token_digest digest && is_live clock l)
          db.login_sessions)
        (λ l. join (where_ (λ (u : User). l.user_id == u.id) db.users) (λ u. (u, l) ∷ [])))

unfoldable pub authenticated_user : Database → ℕ → Text → Option User
authenticated_user db clock digest = elim (authenticated_session db clock digest) [
  | none ↦ none
  | some row ↦ some row.0
]

unfoldable pub has_platform_admin_grant : Database → ℕ → Bool
has_platform_admin_grant db user_id =
    any (λ (g : PlatformAdminGrant). g.user_id == user_id && is_none g.revoked_at)
      db.platform_admin_grants

-- The insert of a session: its key and its digest are unique, and the user exists.
unfoldable pub add_session : Env → ℕ → ℕ → Text → ℕ → Exec Database (Unit {0})
add_session env id user_id digest seconds = do
  db ← gets (λ db. db)
  require
      (not
        (any (λ (l : LoginSession). l.id == id || text_eq l.token_digest digest) db.login_sessions))
      (integrity_error other_constraint)
  require (any (λ (u : User). u.id == user_id) db.users) (integrity_error other_constraint)
  let row : LoginSession = record {
    id = id;
    user_id = user_id;
    token_digest = digest;
    created_at = env.clock_timestamp;
    expires_at = env.clock_timestamp + seconds;
    revoked_at = none;
  }
  modify (λ db. record db { login_sessions = db.login_sessions ++ row ∷ [] })

-- The sessions that the test selects, revoked, and how many they are.
unfoldable pub revoke_where : (LoginSession → Bool) → ℕ → Exec Database ℕ
revoke_where p clock = do
  count ← gets (λ db. length (where_ p db.login_sessions))
  modify (λ db. record db {
    login_sessions = update_where p (λ l. record l { revoked_at = some clock }) db.login_sessions;
  })
  pure count

unfoldable pub revoke_session : ℕ → Text → Exec Database (Unit {0})
unfolding revoke_where
revoke_session clock digest =
    revoke_where (λ l. text_eq l.token_digest digest && is_none l.revoked_at) clock >> pure tt

-- The order of `created_at`, latest first, then `id`.
abbrev pub session_order : LoginSession → LoginSession → Bool
session_order l k = ltb k.created_at l.created_at || (l.created_at == k.created_at && leb l.id k.id)

unfoldable pub active_sessions : Database → ℕ → ℕ → List LoginSession
unfolding is_live
active_sessions db clock user_id =
    order_by session_order
      (where_ (λ (l : LoginSession). l.user_id == user_id && is_live clock l) db.login_sessions)

-- `except_id is None`, or another key.
abbrev pub is_other : Option ℕ → LoginSession → Bool
is_other none l = true
is_other (some id) l = not (l.id == id)

unfoldable pub revoke_user_sessions : ℕ → ℕ → Option ℕ → Exec Database ℕ
unfolding revoke_where
revoke_user_sessions clock user_id except_id =
    revoke_where (λ l. (l.user_id == user_id && is_none l.revoked_at) && is_other except_id l) clock

unfoldable pub revoke_owned_session : ℕ → ℕ → ℕ → Exec Database Bool
unfolding revoke_where
revoke_owned_session clock user_id session_id = do
  count ←
      revoke_where (λ l. l.id == session_id && (l.user_id == user_id && is_none l.revoked_at)) clock
  pure (count == 1)
