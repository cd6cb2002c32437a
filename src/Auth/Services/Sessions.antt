-- ===== src/Auth/Services/Sessions.antt =====
-- auth/services.py: the operations on a user's sessions.
use editingtab_platform_core.Shared.{ℕ, Bool, List, [], ◌∷◌, map, Option, none, some, Text, ◌==◌}
use editingtab_platform_core.Errors.{authentication_error}
use editingtab_platform_core.Auth.Models.{LoginSession, text, count}
use editingtab_platform_core.Auth.Security.{Hashing}
use editingtab_platform_core.Auth.Repository.{
  active_sessions, revoke_owned_session, revoke_user_sessions,
}
use editingtab_platform_core.Auth.Repository.Records.{security_audit}
use editingtab_platform_core.Auth.Services.Login.{session_identity}
use editingtab_platform_core.Auth.Services.Transaction.{transaction}
use editingtab_platform_core.Storage.Tables.{Database, Session}
use editingtab_platform_core.Storage.Exec.{Exec, pure, reads, gets, require, ◌>>=◌, ◌>>◌}

pub record SessionInfo : Type 0 where
  pub id : ℕ
  pub created_at : ℕ
  pub expires_at : ℕ
  pub current_session : Bool

module _ (h : Hashing) (clock : ℕ) (token : Option Text) where
  unfoldable pub list_sessions_body : Exec Database (List SessionInfo)
  list_sessions_body = do
    identity ← reads (session_identity h clock token)
    gets (λ db.
        map
          (λ (item : LoginSession). record {
            id = item.id;
            created_at = item.created_at;
            expires_at = item.expires_at;
            current_session = item.id == identity.1.id;
          })
          (active_sessions db clock identity.0.id))

  unfoldable pub list_sessions : Exec Session (List SessionInfo)
  list_sessions = transaction list_sessions_body

  unfoldable pub revoke_selected_session_body : ℕ → Exec Database Bool
  revoke_selected_session_body session_id = do
    identity ← reads (session_identity h clock token)
    revoked ← revoke_owned_session clock identity.0.id session_id
    require revoked authentication_error
    security_audit "sessions.revoked" identity.0.id (some identity.0.id) none
        (("scope", text "selected") ∷ ("count", count 1) ∷ [])
    pure (session_id == identity.1.id)

  unfoldable pub revoke_selected_session : ℕ → Exec Session Bool
  revoke_selected_session session_id = transaction (revoke_selected_session_body session_id)

  unfoldable pub revoke_all_sessions_body : Exec Database (Unit {0})
  revoke_all_sessions_body = do
    identity ← reads (session_identity h clock token)
    revoked ← revoke_user_sessions clock identity.0.id none
    security_audit "sessions.revoked" identity.0.id (some identity.0.id) none
        (("scope", text "all") ∷ ("count", count revoked) ∷ [])

  unfoldable pub revoke_all_sessions : Exec Session (Unit {0})
  revoke_all_sessions = transaction revoke_all_sessions_body
