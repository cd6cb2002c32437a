-- ===== src/Auth/Changing.antt =====
-- `change_password` of auth/services.py: the password and the sessions that it leaves.
use editingtab_platform_core.Shared.{
  ℕ, true, List, Memᴰ, Option, none, some, Text, first, first-Memᴰ, first-update, update_where,
  ◌==◌, ◌≡◌, refl, ◌∙◌, arith,
}
use editingtab_platform_core.Errors.{authentication_error}
use editingtab_platform_core.Outcome.{ok, err, or_raise, or_raise-ok}
use editingtab_platform_core.Identity.Models.{User}
use editingtab_platform_core.Auth.Models.{LoginSession, PasswordCredential, SecurityAudit}
use editingtab_platform_core.Auth.Security.{Hashing, hash_password, verify_password, token_digest}
use editingtab_platform_core.Auth.Repository.{
  authenticated_session, active_sessions, revoke_user_sessions,
}
use editingtab_platform_core.Auth.Repository.Records.{
  security_audit, get_credential, write_credential,
}
use editingtab_platform_core.Auth.Services.Login.{session_identity}
use editingtab_platform_core.Auth.Services.Passwords.{
  has_password, change_password_body, change_password,
}
use editingtab_platform_core.Auth.Services.Transaction.{transaction-Ensures}
use editingtab_platform_core.Auth.Sessions.{revoke_user_sessions_leaves}
use editingtab_platform_core.Storage.Tables.{Database, Session, Env}
use editingtab_platform_core.Storage.Exec.{◌>>=◌}
use editingtab_platform_core.Storage.Ensures.{
  Ensures, Ensures-ok, Ensures-reads, Ensures-gets, Ensures-require, Ensures-step, Ensures-modify,
  Ensures-modify_last,
}

module _ (h : Hashing) (env : Env) (token : Option Text)
    (current_password new_password : Text) where
  -- The tables before and after: who the token signs in, whose password was the current one and is
  -- the new one, and what sessions are left.
  pub record Changed (before after : Database) : Type 0 where
    pub digest : Text
    pub valid : token_digest h token ≡ some digest
    pub user : User
    pub session : LoginSession
    pub signed_in : authenticated_session before env.clock_timestamp digest ≡ some (user, session)
    pub credential : PasswordCredential
    pub had : get_credential before user.id ≡ some credential
    pub knew : verify_password h (some credential.password_hash) current_password ≡ true
    pub encoded : Text
    pub hashes : hash_password h env.salt new_password ≡ ok encoded
    pub has : get_credential after user.id ≡ some (record credential { password_hash = encoded })
    pub left :
        (later : ℕ) (l : LoginSession)
        → Memᴰ l (active_sessions after later user.id)
        → Memᴰ l (active_sessions before later user.id) × (l.id ≡ session.id)

  session_identity-ok :
      (db : Database) {i : User × LoginSession}
      → session_identity h env.clock_timestamp token db ≡ ok i
      → (digest : Text) × (token_digest h token ≡ some digest)
        × (authenticated_session db env.clock_timestamp digest ≡ some i)
  unfolding session_identity
  session_identity-ok db {i} e = go (token_digest h token) refl e
    where
      go :
          (o : Option Text)
          → token_digest h token ≡ o
          → (elim o [
            | none ↦ err authentication_error
            | some digest ↦
                or_raise (authenticated_session db env.clock_timestamp digest) authentication_error
          ])
            ≡ ok i
          → (digest : Text) × (token_digest h token ≡ some digest)
            × (authenticated_session db env.clock_timestamp digest ≡ some i)
      go none t k = cc
      go (some digest) t k = (digest, t, or_raise-ok _ _ k)

  has_password-ok :
      (o : Option PasswordCredential)
      → has_password h o current_password ≡ true
      → (c : PasswordCredential) × (o ≡ some c)
        × (verify_password h (some c.password_hash) current_password ≡ true)
  unfolding has_password
  has_password-ok none e = cc
  has_password-ok (some c) e = (c, refl, e)

  -- The credential that the call writes is the one that is found.
  written-credential :
      (db : Database) (user_id : ℕ) (encoded : Text) {c : PasswordCredential}
      → get_credential db user_id ≡ some c
      → first
          (λ (c : PasswordCredential). c.user_id == user_id)
          (update_where
            (λ (c : PasswordCredential). c.user_id == user_id)
            (λ c. record c { password_hash = encoded })
            db.password_credentials)
        ≡ some (record c { password_hash = encoded })
  unfolding get_credential
  written-credential db user_id encoded {c} e =
      let (_, t) = first-Memᴰ _ db.password_credentials e in
      first-update (λ (c : PasswordCredential). c.user_id == user_id) _ _ db.password_credentials
        (λ _. refl) e
      ∙ rw t

  revoke-Ensures :
      (user_id : ℕ) (except_id : Option ℕ) (db : Database)
      → Ensures
          (λ _ db'.
            Unit {0} × (db' ≡ (revoke_user_sessions env.clock_timestamp user_id except_id db).1))
          (revoke_user_sessions env.clock_timestamp user_id except_id db)
  unfolding revoke_user_sessions ◌>>=◌ Ensures
  revoke-Ensures user_id except_id db = (tt, refl)

  -- The tables with the new password.
  abbrev rewritten : Database → ℕ → Text → Database
  rewritten db user_id encoded = record db {
    password_credentials =
        update_where (λ (c : PasswordCredential). c.user_id == user_id)
          (λ c. record c { password_hash = encoded }) db.password_credentials;
  }

  -- The other sessions revoked, and any audit.
  revoked-Changed :
      (db : Database) (digest encoded : Text) (user : User) (session : LoginSession)
      (credential : PasswordCredential) (audit : List SecurityAudit)
      → token_digest h token ≡ some digest
      → authenticated_session db env.clock_timestamp digest ≡ some (user, session)
      → get_credential db user.id ≡ some credential
      → verify_password h (some credential.password_hash) current_password ≡ true
      → hash_password h env.salt new_password ≡ ok encoded
      → Changed db
          (record (revoke_user_sessions env.clock_timestamp user.id
            (some session.id)
            (rewritten db user.id encoded)).1 { security_audit = audit })
  unfolding revoke_user_sessions ◌>>=◌ get_credential active_sessions
  revoked-Changed db digest encoded user session credential audit valid signed_in had knew hashes =
      record {
        digest = digest;
        valid = valid;
        user = user;
        session = session;
        signed_in = signed_in;
        credential = credential;
        had = had;
        knew = knew;
        encoded = encoded;
        hashes = hashes;
        has = written-credential db user.id encoded had;
        left = λ later l m.
            let (k, t) =
              revoke_user_sessions_leaves (rewritten db user.id encoded) env.clock_timestamp later
                user.id (some session.id) m in
            (k, ground (arith, t));
      }

  change_password_body-Changed :
      (db : Database)
      → Ensures
          (λ _ db'. Changed db db')
          (change_password_body h env token current_password new_password db)
  unfolding change_password_body write_credential security_audit
  change_password_body-Changed db = Ensures-reads _ _ _ _ λ identity e.
      let (digest, valid, signed_in) = session_identity-ok db e in
      Ensures-gets _ _ _ _ (
        Ensures-require _ _ _ _ _ λ t.
          let (credential, had, knew) = has_password-ok _ t in
          Ensures-reads _ _ _ _ λ encoded hashes. Ensures-modify _ _ _ _ (
            Ensures-step _ (λ _. Unit {0}) _ _ _ _
              (revoke-Ensures identity.0.id (some identity.1.id) _)
              λ _ _. Ensures-modify _ _ _ _ (
                Ensures-modify_last _ _ _ (
                  revoked-Changed db digest encoded identity.0 identity.1 credential _ valid
                    signed_in had knew hashes))))

-- When `change_password` returns, the token signed a user in, the current password matched the
-- user's credential, the credential has the hash of the new password in the committed tables, and
-- a session of the user that is active at any time is the token's, and was active at that time
-- before.
pub change_password-Changed :
    (h : Hashing) (env : Env) (token : Option Text) (current_password new_password : Text)
    (s : Session)
    → (change_password h env token current_password new_password s).0 ≡ ok tt
    → Changed h env token current_password new_password s.database
        (change_password h env token current_password new_password s).1.database
unfolding change_password
change_password-Changed h env token current_password new_password s returned =
    Ensures-ok (λ _ s'. Changed h env token current_password new_password s.database s'.database)
      (change_password h env token current_password new_password s)
      (Ensures-reads _ _ _ _ λ _ _. Ensures-reads _ _ _ _ λ _ _.
        transaction-Ensures _
          (λ _ db'. Changed h env token current_password new_password s.database db') s
          (change_password_body-Changed h env token current_password new_password s.database))
      returned
