-- ===== src/Auth/Resets.antt =====
-- `reset_password` of auth/services.py: the token and the sessions that it leaves.
use editingtab_platform_core.Shared.{
  ℕ, true, false, List, Memᴰ, Option, none, some, Text, first-Memᴰ, first-update, ◌==◌, ==→≡,
  ==-refl, &&-left, ◌≡◌, ◌≢◌, refl, sym, ◌∙◌, ap, subst, inl, inr, Bool-cases, ltb, is_none, ◌<◌,
  ◌&&◌, if◌then◌else◌, arith,
}
use editingtab_platform_core.Errors.{authentication_error}
use editingtab_platform_core.Outcome.{ok, err, or_raise-ok}
use editingtab_platform_core.Identity.Models.{User}
use editingtab_platform_core.Authorization.Services.Members.{find_active_user}
use editingtab_platform_core.Auth.Models.{LoginSession, PasswordResetToken, SecurityAudit}
use editingtab_platform_core.Auth.Security.{Hashing, token_digest}
use editingtab_platform_core.Auth.Repository.{active_sessions, revoke_user_sessions}
use editingtab_platform_core.Auth.Repository.Records.{
  security_audit, reset_by_digest, write_credential,
}
use editingtab_platform_core.Auth.Services.Resets.{
  is_unused, check_reset, reset_password_body, reset_password,
}
use editingtab_platform_core.Auth.Services.Transaction.{transaction, transaction-Ensures}
use editingtab_platform_core.Auth.Sessions.{revoke_user_sessions_leaves}
use editingtab_platform_core.Storage.Tables.{Database, Session, Env}
use editingtab_platform_core.Storage.Exec.{Exec, ◌>>=◌}
use editingtab_platform_core.Storage.Ensures.{
  Ensures, Ensures-returned, Ensures-reads, Ensures-step, Ensures-modify, Ensures-modify_last,
  Ensures-weaken,
}

-- What `reset_password` at a time makes of the tables: the token's row was neither consumed nor
-- revoked and in its time, it is now consumed, and its user has no session that is active at any
-- time.
pub record Spent (clock : ℕ) (before : Database) (digest : Text) (db : Database) : Type 0 where
  pub reset : PasswordResetToken
  pub found : reset_by_digest before digest ≡ some reset
  pub not_consumed : reset.consumed_at ≡ none
  pub not_revoked : reset.revoked_at ≡ none
  pub in_time : clock < reset.expires_at
  pub consumed : reset_by_digest db digest ≡ some (record reset { consumed_at = some clock })
  pub no_session :
      (later : ℕ) (l : LoginSession) → ¬ Memᴰ l (active_sessions db later reset.user_id)

-- A row that may be used: neither consumed nor revoked, in its time.
abbrev Usable : ℕ → PasswordResetToken → Type 0
Usable now r = (r.consumed_at ≡ none) × (r.revoked_at ≡ none) × (now < r.expires_at)

unused-Usable :
    (now : ℕ) (consumed_at revoked_at : Option ℕ) (expires_at : ℕ)
    → (is_none consumed_at && is_none revoked_at) && ltb now expires_at ≡ true
    → (consumed_at ≡ none) × (revoked_at ≡ none) × (now < expires_at)
unused-Usable now none none expires_at t = ground (arith, t)
unused-Usable now (some c) revoked_at expires_at t = ground (arith, t)
unused-Usable now none (some r) expires_at t = ground (arith, t)

check_reset-ok :
    (now : ℕ) (o : Option PasswordResetToken) {r : PasswordResetToken}
    → check_reset now o ≡ ok r
    → (o ≡ some r) × Usable now r
unfolding check_reset is_unused
check_reset-ok now none e = cc
check_reset-ok now (some x) {r} e = elim (Bool-cases (is_unused x && ltb now x.expires_at)) [
  | inl t ↦
      let p : x ≡ r = same (rw t at e) in
      (
        ap some p,
        subst (Usable now) p (unused-Usable now x.consumed_at x.revoked_at x.expires_at t),
      )
  | inr t ↦ refused (rw t at e)
]
  where
    same : ok x ≡ ok r → x ≡ r
    same k = ground arith

    refused : {C : Type 0} → err authentication_error ≡ ok r → C
    refused k = cc

find_active_user-key :
    (db : Database) (user_id : ℕ) {u : User} → find_active_user db user_id ≡ some u → u.id ≡ user_id
unfolding find_active_user
find_active_user-key db user_id e = let (m, t) = first-Memᴰ _ db.users e in ==→≡ _ _ (&&-left _ _ t)

revoke-Ensures :
    (clock user_id : ℕ) (db : Database)
    → Ensures
        (λ _ db'. Unit {0} × (db' ≡ (revoke_user_sessions clock user_id none db).1))
        (revoke_user_sessions clock user_id none db)
unfolding revoke_user_sessions ◌>>=◌ Ensures
revoke-Ensures clock user_id db = (tt, refl)

-- The row that the call marks.
marked :
    (clock : ℕ) (r : PasswordResetToken)
    → (if r.id == r.id then record r { consumed_at = some clock } else r)
      ≡ record r { consumed_at = some clock }
marked clock r = rw (==-refl r.id)

-- Revoking the sessions of the row's user, and any audit, leaves the token spent.
revoked-Spent :
    (before db : Database) (digest : Text) (clock user_id : ℕ) (reset : PasswordResetToken)
    (audit : List SecurityAudit)
    → reset_by_digest before digest ≡ some reset
    → Usable clock reset
    → reset_by_digest db digest ≡ some (record reset { consumed_at = some clock })
    → user_id ≡ reset.user_id
    → Spent clock before digest
        (record (revoke_user_sessions clock user_id none db).1 { security_audit = audit })
unfolding revoke_user_sessions ◌>>=◌ reset_by_digest active_sessions
revoked-Spent before db digest clock user_id reset audit found usable consumed key = record {
  reset = reset;
  found = found;
  not_consumed = usable.0;
  not_revoked = usable.1;
  in_time = usable.2;
  consumed = consumed;
  no_session = λ later l m.
      gone
        (revoke_user_sessions_leaves db clock later user_id none {l = l} (
          subst
            (λ i. Memᴰ l (active_sessions (revoke_user_sessions clock user_id none db).1 later i))
            (sym key) m)).1;
}
  where
    gone : {C : Type 0} → true ≡ false → C
    gone e = cc

module _ (h : Hashing) (env : Env) (digest password : Text) (db : Database) where
  reset_password_body-Spent :
      Ensures
        (λ _ db'. Spent env.clock_timestamp db digest db')
        (reset_password_body h env digest password db)
  unfolding reset_password_body write_credential security_audit reset_by_digest
  reset_password_body-Spent = Ensures-reads _ _ _ _ λ reset ok_reset.
      let (found, usable) = check_reset-ok env.clock_timestamp _ ok_reset in
      Ensures-reads _ _ _ _ λ user ok_user. Ensures-reads _ _ _ _ λ credential _.
        Ensures-reads _ _ _ _ λ encoded _. Ensures-modify _ _ _ _ (
          Ensures-modify _ _ _ _ (
            Ensures-step _ (λ _. Unit {0}) _ _ _ _ (revoke-Ensures env.clock_timestamp user.id _)
              λ count _. Ensures-modify _ _ _ _ (
                Ensures-modify_last _ _ _ (
                  revoked-Spent db _ digest env.clock_timestamp user.id reset _ found usable
                    (first-update _ _ _ db.password_reset_tokens (λ _. refl) found
                      ∙ ap some (marked env.clock_timestamp reset))
                    (find_active_user-key db reset.user_id (or_raise-ok _ _ ok_user))))))

-- A spent token is refused.
Spent-refused :
    (h : Hashing) (env : Env) (digest password : Text) (clock : ℕ) (before db : Database)
    → Spent clock before digest db
    → Ensures (λ _ _. ⊥) (reset_password_body h env digest password db)
unfolding reset_password_body
Spent-refused h env digest password clock before db spent = Ensures-reads _ _ _ _ λ reset e.
    let (found, usable) = check_reset-ok env.clock_timestamp _ e in
    absurd (contradiction spent.reset (sym spent.consumed ∙ found) usable.0)
  where
    contradiction :
        (r : PasswordResetToken) {a : PasswordResetToken}
        → some (record r { consumed_at = some clock }) ≡ some a
        → a.consumed_at ≡ none
        → ⊥
    contradiction r e t = cc

module _ (h : Hashing) (env : Env) (token password : Text) (s : Session) where
  -- The tables that a reset leaves, by the digest of its token.
  abbrev pub SpentToken : Database → Type 0
  SpentToken db =
      (digest : Text) × (token_digest h (some token) ≡ some digest)
      × Spent env.clock_timestamp s.database digest db

  reset_password-Spent :
      Ensures (λ _ s'. SpentToken s'.database) (reset_password h env token password s)
  unfolding reset_password
  reset_password-Spent = Ensures-reads _ _ _ _ λ _ _. Ensures-reads _ _ _ _ λ digest d.
      transaction-Ensures (reset_password_body h env digest password) (λ _ db. SpentToken db) s
        (Ensures-weaken _ _ _ (λ _ db spent. (digest, or_raise-ok _ _ d, spent))
          (reset_password_body-Spent h env digest password s.database))

  spent-reset_password :
      (env' : Env) (again : Text) (s' : Session)
      → SpentToken s'.database
      → Ensures (λ _ _. ⊥) (reset_password h env' token again s')
  unfolding reset_password
  spent-reset_password env' again s' (digest, valid, spent) = Ensures-reads _ _ _ _ λ _ _.
      Ensures-reads _ _ _ _ λ digest' d.
        transaction-refuses (reset_password_body h env' digest' again) s' (
          Spent-refused h env' digest' again env.clock_timestamp s.database s'.database (
            subst (λ t. Spent env.clock_timestamp s.database t s'.database)
              (same valid (or_raise-ok _ _ d)) spent))
    where
      same : {o : Option Text} {a b : Text} → o ≡ some a → o ≡ some b → a ≡ b
      same p q = ground (arith, p, q)

      transaction-refuses :
          (body : Exec Database (Unit {0})) (s : Session)
          → Ensures (λ _ _. ⊥) (body s.database)
          → Ensures (λ _ _. ⊥) (transaction body s)
      transaction-refuses body s k = transaction-Ensures body (λ _ _. ⊥) s k

  -- When `reset_password` returns, its token's row was neither consumed nor revoked and not
  -- expired, and is now consumed, a second `reset_password` with the token on the session that it
  -- left does not return, whatever the password and the environment, and the user of the row has
  -- no session that is active at any time.
  pub reset_password_once :
      (env' : Env) (again : Text)
      → (reset_password h env token password s).0 ≡ ok tt
      → let s' = (reset_password h env token password s).1 in
        ((reset_password h env' token again s').0 ≢ ok tt) × SpentToken s'.database
  reset_password_once env' again returned =
      let s' = (reset_password h env token password s).1 in
      let spent =
        Ensures-returned _ (reset_password h env token password s) reset_password-Spent
          (ap (λ o. (o, s')) returned) in
      (
        λ e.
            Ensures-returned _ (reset_password h env' token again s')
              (spent-reset_password env' again s' spent)
              (ap (λ o. (o, (reset_password h env' token again s').1)) e),
        spent,
      )
