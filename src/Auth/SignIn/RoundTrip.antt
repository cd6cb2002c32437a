-- ===== src/Auth/SignIn/RoundTrip.antt =====
-- `login` of auth/services.py, and `current_user` with the token that it returns.
use editingtab_platform_core.Shared.{ℕ, ◌+◌, ◌<◌, false, List, some, Text, ◌≡◌, sym, ap, subst}
use editingtab_platform_core.Errors.{authentication_unavailable}
use editingtab_platform_core.Outcome.{ok}
use editingtab_platform_core.Identity.Models.{User}
use editingtab_platform_core.Config.{Settings}
use editingtab_platform_core.Auth.Models.{LoginSession, LoginThrottle}
use editingtab_platform_core.Auth.Security.{Hashing, token_digest}
use editingtab_platform_core.Auth.Repository.{authenticated_user, authenticated_session}
use editingtab_platform_core.Auth.Services.Attempts.{normalized_or_invalid, count_attempts}
use editingtab_platform_core.Auth.Services.Login.{
  profile, login_body, login, current_user_body, current_user,
}
use editingtab_platform_core.Auth.Services.Transaction.{transaction, translate}
use editingtab_platform_core.Auth.SignIn.{KeyedUsers}
use editingtab_platform_core.Auth.SignIn.Counting.{count_attempts-Ensures}
use editingtab_platform_core.Auth.SignIn.Login.{SignedIn, login_body-SignedIn}
use editingtab_platform_core.Storage.Tables.{Database, Session, Env}
use editingtab_platform_core.Storage.Exec.{Exec, transact, settle, ◌>>=◌}
use editingtab_platform_core.Storage.Ensures.{
  Ensures, Ensures-returned, Ensures-reads, Ensures-bind, Ensures-require,
}
use editingtab_platform_core.Storage.Idle.{Ensures-transact_idle}

pub transaction_idle :
    {A : Type 0} (body : Exec Database A) (Q : A → Database → Type 0) (s : Session)
    → Ensures Q (body s.database)
    → Ensures (λ a s'. Q a s'.database × (s'.in_transaction ≡ false)) (transaction body s)
unfolding transaction
transaction_idle body Q s k = Ensures-transact_idle authentication_unavailable translate body Q s k

-- A digest that authenticates a user is enough for `current_user`.
authenticated-current_user :
    (h : Hashing) (later : ℕ) (token digest : Text) (s : Session) {user : User}
    {session : LoginSession}
    → token_digest h (some token) ≡ some digest
    → authenticated_session s.database later digest ≡ some (user, session)
    → s.in_transaction ≡ false
    → current_user h later (some token) s ≡ (ok (profile user), s)
unfolding current_user current_user_body authenticated_user transaction transact settle ◌>>=◌
authenticated-current_user h later token digest s valid found idle =
    rw (valid, idle, current_user_body, authenticated_user, found)

module _ (h : Hashing) (settings : Settings) (env : Env) (email password source : Text)
    (s : Session) where
  -- What a sign-in on the session shows and leaves.
  abbrev pub Entered : Text → Database → Type 0
  Entered token db =
      SignedIn h s.database.users s.database.password_credentials (normalized_or_invalid email)
        password (env.clock_timestamp + settings.auth_session_seconds) token db

  -- The buckets alone are changed.
  abbrev Counted : Database → Type 0
  Counted db =
      (ts : List LoginThrottle) × Unit {0} × (db ≡ record s.database { login_throttles = ts })

  login-Entered :
      KeyedUsers s.database.users
      → Ensures
          (λ token s'. Entered token s'.database × (s'.in_transaction ≡ false))
          (login h settings env email password source s)
  unfolding login
  login-Entered keyed =
      Ensures-bind _ (λ _ s'. Counted s'.database × (s'.in_transaction ≡ false)) _ _ _
        (transaction_idle
          (count_attempts h settings env.clock_timestamp "s" "a" source
            (normalized_or_invalid email))
          (λ _ db'. Counted db') s
          (count_attempts-Ensures h settings env.clock_timestamp "s" "a" source
            (normalized_or_invalid email) s.database))
        λ allowed s' ((ts, u, e), idle). Ensures-require _ _ _ _ _ λ _. Ensures-reads _ _ _ _ λ _ _.
          transaction_idle (login_body h settings env (normalized_or_invalid email) password)
            Entered s'
            (subst
              (λ db.
                Ensures Entered
                  (login_body h settings env (normalized_or_invalid email) password db))
              (sym e)
              (login_body-SignedIn h settings env (normalized_or_invalid email) password
                (record s.database { login_throttles = ts }) keyed))

  -- If no two users share a key and `login` returns a token, then it was called with the address
  -- of an active, current user whose credential the password matches, and at any time before the
  -- session expires `current_user` with the token, on the session that `login` left, returns that
  -- user's profile and changes nothing.
  pub login_then_current_user :
      {token : Text} (later : ℕ)
      → KeyedUsers s.database.users
      → (login h settings env email password source s).0 ≡ ok token
      → later < env.clock_timestamp + settings.auth_session_seconds
      → let s' = (login h settings env email password source s).1 in
        (e : Entered token s'.database) × (current_user h later (some token) s'
          ≡ (ok (profile e.user), s'))
  login_then_current_user {token} later keyed returned l =
      let s' = (login h settings env email password source s).1 in
      let (e, idle) =
        Ensures-returned _ (login h settings env email password source s) (login-Entered keyed)
          (ap (λ o. (o, s')) returned) in
      (
        e,
        authenticated-current_user h later token e.digest s' e.token_valid (e.authenticated later l)
            idle,
      )
