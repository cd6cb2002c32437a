-- ===== src/Auth/SignIn/Login.antt =====
-- `login` and `current_user` of auth/services.py, one after the other.
use editingtab_platform_core.Shared.{
  ℕ, ◌+◌, ◌<◌, Bool, true, false, List, [], ◌∷◌, ◌++◌, Memᴰ, Option, none, some, Text, text_eq,
  text_eq→≡, any, first-Memᴰ, join-Memᴰ, join_where, is_none, is_none→≡, ◌==◌, ==→≡, ◌&&◌, ◌||◌,
  not, ltb, &&-left, &&-right, &&-intro, ◌≡◌, refl, sym, ◌∙◌, ap, subst, inl, inr, Bool-cases,
  arith,
}
use mathlib.Core.List.Memᴰ
use editingtab_platform_core.Errors.{authentication_error}
use editingtab_platform_core.Outcome.{ok, err, or_raise-ok}
use editingtab_platform_core.Identity.Models.{User}
use editingtab_platform_core.Config.{Settings}
use editingtab_platform_core.Auth.Models.{LoginSession, PasswordCredential}
use editingtab_platform_core.Auth.Security.{Hashing, verify_password, token_digest}
use editingtab_platform_core.Auth.Repository.{
  is_live, credential_for_login, authenticated_session, add_session,
}
use editingtab_platform_core.Auth.Repository.Records.{write_credential}
use editingtab_platform_core.Auth.Services.Login.{check_login, rehash, new_digest, login_body}
use editingtab_platform_core.Auth.SignIn.{KeyedUsers, authenticated-new}
use editingtab_platform_core.Storage.Tables.{Database, Env}
use editingtab_platform_core.Storage.Ensures.{
  Ensures, Ensures-reads, Ensures-gets, Ensures-step, Ensures-family, Ensures-pure, Ensures-require,
  Ensures-modify_last, Ensures-branch,
}

-- What a sign-in shows, and what it leaves.
pub record SignedIn (h : Hashing) (users : List User) (credentials : List PasswordCredential)
    (normalized : Text) (password : Text) (expires_at : ℕ) (token : Text) (db : Database)
    : Type 0 where
  pub user : User
  pub user_row : Memᴰ user users
  pub email : user.normalized_email ≡ normalized
  pub user_current : user.deleted_at ≡ none
  pub user_active : user.is_active ≡ true
  pub credential : PasswordCredential
  pub credential_row : Memᴰ credential credentials
  pub credential_user : credential.user_id ≡ user.id
  pub password_matches : verify_password h (some credential.password_hash) password ≡ true
  pub digest : Text
  pub token_valid : token_digest h (some token) ≡ some digest
  pub session : LoginSession
  pub authenticated :
      (later : ℕ)
      → later < expires_at
      → authenticated_session db later digest ≡ some (user, session)

credential_for_login-rows :
    (db : Database) (normalized : Text) {u : User} {c : PasswordCredential}
    → credential_for_login db normalized ≡ some (u, c)
    → Memᴰ u db.users
      × (u.normalized_email ≡ normalized)
      × Memᴰ c db.password_credentials
      × (c.user_id ≡ u.id)
unfolding credential_for_login
credential_for_login-rows db normalized {u} {c} e =
    let (m, t) = first-Memᴰ _ _ e in
    let (v, mv, k) = join-Memᴰ _ db.users m in
    join_where _ db.password_credentials _ k λ d md td rd.
      let p = Memᴰ.eq_of_singleton rd in
      (
        Memᴰ.cast (ap (λ (r : User × PasswordCredential). r.0) p) mv,
        text_eq→≡ _ _ t,
        Memᴰ.cast (ap (λ (r : User × PasswordCredential). r.1) p) md,
        ap (λ (r : User × PasswordCredential). r.1.user_id) p
            ∙ ==→≡ _ _ td
            ∙ sym (ap (λ (r : User × PasswordCredential). r.0.id) p),
      )

absent : (b : Bool) → not b ≡ true → b ≡ false
absent b e = ground arith

module _ (h : Hashing) where
  check_login-ok :
      (row : Option (User × PasswordCredential)) (password : Text) {u : User}
      {c : PasswordCredential}
      → check_login h row password ≡ ok (u, c)
      → (row ≡ some (u, c))
        × (verify_password h (some c.password_hash) password ≡ true)
        × ((u.is_active && is_none u.deleted_at) ≡ true)
  unfolding check_login
  check_login-ok none password e = cc
  check_login-ok (some (v, d)) password {u} {c} e =
      elim (Bool-cases (
        verify_password h (some d.password_hash) password
        && (v.is_active && is_none v.deleted_at))) [
          | inl t ↦
              let p : (v, d) ≡ (u, c) = same (rw t at e) in
              (
                ap some p,
                subst
                    (λ (r : User × PasswordCredential).
                      verify_password h (some r.1.password_hash) password ≡ true)
                    p (&&-left _ _ t),
                subst
                    (λ (r : User × PasswordCredential).
                      (r.0.is_active && is_none r.0.deleted_at) ≡ true)
                    p (&&-right (verify_password h (some d.password_hash) password) _ t),
              )
          | inr t ↦ refused (rw t at e)
        ]
    where
      same : {p q : User × PasswordCredential} → ok p ≡ ok q → p ≡ q
      same k = ground arith

      refused : {C : Type 0} {p : User × PasswordCredential} → err authentication_error ≡ ok p → C
      refused k = cc

  -- A sign-in changes no password but by a new hash of the same user.
  rehash-Ensures :
      (salt : ℕ) (user : User) (credential : PasswordCredential) (password : Text) (db : Database)
      → Ensures
          (λ _ db'.
            (cs : List PasswordCredential) × Unit {0}
            × (db' ≡ record db { password_credentials = cs }))
          (rehash h salt user credential password db)
  unfolding rehash write_credential
  rehash-Ensures salt user credential password db =
      Ensures-branch _ _ _ _ _
        (λ _. Ensures-reads _ _ _ _ λ encoded _. Ensures-modify_last _ _ _ (_, tt, refl))
        (λ _. Ensures-pure _ _ _ (db.password_credentials, tt, refl))

  new_digest-valid :
      (token : Text) {digest : Text}
      → new_digest h token ≡ ok digest
      → token_digest h (some token) ≡ some digest
  unfolding new_digest
  new_digest-valid token e = or_raise-ok _ _ e

  module _ (settings : Settings) (env : Env) where
    abbrev expiry : ℕ
    expiry = env.clock_timestamp + settings.auth_session_seconds

    abbrev new_session : ℕ → Text → LoginSession
    new_session user_id digest = record {
      id = env.uuid4 0;
      user_id = user_id;
      token_digest = digest;
      created_at = env.clock_timestamp;
      expires_at = expiry;
      revoked_at = none;
    }

    new_session-live :
        (user_id : ℕ) (digest : Text) (later : ℕ)
        → later < expiry
        → is_live later (new_session user_id digest) ≡ true
    unfolding is_live
    new_session-live user_id digest later l = in_time expiry l
      where
        in_time : (e : ℕ) → later < e → (true && ltb later e) ≡ true
        in_time e l = ground (arith, l)

    add_session-Ensures :
        (user_id : ℕ) (digest : Text) (db : Database)
        → Ensures
            (λ _ db'.
              (any
                  (λ (k : LoginSession). k.id == env.uuid4 0 || text_eq k.token_digest digest)
                  db.login_sessions
                ≡ false)
              × (db' ≡ record db {
                login_sessions = db.login_sessions ++ new_session user_id digest ∷ [];
              }))
            (add_session env (env.uuid4 0) user_id digest settings.auth_session_seconds db)
    unfolding add_session
    add_session-Ensures user_id digest db = Ensures-gets _ _ _ _ (
        Ensures-require _ _ _ _ _
          λ fresh. Ensures-require _ _ _ _ _ λ _. Ensures-modify_last _ _ _ (absent _ fresh, refl))

    pub login_body-SignedIn :
        (normalized password : Text) (db : Database)
        → KeyedUsers db.users
        → Ensures
            (SignedIn h db.users db.password_credentials normalized password expiry)
            (login_body h settings env normalized password db)
    unfolding login_body
    login_body-SignedIn normalized password db keyed = Ensures-gets _ _ _ _ (
        Ensures-reads _ _ _ _ λ found ok_found.
          let (row, matches, current) = check_login-ok _ password ok_found in
          let (mu, email, mc, key) = credential_for_login-rows db normalized row in
          Ensures-family _ (λ _. Unit {0}) (λ cs. record db { password_credentials = cs }) _ _ _
            (rehash-Ensures env.salt found.0 found.1 password db)
            λ _ cs _. Ensures-reads _ _ _ _ λ digest d.
              Ensures-step _
                (λ _.
                  any (λ (k : LoginSession). k.id == env.uuid4 0 || text_eq k.token_digest digest)
                    db.login_sessions
                  ≡ false)
                (record db {
                  password_credentials = cs;
                  login_sessions = db.login_sessions ++ new_session found.0.id digest ∷ [];
                })
                _ _ _ (add_session-Ensures found.0.id digest _)
                λ _ fresh. Ensures-pure _ _ _ (record {
                  user = found.0;
                  user_row = mu;
                  email = email;
                  user_current = is_none→≡ _ (&&-right found.0.is_active _ current);
                  user_active = &&-left _ _ current;
                  credential = found.1;
                  credential_row = mc;
                  credential_user = key;
                  password_matches = matches;
                  digest = digest;
                  token_valid = new_digest-valid env.token_urlsafe d;
                  session = new_session found.0.id digest;
                  authenticated = λ later l.
                      authenticated-new (record db { password_credentials = cs }) db.login_sessions
                        (new_session found.0.id digest) found.0 later keyed fresh
                        (new_session-live found.0.id digest later l) mu refl
                        (&&-intro _ _ (&&-right found.0.is_active _ current) (&&-left _ _ current));
                }))
