-- ===== src/Tests/Changing.antt =====
-- The guest, signed in twice, changes the password.
use editingtab_platform_core.Auth.Repository.Records.{
  get_credential, write_credential, security_audit,
}
use editingtab_platform_core.Auth.Repository.{
  authenticated_session, revoke_user_sessions, is_live, revoke_where,
}
use editingtab_platform_core.Auth.Services.Login.{session_identity}
use editingtab_platform_core.Auth.Services.Transaction.{transaction, translate}
use editingtab_platform_core.Auth.Security.{
  validate_password, token_digest, verify_password, hash_password, is_token, is_token_char,
}
use editingtab_platform_core.Shared.{
  any, all, first, join, where_, text_eq, update_where, false, ◌≡◌, refl, [], ◌∷◌, none, some, Text,
  codes,
}
use editingtab_platform_core.Outcome.{ok}
use editingtab_platform_core.Auth.Models.{LoginSession}
use editingtab_platform_core.Auth.Services.Passwords.{
  has_password, change_password, change_password_body,
}
use editingtab_platform_core.Auth.Changing.{Changed, change_password-Changed}
use editingtab_platform_core.Storage.Exec.{
  gets, modify, pure, reads, require, settle, transact, ◌>>=◌,
}
use editingtab_platform_core.Storage.Tables.{Session}
use editingtab_platform_core.Tests.Tenant.{env}
use editingtab_platform_core.Tests.Account.{hashing, password, token, account}

abbrev login_session : LoginSession
login_session = record {
  id = 81;
  user_id = 3;
  token_digest = token;
  created_at = 100;
  expires_at = 900;
  revoked_at = none;
}

abbrev signed_in : Session
signed_in = record {
  in_transaction = false;
  database = record account {
    login_sessions =
        login_session ∷ record login_session { id = 82; token_digest = codes "other" } ∷ [];
  };
}

abbrev better : Text
better = codes "a much better password"

password_changed : (change_password hashing env (some token) password better signed_in).0 ≡ ok tt
unfolding change_password change_password_body ◌>>=◌ validate_password any transaction
    session_identity token_digest all authenticated_session first join where_ text_eq get_credential
    verify_password hash_password write_credential revoke_user_sessions security_audit is_live
    revoke_where is_token is_token_char has_password translate update_where gets modify pure reads
    require settle transact
password_changed = refl

change_password-Changed_example :
    Changed hashing env
      (some token)
      password
      better
      signed_in.database
      (change_password hashing env (some token) password better signed_in).1.database
change_password-Changed_example =
    change_password-Changed hashing env (some token) password better signed_in password_changed
