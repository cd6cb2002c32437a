-- ===== src/Auth/Provision.antt =====
-- auth/provision.py: a user with a password, made by an operator of a local installation.
use editingtab_platform_core.Shared.{
  ℕ, false, Option, none, some, String, Text, text_eq, first, ◌&&◌, is_none, is_some, not,
}
use editingtab_platform_core.Config.{Settings, is_local}
use editingtab_platform_core.Errors.{
  Error, local_provisioning_error, configuration_error, unavailable_identity, credential_conflict,
  authentication_unavailable, identity_storage_error, sqlalchemy_error, integrity_error,
  hashing_error, get_pass_warning, eof_error, invalid_identity, identity_conflict,
  identity_not_found, identity_unavailable,
}
use editingtab_platform_core.Identity.Models.{User}
use editingtab_platform_core.Identity.Normalization.{normalize_email}
use editingtab_platform_core.Identity.Services.{create_user}
use editingtab_platform_core.Auth.Repository.Records.{get_credential, insert_credential}
use editingtab_platform_core.Auth.Security.{Hashing, hash_password}
use editingtab_platform_core.Auth.Services.Transaction.{transaction}
use editingtab_platform_core.Storage.Tables.{Database, Session, Env}
use editingtab_platform_core.Storage.Exec.{Exec, pure, reads, gets, require, ◌>>=◌, ◌>>◌}

unfoldable pub require_local : {S : Type 0} → Settings → Exec S (Unit {0})
require_local settings = require (is_local settings) (
    local_provisioning_error
      "Development/test environment required; set CORE_ENVIRONMENT in this terminal.")

-- `with Session(bind=session.connection(), join_transaction_mode="create_savepoint")`: a session of
-- its own, which is not in a transaction, over the tables of the transaction.
unfoldable pub nested : {A : Type 0} → Exec Session A → Exec Database A
nested call db =
    let result = call (record { in_transaction = false; database = db }) in
    (result.0, result.1.database)

-- The key of the user who has no credential yet, created where the address has no user.
unfoldable pub provisioned_user : Env → Text → Text → Option User → Exec Database ℕ
unfolding nested
provisioned_user env email display_name none = nested (create_user env email display_name)
provisioned_user env email display_name (some user) = do
  require (user.is_active && is_none user.deleted_at) unavailable_identity
  credential ← gets (λ db. get_credential db user.id)
  require (not (is_some credential)) credential_conflict
  pure user.id

unfoldable pub provision_user_body : Env → Text → Text → Text → Text → Exec Database ℕ
unfolding provisioned_user
provision_user_body env email normalized display_name encoded = do
  found ← gets (λ db. first (λ (u : User). text_eq u.normalized_email normalized) db.users)
  user_id ← provisioned_user env email display_name found
  insert_credential user_id encoded
  pure user_id

unfoldable pub provision_user : Hashing → Settings → Env → Text → Text → Text → Exec Session ℕ
unfolding require_local provision_user_body
provision_user h settings env email display_name password = do
  require_local settings
  emails ← reads (λ _. normalize_email email)
  encoded ← reads (λ _. hash_password h env.salt password)
  transaction (provision_user_body env email emails.1 display_name encoded)

unfoldable pub failure_message : Error → String
failure_message (local_provisioning_error message) = message
failure_message configuration_error =
    "Configuration invalid; check CORE_ settings in this terminal and the local .env."
failure_message unavailable_identity =
    "Identity is inactive or archived; no credentials were changed."
failure_message credential_conflict =
    "Credentials already exist; use login. No credentials were changed."
failure_message authentication_unavailable =
    "Database unavailable or migration missing; check local database settings and migrations."
failure_message identity_storage_error =
    "Database unavailable or migration missing; check local database settings and migrations."
failure_message sqlalchemy_error =
    "Database unavailable or migration missing; check local database settings and migrations."
failure_message (integrity_error constraint) =
    "Database unavailable or migration missing; check local database settings and migrations."
failure_message hashing_error =
    "Password hashing unavailable; check local resources and the locked installation."
failure_message get_pass_warning =
    "Secure password entry unavailable; use an interactive local terminal."
failure_message eof_error = "Secure password entry unavailable; use an interactive local terminal."
failure_message invalid_identity =
    "Invalid email or display name; check the supplied identity fields."
failure_message identity_conflict =
    "Identity operation failed; review the existing identity before retrying."
failure_message identity_not_found =
    "Identity operation failed; review the existing identity before retrying."
failure_message identity_unavailable =
    "Identity operation failed; review the existing identity before retrying."
failure_message _ = "Invalid provisioning input; check configuration and identity fields."
