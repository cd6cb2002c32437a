-- ===== src/Tests/Account.antt =====
-- A user with a credential, a hash that is the text itself, and the settings of a test run.
use editingtab_platform_core.Shared.{
  true, false, [], ◌∷◌, none, some, Text, codes, text_eq, sym, ◌∙◌,
}
use mathlib.Core.List.Memᴰ
use editingtab_platform_core.Outcome.{ok}
use editingtab_platform_core.Identity.Models.{User}
use editingtab_platform_core.Config.{Settings}
use editingtab_platform_core.Auth.Models.{LoginThrottle}
use editingtab_platform_core.Auth.Security.{Hashing}
use editingtab_platform_core.Auth.SignIn.{KeyedUsers}
use editingtab_platform_core.Auth.Throttling.Purge.{KeyedBuckets}
use editingtab_platform_core.Storage.Tables.{Database, Session, Env}
use editingtab_platform_core.Tests.Tenant.{database, env}

abbrev pub hashing : Hashing
hashing = record {
  sha256 = λ value. value;
  hash = λ salt password. ok password;
  verify = λ encoded password. text_eq encoded password;
  check_needs_rehash = λ encoded. false;
  dummy = codes "dummy";
}

abbrev pub settings : Settings
settings = record {
  environment = "test";
  environment_set = true;
  auth_session_seconds = 600;
  auth_window_seconds = 60;
  auth_account_limit = 5;
  auth_source_limit = 20;
  auth_invitation_seconds = 3600;
  auth_password_reset_seconds = 900;
  booking_service_current_digest = some (codes "service-secret-service-secret-service-secret-00");
  booking_service_previous_digest = none;
}

abbrev pub token : Text
token = codes "0123456789012345678901234567890123456789abc"

abbrev pub token_env : Env
token_env = record env { token_urlsafe = token }

abbrev pub guest : User
guest = record {
  id = 3;
  email = codes "guest@tab";
  normalized_email = codes "guest@tab";
  display_name = codes "Guest";
  is_active = true;
  deleted_at = none;
}

abbrev pub password : Text
password = codes "correct horse battery"

-- One bucket, whose window has ended.
abbrev pub old_bucket : LoginThrottle
old_bucket = record { key = codes "s:source"; attempts = 9; expires_at = 100 }

abbrev pub account : Database
account = record database {
  users = guest ∷ [];
  password_credentials = record { user_id = 3; password_hash = password } ∷ [];
  login_throttles = old_bucket ∷ [];
  password_reset_tokens =
      record {
        id = 61;
        user_id = 3;
        token_digest = token;
        created_at = 400;
        expires_at = 900;
        consumed_at = none;
        revoked_at = none;
      }
      ∷ [];
}

abbrev pub idle : Session
idle = record { in_transaction = false; database = account }

pub keyed_users : KeyedUsers account.users
keyed_users u v m n e = Memᴰ.eq_of_singleton m ∙ sym (Memᴰ.eq_of_singleton n)

pub keyed_buckets : KeyedBuckets account.login_throttles
keyed_buckets a b m n e = Memᴰ.eq_of_singleton m ∙ sym (Memᴰ.eq_of_singleton n)
