-- ===== src/Tests/Login.antt =====
-- The guest signs in, resets the password, and attempts are counted.
use editingtab_platform_core.Authorization.Services.Members.{find_active_user}
use editingtab_platform_core.Auth.Security.{
  verify_password, validate_password, token_digest, is_token_char, is_token, hash_password,
}
use editingtab_platform_core.Auth.Repository.{
  revoke_user_sessions, credential_for_login, add_session,
}
use editingtab_platform_core.Auth.Repository.Records.{
  security_audit, get_credential, reset_by_digest, write_credential,
}
use editingtab_platform_core.Identity.Normalization.{has_parts, normalize_email}
use editingtab_platform_core.Auth.Services.Transaction.{translate, transaction}
use editingtab_platform_core.Shared.{
  List, strip_right, strip_left, lower_char, lower, join, update_where, all, count_char, is_space,
  strip, text_eq, insert_by, order_by, any, where_, first, ◌+◌, ◌≤◌, ◌<◌, [], ◌∷◌, Memᴰ, none, some,
  Text, codes, ◌≡◌, ◌≢◌, refl, sym, subst, arith,
}
use editingtab_platform_core.Errors.{authentication_error}
use editingtab_platform_core.Outcome.{ok, err}
use editingtab_platform_core.Auth.Models.{LoginThrottle}
use editingtab_platform_core.Auth.SignIn.Failure.{login_raises}
use editingtab_platform_core.Auth.Services.Attempts.{normalized_or_invalid, count_attempts}
use editingtab_platform_core.Auth.Services.Login.{
  rehash, new_digest, login_body, check_login, profile, login, current_user,
}
use editingtab_platform_core.Auth.Services.Resets.{reset_password}
use editingtab_platform_core.Auth.Resets.{SpentToken, reset_password_once}
use editingtab_platform_core.Auth.Repository.Throttle.{
  upsert_bucket, purged_keys, is_expired, find_bucket, count_attempt, consume_bucket,
  purge_expired_throttles, bucket_key,
}
use editingtab_platform_core.Auth.SignIn.RoundTrip.{Entered, login_then_current_user}
use editingtab_platform_core.Auth.Throttling.Attempts.{count_both, Refines, count_attempts-Refines}
use editingtab_platform_core.Auth.Throttling.Counters.{counters}
use editingtab_platform_core.Auth.Throttling.Limit.{Attempt, allowed, allowed_le_limit}
use editingtab_platform_core.Storage.Exec.{
  transact, settle, require, reads, pure, modify, gets, branch, ◌>>=◌,
}
use editingtab_platform_core.Storage.Tables.{Session}
use editingtab_platform_core.Tests.Account.{
  hashing, settings, token, token_env, password, account, idle, keyed_users, keyed_buckets,
}

abbrev source : Text
source = codes "192.0.2.1"

abbrev entered : Session
entered = (login hashing settings token_env (codes "Guest@Tab") password source idle).1

signs_in : (login hashing settings token_env (codes "Guest@Tab") password source idle).0 ≡ ok token
unfolding login transaction purge_expired_throttles consume_bucket first where_ any order_by
    insert_by text_eq normalized_or_invalid normalize_email strip is_space count_char has_parts
    write_credential count_attempt find_bucket is_expired purged_keys upsert_bucket add_session
    credential_for_login hash_password is_token is_token_char token_digest validate_password
    verify_password check_login login_body new_digest rehash translate all update_where join lower
    lower_char strip_left strip_right branch gets modify pure reads require settle transact ◌>>=◌
    count_attempts
signs_in = refl

login_then_current_user_example :
    (e : Entered hashing settings token_env
      (codes "Guest@Tab")
      password
      source
      idle
      token
      entered.database)
    × (current_user hashing 700 (some token) entered ≡ (ok (profile e.user), entered))
login_then_current_user_example =
    login_then_current_user hashing settings token_env (codes "Guest@Tab") password source idle 700
      keyed_users signs_in (omega arith)

abbrev renewed : Text
renewed = codes "a much better password"

abbrev reset : Session
reset = (reset_password hashing token_env token renewed idle).1

resets : (reset_password hashing token_env token renewed idle).0 ≡ ok tt
unfolding reset_password reset_by_digest find_active_user get_credential revoke_user_sessions
    security_audit ◌>>=◌ validate_password any token_digest all transaction first text_eq
    hash_password write_credential
resets = refl

reset_password_once_example :
    ((reset_password hashing token_env token password reset).0 ≢ ok tt)
    × SpentToken hashing token_env token renewed idle reset.database
reset_password_once_example =
    reset_password_once hashing token_env token renewed idle token_env password resets

count_attempts-Refines_example :
    Refines 500 (count_attempts hashing settings 500 "s" "a" source (codes "guest@tab") account) (
      count_both 500
        (bucket_key hashing "s" source)
        (bucket_key hashing "a" (codes "guest@tab"))
        20
        5
        60
        (counters 500 account.login_throttles))
count_attempts-Refines_example =
    count_attempts-Refines hashing settings 500 "s" "a" source (codes "guest@tab") (omega arith)
      account keyed_buckets

abbrev attempt : Attempt
attempt = record { clock = 500; kind = "s"; value = codes "source" }

abbrev later_attempt : Attempt
later_attempt = record attempt { clock = 559 }

-- The old bucket has ended.
ended : counters 500 account.login_throttles (codes "s:source") ≡ none
unfolding counters find_bucket first text_eq
ended = refl

at :
    (a b : Attempt)
    → a ≡ b
    → 500 ≤ b.clock
    → b.clock < 500 + 60
    → (500 ≤ a.clock) × (a.clock < 500 + 60)
at a b e l m = subst (λ (x : Attempt). (500 ≤ x.clock) × (x.clock < 500 + 60)) (sym e) (l, m)

in_window :
    (a : Attempt)
    → Memᴰ a (attempt ∷ later_attempt ∷ attempt ∷ [])
    → (500 ≤ a.clock) × (a.clock < 500 + 60)
in_window a (Memᴰ.head e) = at a attempt e (omega arith) (omega arith)
in_window a (Memᴰ.tail (Memᴰ.head e)) = at a later_attempt e (omega arith) (omega arith)
in_window a (Memᴰ.tail (Memᴰ.tail (Memᴰ.head e))) = at a attempt e (omega arith) (omega arith)
in_window a (Memᴰ.tail (Memᴰ.tail (Memᴰ.tail m))) = elim m [ ]

allowed_le_limit_example :
    allowed hashing (codes "s:source") 2 60 (attempt ∷ later_attempt ∷ attempt ∷ []) account ≤ 2
allowed_le_limit_example =
    allowed_le_limit hashing (codes "s:source") 2 60 500 (attempt ∷ later_attempt ∷ attempt ∷ [])
      account ended in_window

-- A wrong password.
refuses :
    (login hashing settings token_env (codes "Guest@Tab") renewed source idle).0
    ≡ err authentication_error
unfolding login transaction purge_expired_throttles consume_bucket first where_ any order_by
    insert_by text_eq normalized_or_invalid normalize_email strip is_space count_char has_parts
    write_credential count_attempt find_bucket is_expired purged_keys upsert_bucket add_session
    credential_for_login hash_password is_token is_token_char token_digest validate_password
    verify_password check_login login_body new_digest rehash translate all update_where join lower
    lower_char strip_left strip_right branch gets modify pure reads require settle transact ◌>>=◌
    count_attempts
refuses = refl

login_raises_example :
    (buckets : List LoginThrottle) × ((login hashing settings token_env
        (codes "Guest@Tab")
        renewed
        source
        idle).1
      ≡ record idle { database = record account { login_throttles = buckets } })
login_raises_example =
    login_raises hashing settings token_env (codes "Guest@Tab") renewed source idle refuses
