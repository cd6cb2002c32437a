-- ===== src/Config.antt =====
-- config.py: the settings that the services read, and their bounds.
use editingtab_platform_core.Shared.{
  ℕ, Bool, true, Option, none, some, String, Text, str_eq, length, all, leb, ◌==◌, ◌&&◌, ◌||◌, not,
  if◌then◌else◌,
}

-- `environment_set` is `"environment" in model_fields_set`.
pub record Settings : Type 0 where
  pub environment : String
  pub environment_set : Bool
  pub auth_session_seconds : ℕ
  pub auth_window_seconds : ℕ
  pub auth_account_limit : ℕ
  pub auth_source_limit : ℕ
  pub auth_invitation_seconds : ℕ
  pub auth_password_reset_seconds : ℕ
  pub booking_service_current_digest : Option Text
  pub booking_service_previous_digest : Option Text

-- The values in a range, as `Field(ge=…, le=…)` checks them.
abbrev pub within : ℕ → ℕ → ℕ → Bool
within low high value = leb low value && leb value high

-- `[0-9a-f]{64}`
unfoldable pub is_service_digest : Text → Bool
is_service_digest digest =
    length digest == 64
    && all (λ c. (leb b'0' c && leb c b'9') || (leb b'a' c && leb c b'f')) digest

abbrev pub is_absent_or : (Text → Bool) → Option Text → Bool
is_absent_or p none = true
is_absent_or p (some t) = p t

-- The checks of the fields that are modelled.
unfoldable pub is_valid : Settings → Bool
unfolding is_service_digest
is_valid s =
    (str_eq s.environment "development"
      || str_eq s.environment "test"
      || str_eq s.environment "production")
    && within 60 604800 s.auth_session_seconds
    && within 1 3600 s.auth_window_seconds
    && within 1 100 s.auth_account_limit
    && within 1 1000 s.auth_source_limit
    && within 300 2592000 s.auth_invitation_seconds
    && within 300 86400 s.auth_password_reset_seconds
    && is_absent_or is_service_digest s.booking_service_current_digest
    && is_absent_or is_service_digest s.booking_service_previous_digest

-- An environment that is development or test, and was set.
unfoldable pub is_local : Settings → Bool
is_local s =
    (str_eq s.environment "development" || str_eq s.environment "test") && s.environment_set

unfoldable pub auth_secure_cookie : Settings → Bool
unfolding is_local
auth_secure_cookie s = not (is_local s)

unfoldable pub auth_cookie_samesite : Settings → String
unfolding auth_secure_cookie
auth_cookie_samesite s = if auth_secure_cookie s then "none" else "lax"
