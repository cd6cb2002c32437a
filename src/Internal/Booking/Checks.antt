-- ===== src/Internal/Booking/Checks.antt =====
-- internal/booking.py: the failures of the checks, and the checks of `authorize_booking`.
use editingtab_platform_core.Shared.{ℕ, Bool, true, String, Text, if◌then◌else◌}
use editingtab_platform_core.Errors.{Error, authorization_failure, is_access_error, is_inaccessible}
use editingtab_platform_core.Outcome.{Outcome, ok, err, or_raise, ◌>>=◌, ◌>>◌}
use editingtab_platform_core.Authorization.Guards.{authorization_context}
use editingtab_platform_core.Auth.Repository.{authenticated_user}
use editingtab_platform_core.Platform.Services.Reads.{require_entitlement}
use editingtab_platform_core.Storage.Tables.{Database}

abbrev pub invalid_request : Error
invalid_request = authorization_failure 422 "invalid_authorization_request"

abbrev pub invalid_user_session : Error
invalid_user_session = authorization_failure 401 "invalid_user_session"

-- `except Inaccessible` as 404, then `except AccessError` as 403 with the code.
unfoldable pub denied_as : {A : Type 0} → String → Outcome A → Outcome A
denied_as code (ok a) = ok a
denied_as code (err e) = err (
    if is_inaccessible e
    then authorization_failure 404 "organization_not_accessible"
    else if is_access_error e
    then authorization_failure 403 code
    else e)

-- `except AccessError` as 403, for a lookup that is not about an organization.
unfoldable pub platform_denied : {A : Type 0} → Outcome A → Outcome A
platform_denied (ok a) = ok a
platform_denied (err e) =
    err (if is_access_error e then authorization_failure 403 "platform_authority_required" else e)

pub record BookingAccess : Type 0 where
  pub allowed : Bool
  pub user_id : ℕ
  pub membership_id : ℕ
  pub organization_id : ℕ
  pub permission : String

unfoldable pub authorize_booking_body : ℕ → Text → ℕ → String → Database → Outcome BookingAccess
unfolding denied_as
authorize_booking_body clock digest organization_id permission db = do
  user ← or_raise (authenticated_user db clock digest) invalid_user_session
  context ←
      denied_as "permission_denied" (authorization_context db organization_id user.id permission)
  denied_as "module_disabled" (require_entitlement db organization_id "booking")
  ok (record {
    allowed = true;
    user_id = user.id;
    membership_id = context.membership.id;
    organization_id = organization_id;
    permission = permission;
  })
