-- ===== src/Internal/Booking.antt =====
-- internal/booking.py: the authorization of booking calls.
pub mod Guard
pub mod Checks
pub mod Entitled
pub mod Granted
pub mod Delivered
pub mod Forwarded
use editingtab_platform_core.Shared.{
  ℕ, Bool, true, List, [], ◌∷◌, Option, some, String, Text, contains,
}
use editingtab_platform_core.Errors.{Error, authorization_failure, storage_unavailable}
use editingtab_platform_core.Outcome.{Outcome, ok, err, or_raise}
use editingtab_platform_core.Authorization.Policy.{booking_permissions}
use editingtab_platform_core.Authorization.Services.Transaction.{transaction}
use editingtab_platform_core.Auth.Security.{Hashing, token_digest}
use editingtab_platform_core.Auth.Repository.{authenticated_user}
use editingtab_platform_core.Internal.Booking.Checks.{
  invalid_request, invalid_user_session, denied_as, platform_denied, BookingAccess,
  authorize_booking_body,
}
use editingtab_platform_core.Platform.Models.{text}
use editingtab_platform_core.Platform.Services.Modules.{require_platform, platform_audit}
use editingtab_platform_core.Platform.Services.Reads.{require_entitlement}
use editingtab_platform_core.Storage.Tables.{Database, Session}
use editingtab_platform_core.Storage.Exec.{Exec, pure, reads, require, ◌>>=◌, ◌>>◌}

abbrev pub supported_destructive_operations : List String
supported_destructive_operations = "reservation.purge" ∷ []

abbrev or_unavailable : Error → Error
or_unavailable storage_unavailable = authorization_failure 503 "authorization_unavailable"
or_unavailable e = e

-- `except StorageUnavailable` as 503, around the transaction.
unfoldable pub storage_as_failure : {A : Type 0} → Outcome A × Session → Outcome A × Session
storage_as_failure (ok a, s) = (ok a, s)
storage_as_failure (err e, s) = (err (or_unavailable e), s)

pub record DestructiveAccess : Type 0 where
  pub allowed : Bool
  pub user_id : ℕ
  pub organization_id : ℕ
  pub operation : String

unfoldable pub authorize_destructive_body : ℕ → Text → ℕ → String → Exec Database DestructiveAccess
unfolding denied_as platform_denied
authorize_destructive_body clock digest organization_id operation = do
  user ← reads (λ db. or_raise (authenticated_user db clock digest) invalid_user_session)
  reads (λ db. platform_denied (require_platform db user.id))
  reads (λ db. denied_as "module_disabled" (require_entitlement db organization_id "booking"))
  platform_audit (some user.id) (some organization_id) "booking.destructive.authorized"
      organization_id [] (("operation", text operation) ∷ [])
  pure (record {
    allowed = true;
    user_id = user.id;
    organization_id = organization_id;
    operation = operation;
  })

module _ (h : Hashing) (clock : ℕ) (token : Option Text) (organization_id : ℕ) where
  unfoldable pub authorize_booking : String → Exec Session BookingAccess
  unfolding authorize_booking_body storage_as_failure
  authorize_booking permission = do
    require (contains booking_permissions permission) invalid_request
    digest ← reads (λ _. or_raise (token_digest h token) invalid_user_session)
    λ s.
        storage_as_failure
          (transaction (reads (authorize_booking_body clock digest organization_id permission)) s)

  unfoldable pub authorize_destructive_booking_operation : String → Exec Session DestructiveAccess
  unfolding authorize_destructive_body storage_as_failure
  authorize_destructive_booking_operation operation = do
    require (contains supported_destructive_operations operation) invalid_request
    digest ← reads (λ _. or_raise (token_digest h token) invalid_user_session)
    λ s.
        storage_as_failure
          (transaction (authorize_destructive_body clock digest organization_id operation) s)
