-- ===== src/Internal/Booking/Granted.antt =====
-- `authorize_booking` of internal/booking.py against the rows on which its answer rests.
use editingtab_platform_core.Shared.{
  ℕ, true, false, Memᴰ, Option, some, String, Text, ◌≡◌, ◌∙◌, ◌↔◌, contains-Memᴰ, Memᴰ-contains,
  Memᴰ-first, &&-intro, ≡→==,
}
use editingtab_platform_core.Outcome.{Outcome, ok, err, or_raise, >>=-ok, or_raise-ok}
use editingtab_platform_core.Identity.Models.{Organization, User}
use editingtab_platform_core.Identity.Repository.{get_organization}
use editingtab_platform_core.Authorization.Policy.{booking_permissions}
use editingtab_platform_core.Authorization.Guards.{authorization_context}
use editingtab_platform_core.Authorization.Services.Transaction.{transaction, transaction-Ensures}
use editingtab_platform_core.Authorization.Access.Effective.{MayUse}
use editingtab_platform_core.Authorization.Access.Authorize.{
  IsAssignable, authorization_context-MayUse, MayUse-authorization_context,
}
use editingtab_platform_core.Auth.Security.{Hashing, token_digest}
use editingtab_platform_core.Auth.Repository.{authenticated_user}
use editingtab_platform_core.Platform.Services.Reads.{require_entitlement}
use editingtab_platform_core.Internal.Booking.{authorize_booking, storage_as_failure}
use editingtab_platform_core.Internal.Booking.Entitled.{
  HasBooking, require_entitlement-HasBooking, HasBooking-require_entitlement,
}
use editingtab_platform_core.Internal.Booking.Checks.{
  BookingAccess, denied_as, authorize_booking_body, invalid_user_session,
}
use editingtab_platform_core.Storage.Tables.{Database, Session}
use editingtab_platform_core.Storage.Exec.{reads, transact, settle, ◌>>=◌}
use editingtab_platform_core.Storage.Ensures.{
  Ensures, Ensures-returned, Ensures-reads, Ensures-require, Ensures-reads_last,
}

-- The rows that let the bearer of the token use the permission in the organization.
pub record BookingGranted (h : Hashing) (clock : ℕ) (token : Option Text) (organization_id : ℕ)
    (permission : String) (db : Database) : Type 0 where
  pub digest : Text
  pub token_valid : token_digest h token ≡ some digest
  pub user : User
  pub authenticated : authenticated_user db clock digest ≡ some user
  pub booking_permission : Memᴰ permission booking_permissions
  pub assignable : IsAssignable db permission
  pub may_use : MayUse db organization_id user.id permission
  pub has_booking : HasBooking db organization_id

-- A chain's organization is current.
Chain-get_organization :
    {db : Database} {organization_id user_id : ℕ} {code : String}
    → MayUse db organization_id user_id code
    → (o : Organization) × (get_organization db organization_id ≡ some o)
unfolding get_organization
Chain-get_organization {db} {organization_id} u =
    let c = u.chain in
    Memᴰ-first _ db.organizations c.organization_row (
      &&-intro _ _
        (≡→== _ _ (
          c.organization_key ∙ c.membership_organization ∙ c.assignment_organization
          ∙ c.role_organization ∙ c.p_organization))
        (rw c.organization_current))

denied_as-ok :
    {A : Type 0} (code : String) (m : Outcome A) {a : A} → denied_as code m ≡ ok a → m ≡ ok a
unfolding denied_as
denied_as-ok code (ok a) e = e
denied_as-ok code (err x) e = cc

module _ (clock : ℕ) (digest : Text) (organization_id : ℕ) (permission : String)
    (db : Database) where
  authorize_booking_body-user :
      {access : BookingAccess}
      → authorize_booking_body clock digest organization_id permission db ≡ ok access
      → (user : User) × (authenticated_user db clock digest ≡ some user)
        × IsAssignable db permission
        × MayUse db organization_id user.id permission
        × HasBooking db organization_id
  unfolding authorize_booking_body
  authorize_booking_body-user e =
      let (user, eu, e1) =
        >>=-ok (or_raise (authenticated_user db clock digest) invalid_user_session) _ e in
      let (_, ec, e2) =
        >>=-ok
          (denied_as "permission_denied"
            (authorization_context db organization_id user.id permission))
          _ e1 in
      let (_, em, _) =
        >>=-ok (denied_as "module_disabled" (require_entitlement db organization_id "booking")) _
          e2 in
      let (a, u, _) =
        authorization_context-MayUse db organization_id user.id permission
          (denied_as-ok "permission_denied" _ ec) in
      (
        user,
        or_raise-ok _ _ eu,
        a,
        u,
        require_entitlement-HasBooking db organization_id (denied_as-ok "module_disabled" _ em),
      )

  user-authorize_booking_body :
      (user : User)
      → authenticated_user db clock digest ≡ some user
      → IsAssignable db permission
      → MayUse db organization_id user.id permission
      → HasBooking db organization_id
      → (access : BookingAccess) × (authorize_booking_body clock digest organization_id permission
            db
          ≡ ok access)
  unfolding authorize_booking_body denied_as
  user-authorize_booking_body user eu a u b =
      let (o, eo) = Chain-get_organization u in
      let (c, ec, _) = MayUse-authorization_context db organization_id user.id permission a u eo in
      (
        record {
          allowed = true;
          user_id = user.id;
          membership_id = c.membership.id;
          organization_id = organization_id;
          permission = permission;
        },
        rw (eu, ec, HasBooking-require_entitlement db organization_id eo b),
      )

module _ (h : Hashing) (clock : ℕ) (token : Option Text) (organization_id : ℕ) (permission : String)
    (s : Session) where
  storage_as_failure-Ensures :
      {A : Type 0} (Q : A → Session → Type 0) (r : Outcome A × Session)
      → Ensures Q r
      → Ensures Q (storage_as_failure r)
  unfolding storage_as_failure Ensures
  storage_as_failure-Ensures Q (ok a, s') q = q
  storage_as_failure-Ensures Q (err e, s') q = tt

  authorize_booking-Granted :
      Ensures
        (λ _ _. BookingGranted h clock token organization_id permission s.database)
        (authorize_booking h clock token organization_id permission s)
  unfolding authorize_booking
  authorize_booking-Granted = Ensures-require _ _ _ _ _ λ p. Ensures-reads _ _ _ _ λ digest d.
      storage_as_failure-Ensures _ _ (
        transaction-Ensures (reads (authorize_booking_body clock digest organization_id permission))
          (λ _ _. BookingGranted h clock token organization_id permission s.database) s
          (Ensures-reads_last _ _ _ λ _ e.
            let (user, eu, a, u, b) =
              authorize_booking_body-user clock digest organization_id permission s.database e in
            record {
              digest = digest;
              token_valid = or_raise-ok _ _ d;
              user = user;
              authenticated = eu;
              booking_permission = contains-Memᴰ booking_permissions p;
              assignable = a;
              may_use = u;
              has_booking = b;
            }))

  Granted-authorize_booking :
      s.in_transaction ≡ false
      → BookingGranted h clock token organization_id permission s.database
      → (access : BookingAccess) × (authorize_booking h clock token organization_id permission s
          ≡ (ok access, s))
  unfolding authorize_booking transaction transact settle storage_as_failure ◌>>=◌
  Granted-authorize_booking idle g =
      let (access, e) =
        user-authorize_booking_body clock g.digest organization_id permission s.database g.user
          g.authenticated g.assignable g.may_use g.has_booking in
      (access, rw (Memᴰ-contains booking_permissions g.booking_permission, g.token_valid, idle, e))

-- On an idle session, `authorize_booking` lets a call through, and leaves the session as it was,
-- exactly when the permission is a booking permission, the token's digest authenticates a user,
-- the permission is assignable in the registry, a chain of current rows gives it to that user in
-- the organization, and the organization has the booking module enabled.
pub authorize_booking_iff :
    (h : Hashing) (clock : ℕ) (token : Option Text) (organization_id : ℕ) (permission : String)
    (s : Session)
    → s.in_transaction ≡ false
    → ((access : BookingAccess) × (authorize_booking h clock token organization_id permission s
          ≡ (ok access, s)))
      ↔ BookingGranted h clock token organization_id permission s.database
authorize_booking_iff h clock token organization_id permission s idle = (
  λ (access, e).
      Ensures-returned _ _ (authorize_booking-Granted h clock token organization_id permission s) e,
  Granted-authorize_booking h clock token organization_id permission s idle,
)
