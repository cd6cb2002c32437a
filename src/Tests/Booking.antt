-- ===== src/Tests/Booking.antt =====
-- The booking service asks for the manager of the tenant, and the booking role is provisioned.
use editingtab_platform_core.Authorization.Services.Rows.{write_role, dict_get}
use editingtab_platform_core.Config.{auth_secure_cookie}
use editingtab_platform_core.Platform.Services.Reads.{require_entitlement}
use editingtab_platform_core.Platform.Services.Modules.{
  platform_audit, require_platform, find_current, enabled_modules_of, check_module,
}
use editingtab_platform_core.Errors.{is_inaccessible, is_access_error}
use editingtab_platform_core.Identity.Repository.{get_organization}
use editingtab_platform_core.Authorization.Repository.{
  role_permission_grants, has_assignment, replace_permissions, rename_role, permission_state,
  insert_role, insert_permissions, insert_assignment, audit, permission_query, frozenset,
  effective_permissions, active_members, assignable_permission_codes,
}
use editingtab_platform_core.Authorization.Guards.{
  from_keys, authorize, actor_membership, authorization_context,
}
use editingtab_platform_core.Auth.Repository.{is_live, authenticated_session, authenticated_user}
use editingtab_platform_core.Authorization.Services.Transaction.{
  translate_constraint, translate, transaction,
}
use editingtab_platform_core.Auth.Security.{is_token_char, is_token, token_digest}
use editingtab_platform_core.Shared.{
  lower, lower_char, update_where, lower_char, lower, order_by, insert_by, subset, same_set, where_,
  join, first, all, any, contains, Bool, true, false, List, [], ◌∷◌, ◌++◌, map, Option, none, some,
  Text, codes, text_eq, ◌≡◌, refl,
}
use editingtab_platform_core.Outcome.{ok}
use editingtab_platform_core.Authorization.Policy.{booking_permissions}
use editingtab_platform_core.Internal.Booking.{storage_as_failure, authorize_booking}
use editingtab_platform_core.Internal.Booking.Checks.{
  denied_as, authorize_booking_body, BookingAccess,
}
use editingtab_platform_core.Internal.Booking.Guard.{Scope, Message, request, guard, forwarded}
use editingtab_platform_core.Internal.Booking.Granted.{BookingGranted, authorize_booking_iff}
use editingtab_platform_core.Internal.Booking.Forwarded.{Accepted, guard_forwarded_iff}
use editingtab_platform_core.Platform.BookingPermissions.{
  replace_if_changed, provisioned_member, provision_body, named_role, dict_eq, designated_role,
  designate, audit_provision, assign_if_missing, provision,
}
use editingtab_platform_core.Platform.BookingGrants.Provision.{
  OnlyBookingUses, provision-OnlyBookingUses,
}
use editingtab_platform_core.Storage.Tables.{Database, Session}
use editingtab_platform_core.Storage.Exec.{
  pure, modify, gets, branch, transact, settle, require, reads, ◌>>=◌,
}
use editingtab_platform_core.Tests.Tenant.{database, definition, env, is_ok, permission}
use editingtab_platform_core.Tests.Account.{hashing, settings, token}

-- The tenant with the booking module, a session of user 2, and a booking permission of role 22.
abbrev booking : Database
booking = record database {
  permission_definitions = database.permission_definitions ++ map definition booking_permissions;
  role_permissions = permission 22 false "booking.inventory.read" ∷ database.role_permissions;
  module_entitlements =
      record { organization_id = 1; module_code = "booking"; enabled = true } ∷ [];
  login_sessions =
      record {
        id = 41;
        user_id = 2;
        token_digest = token;
        created_at = 100;
        expires_at = 900;
        revoked_at = none;
      }
      ∷ [];
}

abbrev idle_booking : Session
idle_booking = record { in_transaction = false; database = booking }

abbrev access : BookingAccess
access = record {
  allowed = true;
  user_id = 2;
  membership_id = 12;
  organization_id = 1;
  permission = "booking.inventory.read";
}

allows :
    authorize_booking hashing 300 (some token) 1 "booking.inventory.read" idle_booking
    ≡ (ok access, idle_booking)
unfolding authorize_booking contains any token_digest all transaction authenticated_user
    authenticated_session first join where_ authorization_context same_set subset
    assignable_permission_codes get_organization is_live is_token is_token_char actor_membership
    active_members effective_permissions frozenset permission_query translate translate_constraint
    is_access_error is_inaccessible authorize_booking_body denied_as storage_as_failure check_module
    enabled_modules_of find_current require_entitlement insert_by order_by reads require settle
    transact ◌>>=◌ text_eq
allows = refl

authorize_booking_iff_example :
    BookingGranted hashing 300 (some token) 1 "booking.inventory.read" booking
authorize_booking_iff_example =
    (authorize_booking_iff hashing 300 (some token) 1 "booking.inventory.read" idle_booking refl).0
      (access, allows)

-- The host is the loopback address, or none.
abbrev loopback : Text → Option Bool
loopback host = some (text_eq host (codes "127.0.0.1"))

abbrev scope : Scope
scope = record {
  type = "http";
  path = "/internal/v1/booking/authorize";
  method = "POST";
  scheme = some "http";
  client_host = some (codes "127.0.0.1");
  headers =
      (codes "Authorization", codes "Bearer service-secret-service-secret-service-secret-00")
      ∷ (codes "X-Core-Session", token)
      ∷ [];
}

abbrev messages : List Message
messages = request (codes "{") true ∷ request (codes "}") false ∷ []

forwards : guard hashing loopback settings scope messages ≡ forwarded (codes "{}")
unfolding guard auth_secure_cookie lower lower_char contains any text_eq where_ all token_digest
forwards = refl

guard_forwarded_iff_example : Accepted hashing loopback settings scope messages (codes "{}")
guard_forwarded_iff_example =
    (guard_forwarded_iff hashing loopback settings scope messages (codes "{}")).0 forwards

provisions : is_ok (provision env 2 1 11 idle_booking).0 ≡ true
unfolding provision require_platform authorize audit insert_assignment insert_permissions
    insert_role permission_state rename_role replace_permissions has_assignment
    role_permission_grants dict_get write_role assign_if_missing audit_provision designate
    designated_role dict_eq named_role provision_body provisioned_member replace_if_changed
    platform_audit update_where branch gets modify pure contains any all transaction first join
    where_ authorization_context same_set subset assignable_permission_codes get_organization
    actor_membership active_members effective_permissions frozenset permission_query translate
    translate_constraint check_module enabled_modules_of find_current require_entitlement insert_by
    order_by reads require settle transact ◌>>=◌ text_eq from_keys lower lower_char
provisions = refl

provision-OnlyBookingUses_example :
    OnlyBookingUses booking (provision env 2 1 11 idle_booking).1.database
provision-OnlyBookingUses_example = provision-OnlyBookingUses env 2 1 11 idle_booking
