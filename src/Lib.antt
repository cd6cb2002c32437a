-- ===== src/Lib.antt =====
-- editingtab_platform_core
--
-- The tenant platform of editingtab_core, in Python over PostgreSQL: organizations with members
-- (identity), roles whose permissions members may use and hand on (authorization), sign-in,
-- invitations and resets (auth), the operator's side with module entitlements (platform), and the
-- booking service's questions (internal). The HTTP layers call the services modelled here; each
-- service call runs in one transaction of its own, sign-in and a reset request in two.
--
-- Files and the code they model, with paths below src/editingtab_core:
--   Errors.antt, Outcome.antt: the exceptions of authorization/policy.py, identity/errors.py,
--     auth/security.py, auth/provision.py, platform/services.py and internal/booking.py as one type
--     with its class tests, and calls that return or raise.
--   Storage/: the tables as lists of rows (Tables), calls that read and write them (Exec), and
--     what holds when such a call returns (Ensures, Idle). A transaction keeps the writes of a body
--     that returns and drops those of one that raises.
--   Identity/: identity/models.py, normalization.py, repository.py and services.py.
--   Authorization/: authorization/models.py, policy.py, repository.py (Repository, with the
--     inserts and deletes in Repository/Writes), onboarding.py, and services.py in Guards (what
--     every call checks first), Views (what calls return) and Services (one body for each public
--     operation, by kind, and in Api the operations, each its body in a transaction).
--   Authorization/Access/: the specification. A Chain is a row of each table from a user to a
--     permission, all current; MayUse, MayGrant and HasAdministrator are read off chains, without
--     the queries of the code. Effective and Authorize relate the queries to it, Escalation and
--     Administrator follow it through the writes of the management operations, Join through
--     those of members, Founding through onboarding, and Bootstrapped through bootstrap of
--     authorization/bootstrap.py (Bootstrap). Assigning runs change_assignment, and Archiving is what
--     archive_role and archive_member check and leave.
--   Config.antt: of config.py the settings that the services read, and their bounds.
--   Auth/: auth/models.py, security.py (Security), repository.py (Repository, with the buckets in
--     Throttle and the other tables in Records) and services.py in Services (Transaction, Attempts,
--     Login, Sessions, Passwords, Invitations, Acceptance, Resets, Access). Sessions, Throttling,
--     SignIn, Resets, Changing and Accepting follow them: Throttling/Counters reads the buckets as
--     counters, Attempts and Limit are about the calls that count, SignIn is login, returned
--     (RoundTrip) and raised (Failure), Changing is change_password, Accepting what a new member is
--     given (Invited). Provision and Diagnose are the functions of auth/provision.py and
--     auth/diagnose.py; Provisioned follows provision_user.
--   Platform/: platform/models.py, services.py and booking_permissions.py (BookingPermissions);
--     Onboarding follows onboard and the bootstrap, BookingGrants the provisioned role.
--   Internal/Booking/: internal/booking.py, with BookingRequestGuard in Guard; Entitled and Granted
--     relate an authorization to the rows, Delivered and Forwarded the guard to what it receives.
--   Tests/: a small tenant, and the theorems at runs on it.
--   Shared/: Boolean tests, lists, text as character codes, joins and their members.
--
-- Conventions. Identifiers and times are numbers. The clock, uuid4 and the token generator are
-- fields of an Env that a call takes; it reads the clock once. The model is sequential: row locks,
-- flushes and isolation have no part in it. A SQL join is a join of lists in the order of the
-- tables, which the code never relies on where it does not sort. The inserts check the primary,
-- unique and foreign keys that the tables declare and raise the constraint's name; VARCHAR bounds
-- and the check constraints on the shape of text are not modelled. A loaded row that the code
-- changes is written by its key. Checks by isinstance are the types of the model. Nothing runs on
-- fuel: every loop is over a list.
--
-- What the code takes from elsewhere is a parameter: hashlib and argon2 as the record Hashing, and
-- the test for a loopback address of ipaddress as a function.
--
-- Not modelled: the main functions of the command line tools (authorization/bootstrap.py,
-- platform/bootstrap.py, auth/provision.py, auth/diagnose.py), the routes and request models
-- (app.py, the http.py files, and those of internal/booking.py), of config.py the validators of
-- addresses and origins, database.py and the migrations.
pub mod Shared
pub mod Errors
pub mod Outcome
pub mod Config
pub mod Storage
pub mod Identity
pub mod Authorization
pub mod Auth
pub mod Platform
pub mod Internal
pub mod Tests
