-- ===== src/Errors.antt =====
-- The exceptions of authorization/policy.py, identity/errors.py, auth/security.py,
-- auth/provision.py, platform/services.py and internal/booking.py as one type, with the class tests
-- that the `except` clauses make.
use editingtab_platform_core.Shared.{ℕ, Bool, true, false, String}

-- The named constraints that a handler tells apart; every other violation is `other_constraint`.
pub data Constraint : Type 0 where
  uq_core_roles_name core_membership_roles_pkey uq_core_organizations_slug : Constraint
  uq_core_users_normalized_email uq_core_memberships_organization_user : Constraint
  other_constraint : Constraint

pub data Error : Type 0 where
  access_error inaccessible invalid_permission conflict last_administrator : Error
  protected_role storage_unavailable : Error
  organization_conflict invalid_module invalid_onboarding bootstrap_closed : Error
  invalid_identity identity_conflict identity_not_found identity_unavailable : Error
  identity_storage_error : Error
  authentication_error authentication_unavailable login_throttled value_error : Error
  hashing_error sqlalchemy_error : Error
  credential_conflict unavailable_identity configuration_error get_pass_warning eof_error : Error
  local_provisioning_error : String → Error
  integrity_error : Constraint → Error
  authorization_failure : ℕ → String → Error

-- `isinstance(error, AccessError)`
unfoldable pub is_access_error : Error → Bool
is_access_error access_error = true
is_access_error inaccessible = true
is_access_error invalid_permission = true
is_access_error conflict = true
is_access_error last_administrator = true
is_access_error protected_role = true
is_access_error storage_unavailable = true
is_access_error organization_conflict = true
is_access_error invalid_module = true
is_access_error invalid_onboarding = true
is_access_error bootstrap_closed = true
is_access_error _ = false

-- `isinstance(error, Conflict)`
unfoldable pub is_conflict : Error → Bool
is_conflict conflict = true
is_conflict last_administrator = true
is_conflict protected_role = true
is_conflict organization_conflict = true
is_conflict _ = false

-- `isinstance(error, Inaccessible)`
unfoldable pub is_inaccessible : Error → Bool
is_inaccessible inaccessible = true
is_inaccessible _ = false

-- The HTTP status of an access error, inherited where a class does not set its own.
unfoldable pub status : Error → ℕ
status inaccessible = 404
status invalid_permission = 422
status conflict = 409
status last_administrator = 409
status protected_role = 409
status organization_conflict = 409
status storage_unavailable = 503
status invalid_module = 422
status invalid_onboarding = 422
status bootstrap_closed = 409
status _ = 403
