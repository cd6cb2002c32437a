-- ===== src/Tests/Local.antt =====
-- The commands of a local installation: a new user with a password, and an organization.
use editingtab_platform_core.Identity.Repository.{
  create_user, create_organization, create_membership,
}
use editingtab_platform_core.Authorization.Repository.{
  replace_permissions, permission_state, insert_role, insert_permissions, insert_assignment, audit,
}
use editingtab_platform_core.Authorization.Onboarding.{create_owned_organization}
use editingtab_platform_core.Authorization.Services.Transaction.{
  translate_constraint, translate, transaction,
}
use editingtab_platform_core.Identity.Normalization.{
  slug_from, clean_name, is_slug_char, is_slug, normalize_slug, has_parts, normalize_email,
}
use editingtab_platform_core.Shared.{
  strip_right, strip_left, order_by, insert_by, where_, first, text_eq, lower_char, lower, any,
  count_char, is_space, strip, codes, true, ◌≡◌, refl,
}
use editingtab_platform_core.Config.{is_local}
use editingtab_platform_core.Outcome.{ok}
use editingtab_platform_core.Authorization.Access.Effective.{HasAdministrator}
use editingtab_platform_core.Authorization.Access.Bootstrapped.{bootstrap-HasAdministrator}
use editingtab_platform_core.Authorization.Bootstrap.{bootstrap, bootstrap_body}
use editingtab_platform_core.Auth.Provision.{
  require_local, provision_user, provision_user_body, provisioned_user, nested,
}
use editingtab_platform_core.Auth.Provisioned.{ProvisionedBy, provision_user-Provisioned}
use editingtab_platform_core.Auth.Services.Transaction
use editingtab_platform_core.Auth.Repository.Records.{insert_credential}
use editingtab_platform_core.Identity.Services
use editingtab_platform_core.Auth.Security.{hash_password, validate_password}
use editingtab_platform_core.Storage.Exec.{
  transact, settle, require, reads, pure, modify, gets, ◌>>=◌,
}
use editingtab_platform_core.Tests.Tenant.{env, session}
use editingtab_platform_core.Tests.Account.{hashing, settings, password}

organization_bootstrapped :
    (bootstrap settings env (codes "guest@tab") (codes "demo") (codes "Demo") session).0 ≡ ok 1000
unfolding bootstrap bootstrap_body ◌>>=◌ require_local is_local normalize_email strip is_space
    count_char any has_parts normalize_slug lower is_slug is_slug_char lower_char clean_name
    transaction text_eq first create_owned_organization audit insert_assignment insert_permissions
    insert_role permission_state replace_permissions translate translate_constraint slug_from
    create_membership create_organization where_ insert_by order_by strip_left strip_right gets
    modify pure reads require settle transact
organization_bootstrapped = refl

bootstrap-HasAdministrator_example :
    (is_local settings ≡ true)
    × HasAdministrator
        (bootstrap settings env
          (codes "guest@tab")
          (codes "demo")
          (codes "Demo")
          session).1.database
        1000
bootstrap-HasAdministrator_example =
    bootstrap-HasAdministrator settings env (codes "guest@tab") (codes "demo") (codes "Demo")
      session {id = 1000} organization_bootstrapped

user_provisioned :
    (provision_user hashing settings env (codes "new@tab") (codes "New") password session).0
    ≡ ok 1000
unfolding provision_user provision_user_body ◌>>=◌ require_local is_local normalize_email strip
    is_space count_char any has_parts lower lower_char clean_name text_eq first strip_left
    strip_right gets modify pure reads require settle transact hash_password validate_password
    Transaction.transaction Transaction.translate Services.transaction Services.translate
    Services.translate_constraint provisioned_user nested Services.create_user
    Services.create_user_body create_user insert_credential
user_provisioned = refl

provision_user-Provisioned_example :
    ProvisionedBy hashing settings env
      (codes "new@tab")
      (codes "New")
      password
      session.database
      1000
      (provision_user hashing settings env
        (codes "new@tab")
        (codes "New")
        password
        session).1.database
provision_user-Provisioned_example =
    provision_user-Provisioned hashing settings env (codes "new@tab") (codes "New") password session
      {id = 1000} user_provisioned
