-- ===== src/Tests/Assigning.antt =====
-- The owner assigns roles of the tenant.
use editingtab_platform_core.Shared.{
  true, false, none, ◌≡◌, refl, ap, any, all, contains, first, join, where_, subset, same_set,
}
use editingtab_platform_core.Outcome.{ok}
use editingtab_platform_core.Identity.Repository.{get_organization}
use editingtab_platform_core.Authorization.Policy.{role_assign}
use editingtab_platform_core.Authorization.Repository.{
  active_members, assignable_permission_codes, effective_permissions, effective_grant_authority,
  has_assignment, permission_query, role_permission_grants,
}
use editingtab_platform_core.Authorization.Guards.{
  actor_membership, authorization_context, authorize, find_role, grantable,
}
use editingtab_platform_core.Authorization.Services.Assignments.{current_membership}
use editingtab_platform_core.Authorization.Services.Api.{change_assignment}
use editingtab_platform_core.Authorization.Access.Assigning.{assigned, change_assignment_adds}
use editingtab_platform_core.Authorization.Access.Assigning.Twice.{change_assignment_twice}
use editingtab_platform_core.Tests.Tenant.{database, owner_is_administrator, role, session, tab}

authorized : authorize database 1 1 role_assign ≡ ok tab
unfolding authorize authorization_context actor_membership assignable_permission_codes
    effective_permissions permission_query active_members get_organization same_set subset all
    contains any join where_ first
authorized = refl

found : find_role database 1 21 false ≡ ok (role 21 "Organization owner" "organization owner" none)
unfolding find_role first
found = refl

member : current_membership database 1 12 ≡ true
unfolding current_membership active_members any join where_
member = refl

granted :
    grantable (effective_grant_authority database 1 1) (role_permission_grants database 1 21)
    ≡ ok tt
unfolding grantable effective_grant_authority permission_query role_permission_grants subset all
    contains any join where_
granted = refl

unassigned : has_assignment database 1 12 21 ≡ false
unfolding has_assignment any
unassigned = refl

change_assignment_adds_example :
    change_assignment 1 1 12 21 false session
    ≡ (ok tt, record session { database = assigned 1 1 12 21 session })
change_assignment_adds_example =
    change_assignment_adds 1 1 12 21 session refl authorized found member granted unassigned
      owner_is_administrator

first_call : (change_assignment 1 1 12 21 false session).0 ≡ ok tt
first_call =
    ap (λ r. r.0)
      (change_assignment_adds 1 1 12 21 session refl authorized found member granted unassigned
        owner_is_administrator)

change_assignment_twice_example :
    let s' = (change_assignment 1 1 12 21 false session).1 in
    (change_assignment 1 1 12 21 false s' ≡ (ok tt, s'))
    × (has_assignment s'.database 1 12 21 ≡ true)
change_assignment_twice_example = change_assignment_twice 1 1 12 21 session first_call
