-- ===== src/Tests/Management.antt =====
-- The management operations on the tenant.
use editingtab_platform_core.Shared.{true, false, [], ◌∷◌, none, some, codes}
use editingtab_platform_core.Authorization.Guards.{by_codes}
use editingtab_platform_core.Authorization.Services.Api.{
  create_role, update_role, change_role_permission, archive_role, restore_role, change_assignment,
  archive_member, add_member, restore_member,
}
use editingtab_platform_core.Authorization.Access.Effective.{HasAdministrator}
use editingtab_platform_core.Authorization.Access.Escalation.{NoEscalation}
use editingtab_platform_core.Authorization.Access.Administrator.Sessions.{
  update_role-HasAdministrator, change_role_permission-HasAdministrator,
  archive_role-HasAdministrator, restore_role-HasAdministrator, change_assignment-HasAdministrator,
  archive_member-HasAdministrator,
}
use editingtab_platform_core.Authorization.Access.Escalation.Sessions.{
  create_role-NoEscalation, update_role-NoEscalation, change_role_permission-NoEscalation,
  restore_role-NoEscalation, change_assignment-NoEscalation, add_member-NoEscalation,
  restore_member-NoEscalation,
}
use editingtab_platform_core.Tests.Tenant.{
  env, database, session, owner_is_administrator, keyed_roles, assigned_members,
}

create_role-NoEscalation_example :
    NoEscalation database
      (create_role env 1 1
        (codes "Clerk")
        (some (by_codes ("core.roles.read" ∷ [])))
        none
        session).1.database
      1
      1
create_role-NoEscalation_example =
    create_role-NoEscalation 1 1 session env (codes "Clerk")
      (some (by_codes ("core.roles.read" ∷ []))) none

update_role-HasAdministrator_example :
    HasAdministrator
      (update_role env 1 1 22
        (codes "Clerk")
        (some (by_codes ("core.roles.read" ∷ [])))
        none
        session).1.database
      1
update_role-HasAdministrator_example =
    update_role-HasAdministrator 1 1 session env 22 (codes "Clerk")
      (some (by_codes ("core.roles.read" ∷ []))) none owner_is_administrator

update_role-NoEscalation_example :
    NoEscalation database
      (update_role env 1 1 22
        (codes "Clerk")
        (some (by_codes ("core.roles.read" ∷ [])))
        none
        session).1.database
      1
      1
update_role-NoEscalation_example =
    update_role-NoEscalation 1 1 session env 22 (codes "Clerk")
      (some (by_codes ("core.roles.read" ∷ []))) none

change_role_permission-HasAdministrator_example :
    HasAdministrator
      (change_role_permission env 1 1 22 "core.roles.read" false false session).1.database
      1
change_role_permission-HasAdministrator_example =
    change_role_permission-HasAdministrator 1 1 session env 22 "core.roles.read" false false
      owner_is_administrator

change_role_permission-NoEscalation_example :
    NoEscalation database
      (change_role_permission env 1 1 22 "core.roles.read" false false session).1.database
      1
      1
change_role_permission-NoEscalation_example =
    change_role_permission-NoEscalation 1 1 session env 22 "core.roles.read" false false

archive_role-HasAdministrator_example :
    HasAdministrator (archive_role env 1 1 22 session).1.database 1
archive_role-HasAdministrator_example =
    archive_role-HasAdministrator 1 1 session env 22 owner_is_administrator

restore_role-HasAdministrator_example :
    HasAdministrator (restore_role env 1 1 23 session).1.database 1
restore_role-HasAdministrator_example =
    restore_role-HasAdministrator 1 1 session env 23 keyed_roles owner_is_administrator

restore_role-NoEscalation_example :
    NoEscalation database (restore_role env 1 1 23 session).1.database 1 1
restore_role-NoEscalation_example = restore_role-NoEscalation 1 1 session env 23

change_assignment-HasAdministrator_example :
    HasAdministrator (change_assignment 1 1 12 22 true session).1.database 1
change_assignment-HasAdministrator_example =
    change_assignment-HasAdministrator 1 1 session 12 22 true owner_is_administrator

change_assignment-NoEscalation_example :
    NoEscalation database (change_assignment 1 1 12 22 true session).1.database 1 1
change_assignment-NoEscalation_example = change_assignment-NoEscalation 1 1 session 12 22 true

archive_member-HasAdministrator_example :
    HasAdministrator (archive_member env 1 1 12 session).1.database 1
archive_member-HasAdministrator_example =
    archive_member-HasAdministrator 1 1 session env 12 owner_is_administrator

add_member-NoEscalation_example :
    NoEscalation database (add_member env 1 1 3 (22 ∷ []) session).1.database 1 1
add_member-NoEscalation_example =
    add_member-NoEscalation 1 1 session env 3 (22 ∷ []) assigned_members

restore_member-NoEscalation_example :
    NoEscalation database (restore_member env 1 1 12 (22 ∷ []) session).1.database 1 1
restore_member-NoEscalation_example = restore_member-NoEscalation 1 1 session env 12 (22 ∷ [])
