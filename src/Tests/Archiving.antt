-- ===== src/Tests/Archiving.antt =====
-- The owner archives the manager's role and the member.
use editingtab_platform_core.Authorization.Services.Rows.{write_role}
use editingtab_platform_core.Identity.Repository.{get_organization}
use editingtab_platform_core.Authorization.Repository.{
  member_audit, members, assignable_permission_codes, active_members, effective_permissions,
  permission_query, audit, delete_assignment, permission_state, effective_grant_authority,
  frozenset, has_administrator, role_assignments, role_permission_grants,
}
use editingtab_platform_core.Authorization.Guards.{
  authorize, authorization_context, actor_membership, custom_role, ensure_administrator, find_role,
  grantable, system_managed,
}
use editingtab_platform_core.Authorization.Services.Transaction.{
  transaction, translate, translate_constraint,
}
use editingtab_platform_core.Shared.{
  same_set, subset, all, where_, contains, any, first, join, update_where, insert_by, order_by,
  text_eq, ◌≡◌, refl,
}
use editingtab_platform_core.Outcome.{ok}
use editingtab_platform_core.Authorization.Services.Api.{archive_role, archive_member}
use editingtab_platform_core.Authorization.Services.Assignments.{
  remove_assignments, archive_role_body,
}
use editingtab_platform_core.Authorization.Services.Members.{
  archive_current_member, before_membership_archive, find_member, membership_assignments,
  strip_assignments, strip_if_any, strip_membership, write_membership, archive_member_body,
}
use editingtab_platform_core.Authorization.Access.Archiving.{
  ArchivedRole, archive_role-ArchivedRole,
}
use editingtab_platform_core.Authorization.Access.Archiving.Members.{
  ArchivedMember, archive_member-ArchivedMember,
}
use editingtab_platform_core.Storage.Exec.{
  branch, raise, gets, modify, pure, reads, settle, transact, ◌>>=◌,
}
use editingtab_platform_core.Tests.Tenant.{database, env, session}

role_archived : (archive_role env 1 1 22 session).0 ≡ ok tt
unfolding archive_role archive_role_body ◌>>=◌ transaction authorize authorization_context same_set
    subset all assignable_permission_codes where_ contains any get_organization first
    actor_membership active_members join effective_permissions permission_query custom_role
    ensure_administrator find_role grantable system_managed audit delete_assignment permission_state
    effective_grant_authority frozenset has_administrator role_assignments role_permission_grants
    remove_assignments write_role translate translate_constraint update_where insert_by order_by
    text_eq gets modify pure reads settle transact
role_archived = refl

archive_role-ArchivedRole_example :
    ArchivedRole 1 1 22 database (archive_role env 1 1 22 session).1.database
archive_role-ArchivedRole_example = archive_role-ArchivedRole 1 1 session env 22 role_archived

member_archived : (archive_member env 1 1 12 session).0 ≡ ok tt
unfolding archive_member archive_member_body ◌>>=◌ transaction authorize authorization_context
    same_set subset all assignable_permission_codes where_ contains any get_organization first
    actor_membership active_members join effective_permissions permission_query ensure_administrator
    grantable audit delete_assignment member_audit permission_state effective_grant_authority
    frozenset has_administrator members role_permission_grants archive_current_member
    before_membership_archive find_member membership_assignments strip_assignments strip_if_any
    strip_membership write_membership translate translate_constraint update_where insert_by order_by
    branch gets modify pure raise reads settle transact
member_archived = refl

archive_member-ArchivedMember_example :
    ArchivedMember 1 1 12 database (archive_member env 1 1 12 session).1.database
archive_member-ArchivedMember_example =
    archive_member-ArchivedMember 1 1 session env 12 member_archived
