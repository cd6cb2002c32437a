-- ===== src/Tests/Invitation.antt =====
-- The guest accepts an invitation of the tenant's owner.
use editingtab_platform_core.Errors.{is_access_error}
use editingtab_platform_core.Authorization.Views.{role_info, member_info}
use editingtab_platform_core.Authorization.Services.Members.{
  write_membership, membership_assignments, before_membership_restore, assign_roles,
  activate_membership, activate_member,
}
use editingtab_platform_core.Authorization.Repository.{
  permission_state, member_audit, insert_assignment, audit,
}
use editingtab_platform_core.Auth.Services.Invitations.{is_pending}
use editingtab_platform_core.Identity.Repository.{
  membership_pair_including_archived, get_user_by_normalized_email, create_user, create_membership,
  get_organization,
}
use editingtab_platform_core.Authorization.Repository.{
  text_le, role_permission_grants, membership_roles, has_assignment, frozenset,
  effective_grant_authority, permission_query, effective_permissions, active_members,
  assignable_permission_codes,
}
use editingtab_platform_core.Authorization.Guards.{
  has_duplicate_ids, grantable, find_role, find_grantable_roles, initial_roles, actor_membership,
  authorization_context, authorize,
}
use editingtab_platform_core.Auth.Services.Transaction.{translate, transaction}
use editingtab_platform_core.Identity.Normalization.{clean_name, has_parts, normalize_email}
use editingtab_platform_core.Shared.{
  strip_right, strip_left, order_by, insert_by, update_where, join, contains, where_, subset,
  same_set, lower_char, lower, text_eq, first, all, any, count_char, is_space, strip, true, false,
  [], ◌∷◌, Memᴰ, none, some, codes, ◌≡◌, refl, sym, ap,
}
use editingtab_platform_core.Identity.Models.{Membership}
use editingtab_platform_core.Auth.Models.{OrganizationInvitation}
use editingtab_platform_core.Auth.Services.Acceptance.{
  unavailable_if_denied, is_current, invited_roles, create_account, complete_credential,
  check_invitation, accepting_user, accept_invitation_body, accept_invitation,
}
use editingtab_platform_core.Auth.Accepting.{MembersHaveUsers}
use editingtab_platform_core.Auth.Accepting.Invited.{accept_invitation-NoEscalation}
use editingtab_platform_core.Auth.Repository.Records.{
  security_audit, invitation_roles, insert_credential, get_credential, invitation_by_digest,
}
use editingtab_platform_core.Authorization.Access.Escalation.{NoEscalation}
use editingtab_platform_core.Auth.Security.{
  validate_password, is_token_char, is_token, hash_password, token_digest,
}
use editingtab_platform_core.Storage.Tables.{Database, Session}
use editingtab_platform_core.Storage.Exec.{
  transact, settle, require, reads, pure, modify, gets, branch, ◌>>=◌,
}
use editingtab_platform_core.Tests.Tenant.{assigned_members, database, env, is_ok, user}
use editingtab_platform_core.Tests.Account.{hashing, password, token}

abbrev invitation : OrganizationInvitation
invitation = record {
  id = 71;
  organization_id = 1;
  normalized_email = codes "new@tab";
  inviter_id = 1;
  token_digest = token;
  created_at = 400;
  expires_at = 900;
  accepted_at = none;
  revoked_at = none;
}

-- The invitation gives the organization's owner role.
abbrev invited : Database
invited = record database {
  organization_invitations = invitation ∷ [];
  invitation_roles = record { organization_id = 1; invitation_id = 71; role_id = 21 } ∷ [];
}

abbrev idle_invited : Session
idle_invited = record { in_transaction = false; database = invited }

accepts :
    is_ok
      (accept_invitation hashing env token
        (codes "new@tab")
        (some (codes "New"))
        (some password)
        idle_invited).0
    ≡ true
unfolding accept_invitation normalize_email strip is_space count_char any has_parts all transaction
    accept_invitation_body first text_eq lower lower_char ◌>>=◌ token_digest invitation_by_digest
    authorize authorization_context same_set subset assignable_permission_codes where_ contains
    get_organization actor_membership active_members join effective_permissions permission_query
    initial_roles get_credential insert_credential invitation_roles security_audit hash_password
    is_token is_token_char validate_password accepting_user check_invitation complete_credential
    create_account invited_roles is_current unavailable_if_denied is_pending translate
    find_grantable_roles find_role grantable has_duplicate_ids audit insert_assignment member_audit
    permission_state effective_grant_authority frozenset has_assignment membership_roles
    role_permission_grants text_le activate_member activate_membership assign_roles
    before_membership_restore membership_assignments write_membership member_info role_info
    is_access_error clean_name create_membership create_user get_user_by_normalized_email
    membership_pair_including_archived update_where insert_by order_by strip_left strip_right branch
    gets modify pure reads require settle transact
accepts = refl

members_have_users : MembersHaveUsers invited
members_have_users m (Memᴰ.head e) =
    (user 1 "owner@tab", Memᴰ.head refl, sym (ap (λ (x : Membership). x.user_id) e))
members_have_users m (Memᴰ.tail (Memᴰ.head e)) =
    (user 2 "member@tab", Memᴰ.tail (Memᴰ.head refl), sym (ap (λ (x : Membership). x.user_id) e))
members_have_users m (Memᴰ.tail (Memᴰ.tail k)) = elim k [ ]

is_digest : token_digest hashing (some token) ≡ some token
unfolding token_digest all is_token is_token_char
is_digest = refl

is_found : invitation_by_digest invited token ≡ some invitation
unfolding invitation_by_digest first text_eq
is_found = refl

accept_invitation-NoEscalation_example :
    NoEscalation invited
      (accept_invitation hashing env token
        (codes "new@tab")
        (some (codes "New"))
        (some password)
        idle_invited).1.database
      1
      1
accept_invitation-NoEscalation_example =
    accept_invitation-NoEscalation hashing env token (codes "new@tab") (some (codes "New"))
      (some password) idle_invited token invitation assigned_members members_have_users is_digest
      is_found
