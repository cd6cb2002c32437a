-- ===== src/Authorization/Onboarding.antt =====
-- authorization/onboarding.py: an organization with its owner, built in the caller's transaction.
use editingtab_platform_core.Shared.{ℕ, true, [], none, some, Text, codes}
use editingtab_platform_core.Identity.Models.{Organization}
use editingtab_platform_core.Identity.Repository.{create_organization, create_membership}
use editingtab_platform_core.Authorization.Models.{Permissions}
use editingtab_platform_core.Authorization.Policy.{owner_permissions}
use editingtab_platform_core.Authorization.Guards.{from_keys}
use editingtab_platform_core.Authorization.Repository.{
  insert_role, insert_assignment, replace_permissions, audit,
}
use editingtab_platform_core.Storage.Tables.{Database, Env}
use editingtab_platform_core.Storage.Exec.{Exec, pure, ◌>>=◌, ◌>>◌}

-- The keys of the organization, the membership and the role are the first three that are drawn.
unfoldable pub create_owned_organization : Env → Text → Text → ℕ → ℕ → Exec Database Organization
create_owned_organization env name slug owner_id actor_id = do
  org ← create_organization (env.uuid4 0) name slug
  member ← create_membership env (env.uuid4 1) org.id owner_id
  let role_id = env.uuid4 2
  insert_role (record {
    id = role_id;
    organization_id = org.id;
    provisioning_kind = none;
    name = codes "Organization owner";
    normalized_name = codes "organization owner";
    created_at = env.now;
    updated_at = env.now;
    deleted_at = none;
  })
  let permissions : Permissions = from_keys owner_permissions true
  replace_permissions org.id role_id permissions
  insert_assignment
      (record { organization_id = org.id; membership_id = member.id; role_id = role_id })
  audit org.id actor_id "role.bootstrapped" role_id [] permissions none
  audit org.id actor_id "assignment.added" role_id [] permissions (some member.id)
  pure org
