-- ===== src/Auth/Services/Access.antt =====
-- auth/services.py: `access_context`.
use editingtab_platform_core.Shared.{ℕ, Bool, List, map, Option, String, Text, order_by, str_le}
use editingtab_platform_core.Identity.Models.{Organization, Membership}
use editingtab_platform_core.Authorization.Models.{Role}
use editingtab_platform_core.Authorization.Repository.{
  membership_roles, effective_permissions, effective_grant_authority,
}
use editingtab_platform_core.Platform.Services.Modules.{supported_modules}
use editingtab_platform_core.Auth.Security.{Hashing}
use editingtab_platform_core.Auth.Repository.{has_platform_admin_grant}
use editingtab_platform_core.Auth.Repository.Records.{
  active_organization_memberships, enabled_modules,
}
use editingtab_platform_core.Auth.Services.Login.{Profile, profile, session_identity}
use editingtab_platform_core.Auth.Services.Transaction.{transaction}
use editingtab_platform_core.Storage.Tables.{Database, Session}
use editingtab_platform_core.Storage.Exec.{Exec, reads, gets, ◌>>=◌}

pub record RoleName : Type 0 where
  pub role_id : ℕ
  pub role_name : Text

pub record OrganizationAccess : Type 0 where
  pub organization_id : ℕ
  pub name : Text
  pub slug : Text
  pub membership_id : ℕ
  pub roles : List RoleName
  pub effective_permissions : List String
  pub effective_grant_authority : List String
  pub enabled_modules : List String

pub record AccessContext : Type 0 where
  pub user : Profile
  pub is_platform_admin : Bool
  pub organizations : List OrganizationAccess

-- What the context says of one organization of the user.
unfoldable pub organization_access : Database → ℕ → Membership × Organization → OrganizationAccess
organization_access db user_id (membership, organization) = record {
  organization_id = organization.id;
  name = organization.name;
  slug = organization.slug;
  membership_id = membership.id;
  roles =
      map (λ (role : Role). record { role_id = role.id; role_name = role.name })
        (membership_roles db organization.id membership.id);
  effective_permissions = order_by str_le (effective_permissions db organization.id user_id);
  effective_grant_authority =
      order_by str_le (effective_grant_authority db organization.id user_id);
  enabled_modules = enabled_modules db organization.id supported_modules;
}

unfoldable pub access_context_body : Hashing → ℕ → Option Text → Exec Database AccessContext
unfolding organization_access
access_context_body h clock token = do
  identity ← reads (session_identity h clock token)
  gets (λ db. record {
    user = profile identity.0;
    is_platform_admin = has_platform_admin_grant db identity.0.id;
    organizations =
        map (organization_access db identity.0.id)
          (active_organization_memberships db identity.0.id);
  })

unfoldable pub access_context : Hashing → ℕ → Option Text → Exec Session AccessContext
access_context h clock token = transaction (access_context_body h clock token)
