-- ===== src/Identity/Services.antt =====
-- identity/services.py: the internal operations on organizations, users and memberships.
use editingtab_platform_core.Shared.{
  ℕ, List, map, Option, none, some, Text, ◌==◌, is_none, is_some, update_where,
}
use editingtab_platform_core.Errors.{
  Error, Constraint, integrity_error, sqlalchemy_error, uq_core_organizations_slug,
  uq_core_users_normalized_email, uq_core_memberships_organization_user, identity_conflict,
  identity_not_found, identity_unavailable, identity_storage_error,
}
use editingtab_platform_core.Outcome.{or_raise}
use editingtab_platform_core.Identity.Models.{Organization, Membership}
use editingtab_platform_core.Identity.Normalization.{normalize_slug, normalize_email, clean_name}
use editingtab_platform_core.Identity.Repository
use editingtab_platform_core.Authorization.Services.Members.{
  write_membership, before_membership_restore, before_membership_archive,
}
use editingtab_platform_core.Storage.Tables.{Database, Session, Env}
use editingtab_platform_core.Storage.Exec.{
  Exec, pure, reads, gets, modify, branch, require, ◌>>=◌, ◌>>◌, transact,
}

pub record MembershipInfo : Type 0 where
  pub id : ℕ
  pub organization_id : ℕ
  pub user_id : ℕ
  pub created_at : ℕ
  pub updated_at : ℕ

unfoldable pub membership_info : Membership → MembershipInfo
membership_info membership = record {
  id = membership.id;
  organization_id = membership.organization_id;
  user_id = membership.user_id;
  created_at = membership.created_at;
  updated_at = membership.updated_at;
}

unfoldable pub translate_constraint : Constraint → Error
translate_constraint uq_core_organizations_slug = identity_conflict
translate_constraint uq_core_users_normalized_email = identity_conflict
translate_constraint uq_core_memberships_organization_user = identity_conflict
translate_constraint _ = identity_storage_error

unfoldable pub translate : Error → Error
unfolding translate_constraint
translate (integrity_error c) = translate_constraint c
translate sqlalchemy_error = identity_storage_error
translate e = e

unfoldable pub transaction : {A : Type 0} → Exec Database A → Exec Session A
unfolding transact translate
transaction body = transact identity_storage_error translate body

unfoldable pub create_organization_body : Env → Text → Text → Exec Database ℕ
create_organization_body env name slug = do
  name ← reads (λ _. clean_name name)
  slug ← reads (λ _. normalize_slug slug)
  organization ← Repository.create_organization (env.uuid4 0) name slug
  pure organization.id

unfoldable pub create_user_body : Env → Text → Text → Exec Database ℕ
create_user_body env email display_name = do
  emails ← reads (λ _. normalize_email email)
  display_name ← reads (λ _. clean_name display_name)
  user ← Repository.create_user (env.uuid4 0) emails.0 emails.1 display_name
  pure user.id

-- The membership of the pair, whatever state it is in, after which it is current.
unfoldable pub current_membership_of : Env → ℕ → ℕ → Option Membership → Exec Database ℕ
current_membership_of env organization_id user_id none = do
  membership ← Repository.create_membership env (env.uuid4 0) organization_id user_id
  pure membership.id
current_membership_of env organization_id user_id (some membership) =
    branch (is_some membership.deleted_at)
      (do
        reads (before_membership_restore organization_id membership.id)
        write_membership membership.id (λ m. record m { deleted_at = none; updated_at = env.now })
        pure membership.id)
      (pure membership.id)

unfoldable pub add_membership_body : Env → ℕ → ℕ → Exec Database ℕ
unfolding current_membership_of
add_membership_body env organization_id user_id = do
  reads (λ db. or_raise (Repository.get_organization db organization_id) identity_unavailable)
  user ← reads (λ db. or_raise (Repository.get_user db user_id) identity_unavailable)
  require user.is_active identity_unavailable
  membership ← gets (λ db. Repository.membership_pair_including_archived db organization_id user_id)
  current_membership_of env organization_id user_id membership

unfoldable pub get_membership_body : ℕ → ℕ → Exec Database MembershipInfo
unfolding membership_info
get_membership_body organization_id membership_id = do
  membership ← reads (λ db.
      or_raise (Repository.get_active_membership db organization_id membership_id)
        identity_not_found)
  pure (membership_info membership)

unfoldable pub archive_organization_body : Env → ℕ → Exec Database (Unit {0})
archive_organization_body env organization_id = do
  organization ← reads (λ db.
      or_raise (Repository.organization_including_archived db organization_id) identity_not_found)
  branch (is_none organization.deleted_at)
      (modify (λ db. record db {
        organizations =
            update_where (λ (o : Organization). o.id == organization_id)
              (λ o. record o { deleted_at = some env.utc_now }) db.organizations;
      }))
      (pure tt)

unfoldable pub archive_membership_body : Env → ℕ → ℕ → Option ℕ → Exec Database (Unit {0})
archive_membership_body env organization_id membership_id actor_id = do
  reads (λ db.
      or_raise (Repository.organization_including_archived db organization_id) identity_not_found)
  membership ← reads (λ db.
      or_raise (Repository.membership_including_archived db organization_id membership_id)
        identity_not_found)
  branch (is_none membership.deleted_at)
      (do
        before_membership_archive organization_id membership.id actor_id
        write_membership membership.id
            (λ m. record m { deleted_at = some env.utc_now; updated_at = env.now }))
      (pure tt)

unfoldable pub create_organization : Env → Text → Text → Exec Session ℕ
create_organization env name slug = transaction (create_organization_body env name slug)

unfoldable pub create_user : Env → Text → Text → Exec Session ℕ
create_user env email display_name = transaction (create_user_body env email display_name)

unfoldable pub add_membership : Env → ℕ → ℕ → Exec Session ℕ
add_membership env organization_id user_id =
    transaction (add_membership_body env organization_id user_id)

unfoldable pub get_membership : ℕ → ℕ → Exec Session MembershipInfo
get_membership organization_id membership_id =
    transaction (get_membership_body organization_id membership_id)

unfoldable pub list_active_memberships : ℕ → Exec Session (List MembershipInfo)
unfolding membership_info
list_active_memberships organization_id =
    transaction
      (gets (λ db. map membership_info (Repository.list_active_memberships db organization_id)))

unfoldable pub archive_organization : Env → ℕ → Exec Session (Unit {0})
archive_organization env organization_id =
    transaction (archive_organization_body env organization_id)

unfoldable pub archive_membership : Env → ℕ → ℕ → Option ℕ → Exec Session (Unit {0})
archive_membership env organization_id membership_id actor_id =
    transaction (archive_membership_body env organization_id membership_id actor_id)
