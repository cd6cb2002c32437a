-- ===== src/Identity/Repository.antt =====
-- identity/repository.py: queries and inserts of the identity tables, with the tables' constraints.
use editingtab_platform_core.Shared.{
  ℕ, Bool, List, [], ◌∷◌, ◌++◌, Option, none, Text, text_eq, true, ◌&&◌, ◌||◌, not, any, first,
  where_, join, is_none, ◌==◌, leb, ltb, order_by,
}
use editingtab_platform_core.Errors.{
  integrity_error, other_constraint, uq_core_organizations_slug, uq_core_users_normalized_email,
  uq_core_memberships_organization_user,
}
use editingtab_platform_core.Identity.Models.{Organization, User, Membership}
use editingtab_platform_core.Storage.Tables.{Database, Env}
use editingtab_platform_core.Storage.Exec.{Exec, gets, modify, pure, require, ◌>>=◌, ◌>>◌}

-- The insert of an organization: its key and its slug are unique.
unfoldable pub create_organization : ℕ → Text → Text → Exec Database Organization
create_organization id name slug = do
  db ← gets (λ db. db)
  require (not (any (λ (o : Organization). o.id == id) db.organizations))
      (integrity_error other_constraint)
  require (not (any (λ (o : Organization). text_eq o.slug slug) db.organizations))
      (integrity_error uq_core_organizations_slug)
  let row : Organization = record { id = id; name = name; slug = slug; deleted_at = none }
  modify (λ db. record db { organizations = db.organizations ++ row ∷ [] })
  pure row

-- The insert of a user: its key and its normalized email are unique.
unfoldable pub create_user : ℕ → Text → Text → Text → Exec Database User
create_user id email normalized_email display_name = do
  db ← gets (λ db. db)
  require (not (any (λ (u : User). u.id == id) db.users)) (integrity_error other_constraint)
  require (not (any (λ (u : User). text_eq u.normalized_email normalized_email) db.users))
      (integrity_error uq_core_users_normalized_email)
  let row : User = record {
    id = id;
    email = email;
    normalized_email = normalized_email;
    display_name = display_name;
    is_active = true;
    deleted_at = none;
  }
  modify (λ db. record db { users = db.users ++ row ∷ [] })
  pure row

unfoldable pub get_organization : Database → ℕ → Option Organization
get_organization db organization_id =
    first (λ (o : Organization). o.id == organization_id && is_none o.deleted_at) db.organizations

unfoldable pub get_user : Database → ℕ → Option User
get_user db user_id = first (λ (u : User). u.id == user_id && is_none u.deleted_at) db.users

unfoldable pub get_user_by_normalized_email : Database → Text → Option User
get_user_by_normalized_email db normalized_email =
    first (λ (u : User). text_eq u.normalized_email normalized_email && is_none u.deleted_at)
      db.users

-- `_active_memberships`: the membership, its organization and its user are all current.
unfoldable pub active_memberships : Database → ℕ → List Membership
active_memberships db organization_id =
    join
      (where_ (λ (m : Membership). m.organization_id == organization_id && is_none m.deleted_at)
        db.memberships)
      (λ m.
        join
          (where_ (λ (o : Organization). o.id == m.organization_id && is_none o.deleted_at)
            db.organizations)
          (λ _.
            join
              (where_ (λ (u : User). u.id == m.user_id && (is_none u.deleted_at && u.is_active))
                db.users)
              (λ _. m ∷ [])))

unfoldable pub get_active_membership : Database → ℕ → ℕ → Option Membership
get_active_membership db organization_id membership_id =
    first (λ (m : Membership). m.id == membership_id) (active_memberships db organization_id)

-- The order of `created_at`, then `id`.
abbrev pub membership_order : Membership → Membership → Bool
membership_order m n =
    ltb m.created_at n.created_at || (m.created_at == n.created_at && leb m.id n.id)

unfoldable pub list_active_memberships : Database → ℕ → List Membership
list_active_memberships db organization_id =
    order_by membership_order (active_memberships db organization_id)

unfoldable pub organization_including_archived : Database → ℕ → Option Organization
organization_including_archived db organization_id =
    first (λ (o : Organization). o.id == organization_id) db.organizations

unfoldable pub membership_pair_including_archived : Database → ℕ → ℕ → Option Membership
membership_pair_including_archived db organization_id user_id =
    first (λ (m : Membership). m.organization_id == organization_id && m.user_id == user_id)
      db.memberships

unfoldable pub membership_including_archived : Database → ℕ → ℕ → Option Membership
membership_including_archived db organization_id membership_id =
    first (λ (m : Membership). m.organization_id == organization_id && m.id == membership_id)
      db.memberships

-- The insert of a membership: its key and its pair of organization and user are unique, and both
-- exist.
unfoldable pub create_membership : Env → ℕ → ℕ → ℕ → Exec Database Membership
create_membership env id organization_id user_id = do
  db ← gets (λ db. db)
  require (not (any (λ (m : Membership). m.id == id) db.memberships))
      (integrity_error other_constraint)
  require
      (not (
        any (λ (m : Membership). m.organization_id == organization_id && m.user_id == user_id)
          db.memberships))
      (integrity_error uq_core_memberships_organization_user)
  require
      (any (λ (o : Organization). o.id == organization_id) db.organizations
        && any (λ (u : User). u.id == user_id) db.users)
      (integrity_error other_constraint)
  let row : Membership = record {
    id = id;
    organization_id = organization_id;
    user_id = user_id;
    created_at = env.now;
    updated_at = env.now;
    deleted_at = none;
  }
  modify (λ db. record db { memberships = db.memberships ++ row ∷ [] })
  pure row
