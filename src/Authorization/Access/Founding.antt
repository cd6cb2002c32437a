-- ===== src/Authorization/Access/Founding.antt =====
-- The administrator of an organization that authorization/onboarding.py builds.
use editingtab_platform_core.Shared.{
  ℕ, Bool, true, [], ◌∷◌, ◌++◌, Memᴰ, none, String, Text, codes, ◌≡◌, refl, sym, ap, any,
  Memᴰ-order_by, subset, subset-Memᴰ, all, contains,
}
use mathlib.Core.List.Memᴰ
use editingtab_platform_core.Identity.Models.{Organization, User, Membership}
use editingtab_platform_core.Identity.Repository.{create_organization}
use editingtab_platform_core.Authorization.Models.{Role}
use editingtab_platform_core.Authorization.Policy.{owner_permissions, administrator_permissions}
use editingtab_platform_core.Authorization.Guards.{from_keys}
use editingtab_platform_core.Authorization.Repository.{permission_state}
use editingtab_platform_core.Authorization.Onboarding.{create_owned_organization}
use editingtab_platform_core.Authorization.Access.Effective.{HasAdministrator}
use editingtab_platform_core.Authorization.Access.Join.Memberships.{create_membership-Ensures}
use editingtab_platform_core.Authorization.Access.Writes.{
  permission_rows, replace_permissions-Ensures, insert_role-Ensures, insert_assignment-Ensures,
  audit-Ensures,
}
use editingtab_platform_core.Storage.Tables.{Database, Env}
use editingtab_platform_core.Storage.Ensures.{
  Ensures, Ensures-gets, Ensures-step, Ensures-pure, Ensures-require, Ensures-modify,
}

-- A user who is current and active.
pub record IsActiveUser (db : Database) (user_id : ℕ) : Type 0 where
  pub user : User
  pub row : Memᴰ user db.users
  pub key : user.id ≡ user_id
  pub current : user.deleted_at ≡ none
  pub active : user.is_active ≡ true

create_organization-Ensures :
    (id : ℕ) (name slug : Text) (db : Database)
    → Ensures
        (λ row db'.
          (row ≡ record { id = id; name = name; slug = slug; deleted_at = none })
          × (db' ≡ record db {
            organizations =
                db.organizations
                ++ (record { id = id; name = name; slug = slug; deleted_at = none }) ∷ [];
          }))
        (create_organization id name slug db)
unfolding create_organization
create_organization-Ensures id name slug db = Ensures-gets _ _ _ _ (
    Ensures-require _ _ _ _ _
      λ _. Ensures-require _ _ _ _ _ λ _. Ensures-modify _ _ _ _ (Ensures-pure _ _ _ (refl, refl)))

administrator-owner :
    {code : String} → Memᴰ code administrator_permissions → Memᴰ code owner_permissions
unfolding subset all contains any
administrator-owner m = subset-Memᴰ administrator_permissions owner_permissions refl m

-- The role, the membership and the assignment that onboarding inserts.
abbrev owner_role : Env → ℕ → Role
owner_role env organization_id = record {
  id = env.uuid4 2;
  organization_id = organization_id;
  provisioning_kind = none;
  name = codes "Organization owner";
  normalized_name = codes "organization owner";
  created_at = env.now;
  updated_at = env.now;
  deleted_at = none;
}

abbrev owner_membership : Env → ℕ → ℕ → Membership
owner_membership env organization_id owner_id = record {
  id = env.uuid4 1;
  organization_id = organization_id;
  user_id = owner_id;
  created_at = env.now;
  updated_at = env.now;
  deleted_at = none;
}

-- The owner's permissions are among the role's rows.
owner_row :
    (organization_id role_id : ℕ) {code : String}
    → Memᴰ code owner_permissions
    → Memᴰ
        (record {
          organization_id = organization_id;
          role_id = role_id;
          code = code;
          can_grant = true;
        })
        (permission_rows organization_id role_id
          (permission_state (from_keys owner_permissions true)))
unfolding permission_state
owner_row organization_id role_id m =
    Memᴰ.map
      (λ (item : String × Bool). record {
        organization_id = organization_id;
        role_id = role_id;
        code = item.0;
        can_grant = item.1;
      })
      (Memᴰ-order_by _ _ (Memᴰ.map (λ (c : String). (c, true)) m))

module _ (env : Env) (db : Database) (owner_id : ℕ) (owner : IsActiveUser db owner_id) where
  pub create_owned_organization-HasAdministrator :
      (name slug : Text) (actor_id : ℕ)
      → Ensures
          (λ org db'. HasAdministrator db' org.id)
          (create_owned_organization env name slug owner_id actor_id db)
  unfolding create_owned_organization
  create_owned_organization-HasAdministrator name slug actor_id =
      Ensures-step _ _ _ _ _ _ (create_organization-Ensures _ _ _ _) λ org e.
        Ensures-step _ _ _ _ _ _ (create_membership-Ensures env _ _ _ _) λ member (k, _).
          Ensures-step _ _ _ _ _ _ (insert_role-Ensures _ _) λ _ _.
            Ensures-step _ _ _ _ _ _ (replace_permissions-Ensures _ _ _ _) λ _ _.
              Ensures-step _ _ _ _ _ _ (insert_assignment-Ensures _ _) λ _ _.
                Ensures-step _ _ _ _ _ _ (audit-Ensures _ _ _ _ _ _ _ _) λ _ _.
                  Ensures-step _ _ _ _ _ _ (audit-Ensures _ _ _ _ _ _ _ _) λ _ _.
                    Ensures-pure _ _ _ (record {
                      administrator = owner_id;
                      grants = λ code m. record {
                        use_ = record {
                          row = record {
                            organization_id = org.id;
                            role_id = env.uuid4 2;
                            code = code;
                            can_grant = true;
                          };
                          user = owner.user;
                          chain = record {
                            role = owner_role env org.id;
                            assignment = record {
                              organization_id = org.id;
                              membership_id = member.id;
                              role_id = env.uuid4 2;
                            };
                            membership = owner_membership env org.id owner_id;
                            organization = record {
                              id = env.uuid4 0;
                              name = name;
                              slug = slug;
                              deleted_at = none;
                            };
                            p_row =
                                Memᴰ.append_right _
                                  (owner_row org.id (env.uuid4 2) (administrator-owner m));
                            role_row = Memᴰ.append_right _ (Memᴰ.head refl);
                            assignment_row = Memᴰ.append_right _ (Memᴰ.head refl);
                            membership_row = Memᴰ.append_right _ (Memᴰ.head refl);
                            user_row = owner.row;
                            organization_row = Memᴰ.append_right _ (Memᴰ.head refl);
                            p_organization = refl;
                            role_id = refl;
                            role_organization = refl;
                            role_current = refl;
                            assignment_role = refl;
                            assignment_organization = refl;
                            membership_id = sym k;
                            membership_organization = refl;
                            membership_current = refl;
                            user_id = owner.key;
                            user_current = owner.current;
                            user_active = owner.active;
                            organization_key = sym (ap (λ (o : Organization). o.id) e);
                            organization_current = refl;
                          };
                          row_code = refl;
                          key = owner.key;
                        };
                        granted = refl;
                      };
                    })
