-- ===== src/Authorization/Access/Chain.antt =====
-- The chain of rows behind a row of `permission_query`.
use editingtab_platform_core.Shared.{
  ℕ, Bool, true, Memᴰ, Option, none, some, ◌≡◌, refl, ◌&&◌, ◌==◌, is_none, join_where,
  Memᴰ-join_where, arith, subst, sym,
}
use mathlib.Core.List.Memᴰ
use editingtab_platform_core.Identity.Models.{Organization, User, Membership}
use editingtab_platform_core.Authorization.Models.{Role, RolePermission, MembershipRole}
use editingtab_platform_core.Authorization.Repository.{permission_query}
use editingtab_platform_core.Storage.Tables.{Database}

-- A current role has the permission, a current membership has the role, and the user and the
-- organization of the membership are current.
pub record Chain (db : Database) (organization_id : ℕ) (p : RolePermission) (u : User)
    : Type 0 where
  pub role : Role
  pub assignment : MembershipRole
  pub membership : Membership
  pub organization : Organization
  pub p_row : Memᴰ p db.role_permissions
  pub role_row : Memᴰ role db.roles
  pub assignment_row : Memᴰ assignment db.membership_roles
  pub membership_row : Memᴰ membership db.memberships
  pub user_row : Memᴰ u db.users
  pub organization_row : Memᴰ organization db.organizations
  pub p_organization : p.organization_id ≡ organization_id
  pub role_id : role.id ≡ p.role_id
  pub role_organization : role.organization_id ≡ p.organization_id
  pub role_current : role.deleted_at ≡ none
  pub assignment_role : assignment.role_id ≡ role.id
  pub assignment_organization : assignment.organization_id ≡ role.organization_id
  pub membership_id : membership.id ≡ assignment.membership_id
  pub membership_organization : membership.organization_id ≡ assignment.organization_id
  pub membership_current : membership.deleted_at ≡ none
  pub user_id : u.id ≡ membership.user_id
  pub user_current : u.deleted_at ≡ none
  pub user_active : u.is_active ≡ true
  pub organization_key : organization.id ≡ membership.organization_id
  pub organization_current : organization.deleted_at ≡ none

-- Two keys that agree and a row that is current, as the queries test them.
keys_current :
    {A : Type 0} (a b c d : ℕ) (o : Option A)
    → ((a == b && c == d) && is_none o) ≡ true
    → (a ≡ b) × (c ≡ d) × (o ≡ none)
keys_current a b c d none h = ground arith
keys_current a b c d (some x) h = ground arith

key_current :
    {A : Type 0} (a b : ℕ) (o : Option A) → (a == b && is_none o) ≡ true → (a ≡ b) × (o ≡ none)
key_current a b none h = ground arith
key_current a b (some x) h = ground arith

key_active :
    {A : Type 0} (a b : ℕ) (o : Option A) (t : Bool)
    → (a == b && (is_none o && t)) ≡ true
    → (a ≡ b) × (o ≡ none) × (t ≡ true)
key_active a b none t h = ground arith
key_active a b (some x) t h = ground arith

two_keys : (a b c d : ℕ) → (a == b && c == d) ≡ true → (a ≡ b) × (c ≡ d)
two_keys a b c d h = ground arith

one_key : (a b : ℕ) → (a == b) ≡ true → a ≡ b
one_key a b h = ground arith

-- Every row of the query has its chain.
pub permission_query-Chain :
    (db : Database) (organization_id : ℕ) (row : RolePermission × User)
    → Memᴰ row (permission_query db organization_id)
    → Chain db organization_id row.0 row.1
unfolding permission_query
permission_query-Chain db organization_id row m = join_where _ _ _ m λ p mp ep m1.
    join_where _ _ _ m1 λ r mr er m2. join_where _ _ _ m2 λ a ma ea m3.
      join_where _ _ _ m3 λ b mb eb m4. join_where _ _ _ m4 λ u mu eu m5.
        join_where _ _ _ m5 λ o mo eo m6.
          subst (λ (x : RolePermission × User). Chain db organization_id x.0 x.1)
            (sym (Memᴰ.eq_of_singleton m6))
            (let (r1, r2, r3) = keys_current _ _ _ _ _ er in
              let (a1, a2) = two_keys _ _ _ _ ea in
              let (b1, b2, b3) = keys_current _ _ _ _ _ eb in
              let (u1, u2, u3) = key_active _ _ _ _ eu in
              let (o1, o2) = key_current _ _ _ eo in
              record {
                role = r;
                assignment = a;
                membership = b;
                organization = o;
                p_row = mp;
                role_row = mr;
                assignment_row = ma;
                membership_row = mb;
                user_row = mu;
                organization_row = mo;
                p_organization = one_key _ _ ep;
                role_id = r1;
                role_organization = r2;
                role_current = r3;
                assignment_role = a1;
                assignment_organization = a2;
                membership_id = b1;
                membership_organization = b2;
                membership_current = b3;
                user_id = u1;
                user_current = u2;
                user_active = u3;
                organization_key = o1;
                organization_current = o2;
              })

-- Every chain is behind a row of the query.
pub Chain-permission_query :
    {db : Database} {organization_id : ℕ} {p : RolePermission} {u : User}
    → Chain db organization_id p u
    → Memᴰ (p, u) (permission_query db organization_id)
unfolding permission_query
Chain-permission_query {db} {organization_id} {p} {u} c =
    Memᴰ-join_where _ _ _ c.p_row (ground arith) (
      Memᴰ-join_where _ _ _ c.role_row (ground arith) (
        Memᴰ-join_where _ _ _ c.assignment_row (ground arith) (
          Memᴰ-join_where _ _ _ c.membership_row (ground arith) (
            Memᴰ-join_where _ _ _ c.user_row (ground arith)
              (Memᴰ-join_where _ _ _ c.organization_row (ground arith) (Memᴰ.head refl))))))
