-- ===== src/Authorization/Access/Effective.antt =====
-- `effective_permissions`, `effective_grant_authority` and `has_administrator` against the chains.
use editingtab_platform_core.Shared.{
  ℕ, true, List, [], ◌∷◌, Memᴰ, String, ◌≡◌, refl, sym, ◌↔◌, ◌==◌, inl, inr, where-Memᴰ, Memᴰ-where,
  Memᴰ-join_where, any-Memᴰ, Memᴰ-any, contains, contains-Memᴰ, subset-Memᴰ, Memᴰ-subset,
  Bool-cases, &&-left, &&-right, &&-intro, ==→≡, ≡→==, arith,
}
use mathlib.Core.List.Memᴰ
use editingtab_platform_core.Identity.Models.{User, Membership}
use editingtab_platform_core.Authorization.Models.{RolePermission}
use editingtab_platform_core.Authorization.Policy.{administrator_permissions}
use editingtab_platform_core.Authorization.Repository.{
  active_members, frozenset, effective_permissions, effective_grant_authority, has_administrator,
}
use editingtab_platform_core.Authorization.Access.Chain.{
  Chain, permission_query-Chain, Chain-permission_query,
}
use editingtab_platform_core.Storage.Tables.{Database}

-- The user may use the permission in the organization: a chain leads to it.
pub record MayUse (db : Database) (organization_id : ℕ) (user_id : ℕ) (code : String) : Type 0 where
  pub row : RolePermission
  pub user : User
  pub chain : Chain db organization_id row user
  pub row_code : row.code ≡ code
  pub key : user.id ≡ user_id

-- The user may also give the permission to a role.
pub record MayGrant (db : Database) (organization_id : ℕ) (user_id : ℕ) (code : String)
    : Type 0 where
  pub use_ : MayUse db organization_id user_id code
  pub granted : use_.row.can_grant ≡ true

-- Some user may use and grant every administrator permission.
pub record HasAdministrator (db : Database) (organization_id : ℕ) : Type 0 where
  pub administrator : ℕ
  pub grants :
      (code : String)
      → Memᴰ code administrator_permissions
      → MayGrant db organization_id administrator code

-- `frozenset` neither adds nor loses a code.
frozenset-Memᴰ : {c : String} (cs : List String) → Memᴰ c (frozenset cs) → Memᴰ c cs
unfolding frozenset
frozenset-Memᴰ [] m = m
frozenset-Memᴰ {c} (d ∷ cs) m = elim (Bool-cases (contains (frozenset cs) d)) [
  | inl e ↦ Memᴰ.tail (frozenset-Memᴰ cs (rw e at m))
  | inr e ↦ frozenset_keep d cs (λ k. frozenset-Memᴰ cs k) (rw e at m)
]
  where
    frozenset_keep :
        (d : String) (cs : List String)
        → (Memᴰ c (frozenset cs) → Memᴰ c cs)
        → Memᴰ c (d ∷ frozenset cs)
        → Memᴰ c (d ∷ cs)
    frozenset_keep d cs ih (Memᴰ.head e) = Memᴰ.head e
    frozenset_keep d cs ih (Memᴰ.tail k) = Memᴰ.tail (ih k)

Memᴰ-frozenset : {c : String} (cs : List String) → Memᴰ c cs → Memᴰ c (frozenset cs)
unfolding frozenset
Memᴰ-frozenset [] m = m
Memᴰ-frozenset (d ∷ cs) (Memᴰ.head e) = elim (Bool-cases (contains (frozenset cs) d)) [
  | inl t ↦ rw t (Memᴰ.cast e (contains-Memᴰ (frozenset cs) t))
  | inr t ↦ rw t (Memᴰ.head e)
]
Memᴰ-frozenset (d ∷ cs) (Memᴰ.tail m) = elim (Bool-cases (contains (frozenset cs) d)) [
  | inl t ↦ rw t (Memᴰ-frozenset cs m)
  | inr t ↦ rw t (Memᴰ.tail (Memᴰ-frozenset cs m))
]

module _ (db : Database) (organization_id : ℕ) (user_id : ℕ) {code : String} where
  effective-MayUse :
      Memᴰ code (effective_permissions db organization_id user_id)
      → MayUse db organization_id user_id code
  unfolding effective_permissions
  effective-MayUse m =
      let (row, k, e) = Memᴰ.of_map _ _ (frozenset-Memᴰ _ m) in
      let (k', t) = where-Memᴰ _ _ k in
      record {
        row = row.0;
        user = row.1;
        chain = permission_query-Chain db organization_id row k';
        row_code = e;
        key = ==→≡ _ _ t;
      }

  MayUse-effective :
      MayUse db organization_id user_id code
      → Memᴰ code (effective_permissions db organization_id user_id)
  unfolding effective_permissions
  MayUse-effective h = Memᴰ-frozenset _ (
      Memᴰ.cast (sym h.row_code) (
        Memᴰ.map (λ (row : RolePermission × User). row.0.code)
          (Memᴰ-where _ _ (Chain-permission_query h.chain) (≡→== _ _ h.key))))

  -- `effective_permissions` holds exactly the codes to which a chain of current rows leads from
  -- the user: an active user, a current membership in a current organization, an assignment, a
  -- current role and its permission row.
  pub effective_permissions_iff :
      Memᴰ code (effective_permissions db organization_id user_id)
      ↔ MayUse db organization_id user_id code
  effective_permissions_iff = (effective-MayUse, MayUse-effective)

  authority-MayGrant :
      Memᴰ code (effective_grant_authority db organization_id user_id)
      → MayGrant db organization_id user_id code
  unfolding effective_grant_authority
  authority-MayGrant m =
      let (row, k, e) = Memᴰ.of_map _ _ (frozenset-Memᴰ _ m) in
      let (k', t) = where-Memᴰ _ _ k in
      record {
        use_ = record {
          row = row.0;
          user = row.1;
          chain = permission_query-Chain db organization_id row k';
          row_code = e;
          key = ==→≡ _ _ (&&-left (row.1.id == user_id) row.0.can_grant t);
        };
        granted = &&-right (row.1.id == user_id) row.0.can_grant t;
      }

  MayGrant-authority :
      MayGrant db organization_id user_id code
      → Memᴰ code (effective_grant_authority db organization_id user_id)
  unfolding effective_grant_authority
  MayGrant-authority h = Memᴰ-frozenset _ (
      Memᴰ.cast (sym h.use_.row_code) (
        Memᴰ.map (λ (row : RolePermission × User). row.0.code)
          (Memᴰ-where _ _ (Chain-permission_query h.use_.chain)
            (&&-intro _ _ (≡→== _ _ h.use_.key) h.granted))))

  -- `effective_grant_authority` holds exactly the codes to which a chain of current rows leads
  -- that ends in a permission row with `can_grant`.
  pub effective_grant_authority_iff :
      Memᴰ code (effective_grant_authority db organization_id user_id)
      ↔ MayGrant db organization_id user_id code
  effective_grant_authority_iff = (authority-MayGrant, MayGrant-authority)

-- The user of a chain is a current member.
pub Chain-active_members :
    {db : Database} {organization_id : ℕ} {p : RolePermission} {u : User}
    (c : Chain db organization_id p u)
    → Memᴰ (c.membership, u) (active_members db organization_id)
unfolding active_members
Chain-active_members c = Memᴰ-join_where _ _ _ c.membership_row (ground arith) (
    Memᴰ-join_where _ _ _ c.user_row (ground arith)
      (Memᴰ-join_where _ _ _ c.organization_row (ground arith) (Memᴰ.head refl)))

module _ (db : Database) (organization_id : ℕ) where
  has_administrator_sound :
      has_administrator db organization_id ≡ true → HasAdministrator db organization_id
  unfolding has_administrator
  has_administrator_sound h =
      let (user_id, m, e) = any-Memᴰ _ _ h in
      record {
        administrator = user_id;
        grants = λ code k.
            (effective_grant_authority_iff db organization_id user_id).0
              (subset-Memᴰ administrator_permissions _ (&&-right _ _ e) k);
      }

  has_administrator_complete :
      HasAdministrator db organization_id → has_administrator db organization_id ≡ true
  unfolding has_administrator
  has_administrator_complete h =
      let g : MayGrant db organization_id h.administrator "core.roles.read" =
        h.grants "core.roles.read" (Memᴰ.head refl) in
      Memᴰ-any _ _
        (Memᴰ.cast (sym g.use_.key)
          (Memᴰ.map (λ (row : Membership × User). row.1.id) (Chain-active_members g.use_.chain)))
        (&&-intro _ _
          (Memᴰ-subset administrator_permissions _ (λ c m.
            (effective_permissions_iff db organization_id h.administrator).1 (h.grants c m).use_))
          (Memᴰ-subset administrator_permissions _ (λ c m.
            (effective_grant_authority_iff db organization_id h.administrator).1 (h.grants c m))))

  -- `has_administrator` is true exactly when some user may use and grant every administrator
  -- permission through chains of current rows.
  pub has_administrator_iff :
      (has_administrator db organization_id ≡ true) ↔ HasAdministrator db organization_id
  has_administrator_iff = (has_administrator_sound, has_administrator_complete)
