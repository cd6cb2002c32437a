-- ===== src/Authorization/Access/Authorize.antt =====
-- When `authorize` lets a call through.
use editingtab_platform_core.Shared.{
  ℕ, true, List, [], ◌∷◌, Memᴰ, some, String, str_eq, str_eq→≡, str_eq_refl, ◌≡◌, refl, sym, ◌∙◌,
  ◌↔◌, ◌==◌, Memᴰ-first, where-Memᴰ, Memᴰ-where, contains, contains-Memᴰ, Memᴰ-contains,
  subset-Memᴰ, Memᴰ-subset, same_set, &&-left, &&-right, &&-intro, ≡→==, arith, subst,
}
use mathlib.Core.List.Memᴰ
use editingtab_platform_core.Errors.{inaccessible}
use editingtab_platform_core.Outcome.{ok, or_raise, >>=-ok, require-ok, or_raise-ok}
use editingtab_platform_core.Identity.Models.{Organization, User, Membership}
use editingtab_platform_core.Identity.Repository.{get_organization}
use editingtab_platform_core.Authorization.Models.{PermissionDefinition}
use editingtab_platform_core.Authorization.Repository.{
  active_members, assignable_permission_codes, effective_permissions,
}
use editingtab_platform_core.Authorization.Guards.{
  Context, actor_membership, authorization_context, authorize,
}
use editingtab_platform_core.Authorization.Access.Effective.{
  MayUse, effective_permissions_iff, Chain-active_members,
}
use editingtab_platform_core.Storage.Tables.{Database}

-- The registry holds the code as active and assignable.
pub record IsAssignable (db : Database) (code : String) : Type 0 where
  pub definition : PermissionDefinition
  pub definition_row : Memᴰ definition db.permission_definitions
  pub definition_code : definition.code ≡ code
  pub assignable : definition.organization_assignable ≡ true
  pub active : definition.lifecycle ≡ "active"

-- What the registry query returns: the requested codes that are assignable.
pub assignable_permission_codes-IsAssignable :
    (db : Database) (requested : List String) {code : String}
    → Memᴰ code (assignable_permission_codes db requested)
    → IsAssignable db code × Memᴰ code requested
unfolding assignable_permission_codes
assignable_permission_codes-IsAssignable db requested m =
    let (d, k, e) = Memᴰ.of_map _ _ m in
    let (k', t) = where-Memᴰ _ _ k in
    let u = &&-right (contains requested d.code) _ t in
    (
      record {
        definition = d;
        definition_row = k';
        definition_code = e;
        assignable = &&-left d.organization_assignable _ u;
        active = str_eq→≡ _ _ (&&-right d.organization_assignable _ u);
      },
      Memᴰ.cast (sym e) (contains-Memᴰ requested (&&-left (contains requested d.code) _ t)),
    )

pub IsAssignable-assignable_permission_codes :
    (db : Database) (requested : List String) {code : String}
    → IsAssignable db code
    → Memᴰ code requested
    → Memᴰ code (assignable_permission_codes db requested)
unfolding assignable_permission_codes
IsAssignable-assignable_permission_codes db requested {code} h m =
    Memᴰ.cast (sym h.definition_code) (
      Memᴰ.map (λ (d : PermissionDefinition). d.code)
        (Memᴰ-where _ _ h.definition_row (
          &&-intro _ _ (Memᴰ-contains requested (Memᴰ.cast h.definition_code m)) (
            &&-intro _ _ h.assignable
              (subst (λ s. str_eq s "active" ≡ true) (sym h.active) (str_eq_refl "active"))))))

-- The check that every requested code is assignable.
pub same_set-IsAssignable :
    (db : Database) (requested : List String) {code : String}
    → same_set (assignable_permission_codes db requested) requested ≡ true
    → Memᴰ code requested
    → IsAssignable db code
unfolding same_set
same_set-IsAssignable db requested h m =
    (assignable_permission_codes-IsAssignable db requested
      (subset-Memᴰ requested _ (&&-right _ _ h) m)).0

pub IsAssignable-same_set :
    (db : Database) (requested : List String)
    → ((code : String) → Memᴰ code requested → IsAssignable db code)
    → same_set (assignable_permission_codes db requested) requested ≡ true
unfolding same_set
IsAssignable-same_set db requested h =
    &&-intro _ _
      (Memᴰ-subset _ requested (λ c m. (assignable_permission_codes-IsAssignable db requested m).1))
      (Memᴰ-subset requested _
        (λ c m. IsAssignable-assignable_permission_codes db requested (h c m) m))

module _ (db : Database) (organization_id actor_id : ℕ) (code : String) where
  -- A context that was granted shows the current rows on which it rests.
  pub authorization_context-MayUse :
      {c : Context}
      → authorization_context db organization_id actor_id code ≡ ok c
      → IsAssignable db code
        × MayUse db organization_id actor_id code
        × (get_organization db organization_id ≡ some c.organization)
  unfolding authorization_context
  authorization_context-MayUse {c} h =
      let (t, h1) = require-ok _ _ _ h in
      let (o, eo, h2) = >>=-ok (or_raise (get_organization db organization_id) inaccessible) _ h1 in
      let (m, em, h3) =
        >>=-ok (or_raise (actor_membership db organization_id actor_id) inaccessible) _ h2 in
      let (k, h4) = require-ok _ _ _ h3 in
      (
        same_set-IsAssignable db (code ∷ []) t (Memᴰ.head refl),
        (effective_permissions_iff db organization_id actor_id).0 (contains-Memᴰ _ k),
        or_raise-ok _ _ eo ∙ ground arith,
      )

  -- What is needed for a context to be granted.
  pub MayUse-authorization_context :
      {o : Organization}
      → IsAssignable db code
      → MayUse db organization_id actor_id code
      → get_organization db organization_id ≡ some o
      → (c : Context) × (authorization_context db organization_id actor_id code ≡ ok c)
        × (c.organization ≡ o)
  unfolding authorization_context actor_membership
  MayUse-authorization_context {o} a u e =
      let t : same_set (assignable_permission_codes db (code ∷ [])) (code ∷ []) ≡ true =
        IsAssignable-same_set db (code ∷ []) (λ c m. Memᴰ-one c m) in
      let (row, em) =
        Memᴰ-first (λ (row : Membership × User). row.1.id == actor_id)
          (active_members db organization_id) (Chain-active_members u.chain) (≡→== _ _ u.key) in
      let k =
        Memᴰ-contains (effective_permissions db organization_id actor_id)
          ((effective_permissions_iff db organization_id actor_id).1 u) in
      (
        record {
          organization = o;
          membership = row.0;
          held = effective_permissions db organization_id actor_id;
        },
        rw (t, e, em, k),
        refl,
      )
    where
      Memᴰ-one : (c : String) → Memᴰ c (code ∷ []) → IsAssignable db c
      Memᴰ-one c m = subst (IsAssignable db) (sym (Memᴰ.eq_of_singleton m)) a

  pub MayUse-authorize :
      {o : Organization}
      → IsAssignable db code
      → MayUse db organization_id actor_id code
      → get_organization db organization_id ≡ some o
      → authorize db organization_id actor_id code ≡ ok o
  unfolding authorize
  MayUse-authorize a u e = let (c, ec, eo) = MayUse-authorization_context a u e in rw (ec, eo)

  authorize-MayUse :
      {o : Organization}
      → authorize db organization_id actor_id code ≡ ok o
      → IsAssignable db code
        × MayUse db organization_id actor_id code
        × (get_organization db organization_id ≡ some o)
  unfolding authorize
  authorize-MayUse h =
      let (c, ec, h1) = >>=-ok (authorization_context db organization_id actor_id code) _ h in
      let (a, u, e) = authorization_context-MayUse ec in (a, u, e ∙ ground arith)

-- `authorize` lets a call through exactly when the code is assignable in the registry, the
-- organization is current, and a chain of current rows gives the actor the code; the result is
-- then the organization's row.
pub authorize_iff :
    (db : Database) (organization_id actor_id : ℕ) (code : String) (o : Organization)
    → (authorize db organization_id actor_id code ≡ ok o) ↔ (
        IsAssignable db code
        × MayUse db organization_id actor_id code
        × (get_organization db organization_id ≡ some o))
authorize_iff db organization_id actor_id code o = (
  authorize-MayUse db organization_id actor_id code,
  λ (a, u, e). MayUse-authorize db organization_id actor_id code a u e,
)
