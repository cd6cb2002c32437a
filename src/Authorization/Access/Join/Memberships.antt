-- ===== src/Authorization/Access/Join/Memberships.antt =====
-- The chains after a membership is created or restored.
use editingtab_platform_core.Shared.{
  ℕ, true, false, List, [], ◌∷◌, ◌++◌, Memᴰ, none, ◌≡◌, refl, sym, ap, subst, ◌∙◌, ◌⊎◌, inl, inr,
  ◌&&◌, ◌==◌, any, not, update_where, update_cases, Memᴰ-where, Memᴰ-any, Memᴰ-update_ne,
  Bool-cases, ≡→==, arith,
}
use mathlib.Core.List.Memᴰ
use editingtab_platform_core.Outcome.{ok, err}
use editingtab_platform_core.Errors.{access_error}
use editingtab_platform_core.Identity.Models.{User, Membership}
use editingtab_platform_core.Identity.Repository.{create_membership}
use editingtab_platform_core.Authorization.Models.{RolePermission, MembershipRole, RoleAudit}
use editingtab_platform_core.Authorization.Access.Chain.{Chain}
use editingtab_platform_core.Authorization.Access.Escalation.{rebase}
use editingtab_platform_core.Authorization.Access.Join.{AssignedMembers, Grows}
use editingtab_platform_core.Authorization.Services.Members.{
  membership_assignments, before_membership_restore,
}
use editingtab_platform_core.Storage.Tables.{Database, Env}
use editingtab_platform_core.Storage.Ensures.{
  Ensures, Ensures-gets, Ensures-pure, Ensures-require, Ensures-modify,
}

pub create_membership-Ensures :
    (env : Env) (id organization_id user_id : ℕ) (db : Database)
    → Ensures
        (λ row db'.
          ((row.id ≡ id) × (not (any (λ (m : Membership). m.id == row.id) db.memberships) ≡ true))
          × (db' ≡ record db {
            memberships =
                db.memberships
                ++ (record {
                  id = id;
                  organization_id = organization_id;
                  user_id = user_id;
                  created_at = env.now;
                  updated_at = env.now;
                  deleted_at = none;
                })
                  ∷ [];
          }))
        (create_membership env id organization_id user_id db)
unfolding create_membership
create_membership-Ensures env id organization_id user_id db = Ensures-gets _ _ _ _ (
    Ensures-require _ _ _ _ _ λ fresh. Ensures-require _ _ _ _ _ λ _.
      Ensures-require _ _ _ _ _
        λ _. Ensures-modify _ _ _ _ (Ensures-pure _ _ _ ((refl, fresh), refl)))

module _ (db : Database) (organization_id actor_id : ℕ) where
  -- A membership that is in no assignment.
  pub Grows-created :
      (row : Membership) (audits : List RoleAudit)
      → AssignedMembers db
      → not (any (λ (m : Membership). m.id == row.id) db.memberships) ≡ true
      → Grows db organization_id actor_id
          (record db { memberships = db.memberships ++ row ∷ []; role_audit = audits })
  Grows-created row audits assigned unused = record {
    fresh = λ p u c. inl (old p u c (Memᴰ.append_cases db.memberships c.membership_row));
    kept = λ p u c.
        rebase c c.p_row c.role c.role_row refl refl c.role_current c.assignment_row c.membership
          (Memᴰ.append_left (row ∷ []) c.membership_row) refl refl refl c.membership_current
          c.user_row c.organization_row;
    permissions = refl;
  }
    where
      old :
          (p : RolePermission) (u : User)
          → (c : Chain
              (record db { memberships = db.memberships ++ row ∷ []; role_audit = audits })
              organization_id
              p
              u)
          → Memᴰ c.membership db.memberships ⊎ Memᴰ c.membership (row ∷ [])
          → Chain db organization_id p u
      old p u c (inl m) =
          rebase c c.p_row c.role c.role_row refl refl c.role_current c.assignment_row c.membership
            m refl refl refl c.membership_current c.user_row c.organization_row
      old p u c (inr m) =
          let (n, k, e) = assigned c.assignment c.assignment_row in
          absurd (
            ground (
              arith,
              Memᴰ-any (λ (x : Membership). x.id == row.id) db.memberships k
                  (≡→== _ _ (
                    e
                    ∙ sym c.membership_id
                    ∙ ap (λ (x : Membership). x.id) (Memᴰ.eq_of_singleton m))),
              unused,
            ))

  pub no_assignment :
      (membership_id : ℕ) {a : Unit {0}}
      → before_membership_restore organization_id membership_id db ≡ ok a
      → membership_assignments db organization_id membership_id ≡ []
  unfolding before_membership_restore
  no_assignment membership_id {a} h = go (membership_assignments db organization_id membership_id) h
    where
      go :
          (rows : List MembershipRole)
          → (elim rows [ [] ↦ ok tt | _ ∷ _ ↦ err access_error ]) ≡ ok a
          → rows ≡ []
      go [] h = refl
      go (x ∷ xs) h = cc

  -- The chain of a membership without assignments.
  unassigned-Chain :
      (membership_id : ℕ)
      → membership_assignments db organization_id membership_id ≡ []
      → (a : MembershipRole) → Memᴰ a db.membership_roles
      → a.organization_id ≡ organization_id
      → (a.membership_id == membership_id) ≡ false
  unfolding membership_assignments
  unassigned-Chain membership_id h a m e = elim (Bool-cases (a.membership_id == membership_id)) [
    | inl t ↦
        let k =
          Memᴰ-where
            (λ (b : MembershipRole).
              b.organization_id == organization_id && b.membership_id == membership_id)
            db.membership_roles m (ground arith) in
        elim (subst (Memᴰ a) h k) [ ]
    | inr t ↦ t
  ]

  -- A membership that is restored, and is in no assignment.
  pub Grows-restored :
      (key at : ℕ) (audits : List RoleAudit)
      → membership_assignments db organization_id key ≡ []
      → Grows db organization_id actor_id (record db {
        memberships =
            update_where
              (λ (m : Membership). m.id == key)
              (λ m. record m { deleted_at = none; updated_at = at })
              db.memberships;
        role_audit = audits;
      })
  Grows-restored key at audits h = record {
    fresh = λ p u c. inl (old p u c (update_cases _ _ db.memberships c.membership_row));
    kept = λ p u c.
        rebase c c.p_row c.role c.role_row refl refl c.role_current c.assignment_row c.membership
          (Memᴰ-update_ne _ _ db.memberships c.membership_row (
            ground (
              arith,
              unassigned-Chain key h c.assignment c.assignment_row
                  (c.assignment_organization ∙ c.role_organization ∙ c.p_organization),
              c.membership_id,
            )))
          refl refl refl c.membership_current c.user_row c.organization_row;
    permissions = refl;
  }
    where
      old :
          (p : RolePermission) (u : User)
          → (c : Chain
              (record db {
                memberships =
                    update_where
                      (λ (m : Membership). m.id == key)
                      (λ m. record m { deleted_at = none; updated_at = at })
                      db.memberships;
                role_audit = audits;
              })
              organization_id
              p
              u)
          → (q : Membership) × Memᴰ q db.memberships
            × (((c.membership ≡ record q { deleted_at = none; updated_at = at })
                  × ((q.id == key) ≡ true))
                ⊎ ((c.membership ≡ q) × ((q.id == key) ≡ false)))
          → Chain db organization_id p u
      old p u c (q, k, inl (e, t)) = absurd (
          ground (
            arith,
            unassigned-Chain key h c.assignment c.assignment_row
                (c.assignment_organization ∙ c.role_organization ∙ c.p_organization),
            c.membership_id,
            ap (λ (x : Membership). x.id) e,
          ))
      old p u c (q, k, inr (e, t)) =
          rebase c c.p_row c.role c.role_row refl refl c.role_current c.assignment_row c.membership
            (Memᴰ.cast e k) refl refl refl c.membership_current c.user_row c.organization_row
