-- ===== src/Authorization/Access/Strip.antt =====
-- What `before_membership_archive` leaves.
use editingtab_platform_core.Shared.{
  ℕ, false, List, [], ◌∷◌, some, ◌≡◌, refl, ◌&&◌, ◌==◌, Memᴰ-where, Bool-cases, inl, inr, arith,
}
use editingtab_platform_core.Identity.Models.{User}
use editingtab_platform_core.Authorization.Models.{MembershipRole, RoleAudit, RolePermission}
use editingtab_platform_core.Authorization.Access.Chain.{Chain}
use editingtab_platform_core.Authorization.Access.Effective.{HasAdministrator}
use editingtab_platform_core.Authorization.Access.Administrator.Roles.{
  ensure_administrator-HasAdministrator,
}
use editingtab_platform_core.Authorization.Access.Loops.{
  RemovedFrom, Removed-nil, relisted, strip_assignments-Ensures,
}
use editingtab_platform_core.Authorization.Services.Members.{
  membership_assignments, strip_membership, strip_if_any, before_membership_archive,
}
use editingtab_platform_core.Storage.Tables.{Database}
use editingtab_platform_core.Storage.Ensures.{
  Ensures, Ensures-reads, Ensures-gets, Ensures-family, Ensures-pure, Ensures-reads_last,
}

-- The assignments `gone` are deleted, and somebody is an administrator if somebody was.
abbrev pub Stripped :
    Database → ℕ → List MembershipRole → List MembershipRole × List RoleAudit → Type 0
Stripped db organization_id gone i =
    RemovedFrom db gone i
    × (HasAdministrator db organization_id → HasAdministrator (relisted db i) organization_id)

-- A membership none of whose assignments are left has no chain.
pub stripped_lem :
    (db : Database) (organization_id membership_id : ℕ) (i : List MembershipRole × List RoleAudit)
    → RemovedFrom db (membership_assignments db organization_id membership_id) i
    → (p : RolePermission) (u : User) → (c : Chain (relisted db i) organization_id p u)
    → (c.membership.id == membership_id) ≡ false
unfolding membership_assignments
stripped_lem db organization_id membership_id i r p u c =
    elim (Bool-cases (c.membership.id == membership_id)) [
      | inl t ↦
          let m =
            Memᴰ-where
              (λ (a : MembershipRole).
                a.organization_id == organization_id && a.membership_id == membership_id)
              db.membership_roles (r.was c.assignment c.assignment_row)
              (ground (
                arith, c.membership_id, c.assignment_organization, c.role_organization,
                c.p_organization,
              )) in
          absurd (ground (arith, r.not_gone c.assignment c.assignment c.assignment_row m))
      | inr t ↦ t
    ]

pub before_membership_archive-Ensures :
    (organization_id membership_id actor_id : ℕ) (db : Database)
    → Ensures
        (λ _ db'.
          (i : List MembershipRole × List RoleAudit) × Stripped db organization_id
            (membership_assignments db organization_id membership_id)
            i
          × (db' ≡ relisted db i))
        (before_membership_archive organization_id membership_id (some actor_id) db)
unfolding before_membership_archive strip_if_any strip_membership
before_membership_archive-Ensures organization_id membership_id actor_id db =
    Ensures-gets _ _ _ _ (go (membership_assignments db organization_id membership_id))
  where
    go :
        (gone : List MembershipRole)
        → Ensures
            (λ _ db'.
              (i : List MembershipRole × List RoleAudit) × Stripped db organization_id gone i
              × (db' ≡ relisted db i))
            (strip_if_any organization_id membership_id (some actor_id) gone db)
    go [] = Ensures-pure _ _ _ ((db.membership_roles, db.role_audit), (Removed-nil _, λ h. h), refl)
    go (a ∷ rest) = Ensures-reads _ _ _ _ λ _ _. Ensures-gets _ _ _ _ (
        Ensures-family _ (RemovedFrom db (a ∷ rest)) (relisted db) _ _ _
          (strip_assignments-Ensures _ _ _ _ _ _)
          λ _ i r.
            Ensures-reads_last _ _ _
              λ _ ensured. (i, (r, λ _. ensure_administrator-HasAdministrator _ _ ensured), refl))
