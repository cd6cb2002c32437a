-- ===== src/Authorization/Access/Archiving/Hook.antt =====
-- `before_membership_archive` with an actor: what it checks of each assignment that it deletes.
use editingtab_platform_core.Shared.{
  ℕ, List, [], ◌∷◌, Memᴰ, String, some, ◌≡◌, sym, subst, ◌&&◌, ◌==◌, Memᴰ-where, arith,
}
use editingtab_platform_core.Outcome.{ok}
use editingtab_platform_core.Authorization.Models.{RolePermission, MembershipRole, RoleAudit}
use editingtab_platform_core.Authorization.Policy.{role_assign}
use editingtab_platform_core.Authorization.Repository.{
  role_permission_grants, effective_grant_authority,
}
use editingtab_platform_core.Authorization.Guards.{grantable}
use editingtab_platform_core.Authorization.Access.Effective.{MayUse, MayGrant}
use editingtab_platform_core.Authorization.Access.Authorize.{authorize_iff}
use editingtab_platform_core.Authorization.Access.Escalation.Granting.{grantable-AllGrantable}
use editingtab_platform_core.Authorization.Access.Escalation.Assignments.{
  role_permission_grants-row,
}
use editingtab_platform_core.Authorization.Access.Loops.{RemovedFrom, relisted}
use editingtab_platform_core.Authorization.Access.Strip.{before_membership_archive-Ensures}
use editingtab_platform_core.Authorization.Access.Writes.{audit-Ensures, delete_assignment-Ensures}
use editingtab_platform_core.Authorization.Services.Members.{
  membership_assignments, strip_assignments, strip_membership, strip_if_any,
  before_membership_archive,
}
use editingtab_platform_core.Storage.Tables.{Database}
use editingtab_platform_core.Storage.Ensures.{
  Ensures, Ensures-reads, Ensures-gets, Ensures-step, Ensures-bind, Ensures-pure,
  Ensures-reads_last, Ensures-weaken, Ensures-both,
}

module _ (organization_id actor_id membership_id : ℕ) where
  -- The actor may assign roles, and grant every permission of the assignment's role.
  pub record MayTake (db : Database) (a : MembershipRole) : Type 0 where
    pub assigns : MayUse db organization_id actor_id role_assign
    pub grants :
        (p : RolePermission)
        → Memᴰ p db.role_permissions
        → p.organization_id ≡ organization_id
        → p.role_id ≡ a.role_id
        → MayGrant db organization_id actor_id p.code

  -- The loop deletes only assignments of roles whose permissions are in the authority.
  strip_assignments-grantable :
      (authority : List String) (rows : List MembershipRole) (db : Database)
      → Ensures
          (λ _ _.
            (a : MembershipRole)
            → Memᴰ a rows
            → grantable authority (role_permission_grants db organization_id a.role_id) ≡ ok tt)
          (strip_assignments organization_id actor_id membership_id authority rows db)
  unfolding strip_assignments role_permission_grants
  strip_assignments-grantable authority [] db = Ensures-pure _ _ _ (λ a m. elim m [ ])
  strip_assignments-grantable authority (row ∷ rows) db = Ensures-gets _ _ _ _ (
      Ensures-reads _ _ _ _ λ _ g.
        Ensures-step _ _ _ _ _ _ (delete_assignment-Ensures row db) λ _ _.
          Ensures-step _ _ _ _ _ _ (audit-Ensures _ _ _ _ _ _ _ _) λ _ _.
            Ensures-weaken _ _ _ (λ _ _ k a m. every g k a m)
              (strip_assignments-grantable authority rows _))
    where
      every :
          grantable authority (role_permission_grants db organization_id row.role_id) ≡ ok tt
          → ((a : MembershipRole)
              → Memᴰ a rows
              → grantable authority (role_permission_grants db organization_id a.role_id) ≡ ok tt)
          → (a : MembershipRole) → Memᴰ a (row ∷ rows)
          → grantable authority (role_permission_grants db organization_id a.role_id) ≡ ok tt
      every g k a (Memᴰ.head e) =
          subst
            (λ x. grantable authority (role_permission_grants db organization_id x.role_id) ≡ ok tt)
            (sym e) g
      every g k a (Memᴰ.tail m) = k a m

  module _ (db : Database) where
    strip_if_any-MayTake :
        (rows : List MembershipRole)
        → Ensures
            (λ _ _. (a : MembershipRole) → Memᴰ a rows → MayTake db a)
            (strip_if_any organization_id membership_id (some actor_id) rows db)
    unfolding strip_if_any strip_membership
    strip_if_any-MayTake [] = Ensures-pure _ _ _ (λ a m. elim m [ ])
    strip_if_any-MayTake (row ∷ rows) = Ensures-reads _ _ _ _ λ o auth. Ensures-gets _ _ _ _ (
        Ensures-bind _ _ _ _ _
          (strip_assignments-grantable (effective_grant_authority db organization_id actor_id)
            (row ∷ rows) db)
          λ _ db' g. Ensures-reads_last _ _ _ λ _ _ a m. record {
            assigns = ((authorize_iff db organization_id actor_id role_assign o).0 auth).1;
            grants = λ p k po pr.
                grantable-AllGrantable db organization_id actor_id _ (g a m) (p.code, p.can_grant)
                  (role_permission_grants-row db organization_id a.role_id k
                    (ground (arith, po, pr)));
          })

    pub row-assignments :
        (a : MembershipRole)
        → Memᴰ a db.membership_roles
        → a.organization_id ≡ organization_id
        → a.membership_id ≡ membership_id
        → Memᴰ a (membership_assignments db organization_id membership_id)
    unfolding membership_assignments
    row-assignments a m o e =
        Memᴰ-where
          (λ (a : MembershipRole).
            a.organization_id == organization_id && a.membership_id == membership_id)
          db.membership_roles m (ground (arith, o, e))

    abbrev pub AllTaken : Type 0
    AllTaken =
        (a : MembershipRole)
        → Memᴰ a (membership_assignments db organization_id membership_id)
        → MayTake db a

    abbrev pub Taken : List MembershipRole × List RoleAudit → Type 0
    Taken i = AllTaken × RemovedFrom db (membership_assignments db organization_id membership_id) i

    abbrev pub Relisted : Database → Type 0
    Relisted db' = (i : List MembershipRole × List RoleAudit) × Taken i × (db' ≡ relisted db i)

    before_membership_archive-AllTaken :
        Ensures
          (λ _ _. AllTaken)
          (before_membership_archive organization_id membership_id (some actor_id) db)
    unfolding before_membership_archive
    before_membership_archive-AllTaken =
        Ensures-gets _ _ _ _
          (strip_if_any-MayTake (membership_assignments db organization_id membership_id))

    -- The hook before the archiving, with its checks.
    pub before_membership_archive-Relisted :
        (key : ℕ)
        → key ≡ membership_id
        → Ensures
            (λ _ db'. Relisted db')
            (before_membership_archive organization_id key (some actor_id) db)
    before_membership_archive-Relisted key same =
        subst
          (λ k.
            Ensures (λ _ db'. Relisted db')
              (before_membership_archive organization_id k (some actor_id) db))
          (sym same)
          (Ensures-weaken _ _ _ (λ _ _ (taken, (i, s, e)). (i, (taken, s.0), e))
            (Ensures-both _ _ _ before_membership_archive-AllTaken
              (before_membership_archive-Ensures organization_id membership_id actor_id db)))
