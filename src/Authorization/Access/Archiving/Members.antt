-- ===== src/Authorization/Access/Archiving/Members.antt =====
-- `archive_member` against what it checks and what it leaves.
use editingtab_platform_core.Shared.{
  ℕ, true, false, List, Memᴰ, Option, none, some, ◌≡◌, ◌≢◌, refl, sym, ap, subst, ◌⊎◌, inl, inr,
  ◌==◌, is_some, first-Memᴰ, update_where, update_cases, arith, join_where,
}
use mathlib.Core.List.Memᴰ
use editingtab_platform_core.Outcome.{ok, or_raise-ok}
use editingtab_platform_core.Identity.Models.{User, Membership}
use editingtab_platform_core.Authorization.Models.{MembershipRole, RoleAudit}
use editingtab_platform_core.Authorization.Policy.{member_manage}
use editingtab_platform_core.Authorization.Repository.{members, member_audit}
use editingtab_platform_core.Authorization.Access.Effective.{MayUse}
use editingtab_platform_core.Authorization.Access.Authorize.{authorize_iff}
use editingtab_platform_core.Authorization.Access.Loops.{RemovedFrom, relisted}
use editingtab_platform_core.Authorization.Access.Writes.{audit-Ensures}
use editingtab_platform_core.Authorization.Services.Members.{
  membership_assignments, write_membership, archive_current_member, archive_member_body,
  find_member,
}
use editingtab_platform_core.Authorization.Services.Api.{archive_member}
use editingtab_platform_core.Authorization.Services.Transaction.{transaction-Ensures}
use editingtab_platform_core.Storage.Tables.{Database, Session, Env}
use editingtab_platform_core.Storage.Ensures.{
  Ensures, Ensures-ok, Ensures-reads, Ensures-family, Ensures-pure, Ensures-branch, Ensures-modify,
  Ensures-weaken,
}
use editingtab_platform_core.Authorization.Access.Archiving.Hook.{
  MayTake, Taken, row-assignments, before_membership_archive-Relisted,
}

module _ (organization_id actor_id membership_id : ℕ) where
  -- The tables before and after a current membership is archived.
  pub record Left (before after : Database) : Type 0 where
    pub taken :
        (a : MembershipRole)
        → Memᴰ a before.membership_roles
        → a.organization_id ≡ organization_id
        → a.membership_id ≡ membership_id
        → MayTake organization_id actor_id membership_id before a
    pub archived :
        (m : Membership) → Memᴰ m after.memberships → m.id ≡ membership_id → m.deleted_at ≢ none
    pub unassigned :
        (a : MembershipRole)
        → Memᴰ a after.membership_roles
        → a.organization_id ≡ organization_id
        → a.membership_id ≢ membership_id

  -- The tables before and after `archive_member`: the actor could manage members, and the
  -- membership of the organization was archived already, or is now.
  pub record ArchivedMember (before after : Database) : Type 0 where
    pub allowed : MayUse before organization_id actor_id member_manage
    pub member : Membership
    pub row : Memᴰ member before.memberships
    pub key : member.id ≡ membership_id
    pub organization : member.organization_id ≡ organization_id
    pub change :
        ((member.deleted_at ≢ none) × (after ≡ before))
        ⊎ ((member.deleted_at ≡ none) × Left before after)

  module _ (db : Database) where
    -- The rows after the membership was archived.
    archived_rows :
        (key at : ℕ) (m : Membership)
        → key ≡ membership_id
        → Memᴰ m (
            update_where
              (λ (m : Membership). m.id == key)
              (λ m. record m { deleted_at = some at; updated_at = at })
              db.memberships)
        → m.id ≡ membership_id
        → m.deleted_at ≢ none
    archived_rows key at m same k e gone =
        let (q, _, c) = update_cases _ _ db.memberships k in go q c
      where
        go :
            (q : Membership)
            → ((m ≡ record q { deleted_at = some at; updated_at = at }) × ((q.id == key) ≡ true))
              ⊎ ((m ≡ q) × ((q.id == key) ≡ false))
            → ⊥
        go q (inl (c, _)) = absurd (ground (arith, ap (λ (x : Membership). x.deleted_at) c, gone))
        go q (inr (c, t)) = absurd (ground (arith, ap (λ (x : Membership). x.id) c, e, same, t))

    unassigned_rows :
        (i : List MembershipRole × List RoleAudit)
        → RemovedFrom db (membership_assignments db organization_id membership_id) i
        → (a : MembershipRole) → Memᴰ a i.0
        → a.organization_id ≡ organization_id
        → a.membership_id ≢ membership_id
    unassigned_rows i r a m o e = absurd (
        ground (
          arith,
          r.not_gone a a m
              (row-assignments organization_id actor_id membership_id db a (r.was a m) o e),
        ))

    archive_current_member-Left :
        (env : Env) (member : Membership) (user : User)
        → member.id ≡ membership_id
        → Ensures
            (λ _ db'. Left db db')
            (archive_current_member env organization_id actor_id member user db)
    unfolding archive_current_member write_membership member_audit
    archive_current_member-Left env member user same =
        Ensures-family _ (Taken organization_id actor_id membership_id db) (relisted db) _ _ _
          (before_membership_archive-Relisted organization_id actor_id membership_id db member.id
            same)
          λ _ i (may, r). Ensures-modify _ _ _ _ (
            Ensures-weaken _ _ _
              (λ _ db' (_, e). subst (Left db) (sym e) (record {
                taken = λ a m o k.
                    may a (row-assignments organization_id actor_id membership_id db a m o k);
                archived = λ m k. archived_rows member.id env.utc_now m same k;
                unassigned = unassigned_rows i r;
              }))
              (audit-Ensures _ _ _ _ _ _ _ _))

    found_member :
        {row : Membership × User}
        → find_member db organization_id membership_id ≡ some row
        → Memᴰ row.0 db.memberships
          × (row.0.id ≡ membership_id)
          × (row.0.organization_id ≡ organization_id)
    unfolding find_member members
    found_member {row} h =
        let (m, t) = first-Memᴰ _ _ h in
        join_where _ db.memberships _ m λ x mx ex my. join_where _ db.users _ my λ u _ _ mu.
          join_where _ db.organizations _ mu λ _ _ _ mo.
            let e : row.0 ≡ x = ap (λ (r : Membership × User). r.0) (Memᴰ.eq_of_singleton mo) in
            (
              Memᴰ.cast e mx,
              ground (arith, t),
              ground (arith, ap (λ (y : Membership). y.organization_id) e, ex),
            )

    some-≢none : {A : Type 0} (o : Option A) → is_some o ≡ true → o ≢ none
    some-≢none none e k = cc
    some-≢none (some x) e k = cc

    not_some-≡none : {A : Type 0} (o : Option A) → is_some o ≡ false → o ≡ none
    not_some-≡none none e = refl
    not_some-≡none (some x) e = cc

    archive_member_body-ArchivedMember :
        (env : Env)
        → Ensures
            (λ _ db'. ArchivedMember db db')
            (archive_member_body env organization_id actor_id membership_id db)
    unfolding archive_member_body
    archive_member_body-ArchivedMember env = Ensures-reads _ _ _ _ λ o auth.
        Ensures-reads _ _ _ _ λ row er.
          let allowed = ((authorize_iff db organization_id actor_id member_manage o).0 auth).1 in
          let (m, k, g) = found_member (or_raise-ok _ _ er) in
          Ensures-branch _ _ _ _ _
            (λ t. Ensures-pure _ _ _ (record {
              allowed = allowed;
              member = row.0;
              row = m;
              key = k;
              organization = g;
              change = inl (some-≢none _ t, refl);
            }))
            (λ t.
              Ensures-weaken _ _ _
                (λ _ db' left. record {
                  allowed = allowed;
                  member = row.0;
                  row = m;
                  key = k;
                  organization = g;
                  change = inr (not_some-≡none _ t, left);
                })
                (archive_current_member-Left env row.0 row.1 k))

-- When `archive_member` returns, the actor could manage members and the membership is one of the
-- organization. If it was archived already, nothing has changed. Otherwise, for each assignment
-- of it, the actor could assign roles and grant every permission of the assignment's role, and in
-- the committed tables no row of its key is current and no assignment of it is left.
pub archive_member-ArchivedMember :
    (organization_id actor_id : ℕ) (s : Session) (env : Env) (membership_id : ℕ)
    → (archive_member env organization_id actor_id membership_id s).0 ≡ ok tt
    → ArchivedMember organization_id actor_id membership_id s.database
        (archive_member env organization_id actor_id membership_id s).1.database
unfolding archive_member
archive_member-ArchivedMember organization_id actor_id s env membership_id returned =
    Ensures-ok
      (λ _ s'. ArchivedMember organization_id actor_id membership_id s.database s'.database)
      (archive_member env organization_id actor_id membership_id s)
      (transaction-Ensures _
        (λ _ db'. ArchivedMember organization_id actor_id membership_id s.database db') s
        (archive_member_body-ArchivedMember organization_id actor_id membership_id s.database env))
      returned
