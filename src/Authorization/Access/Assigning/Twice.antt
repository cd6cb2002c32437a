-- ===== src/Authorization/Access/Assigning/Twice.antt =====
-- `change_assignment` called again.
use editingtab_platform_core.Shared.{
  ℕ, true, false, List, [], ◌∷◌, ◌++◌, Memᴰ, String, ◌≡◌, refl, sym, ap, subst, Memᴰ-any,
  subset-Memᴰ, Memᴰ-subset, arith,
}
use mathlib.Core.List.Memᴰ
use editingtab_platform_core.Outcome.{ok, require, require-true}
use editingtab_platform_core.Errors.{access_error, storage_unavailable}
use editingtab_platform_core.Identity.Models.{Organization, User}
use editingtab_platform_core.Identity.Repository.{get_organization}
use editingtab_platform_core.Authorization.Models.{Role, RolePermission, MembershipRole, RoleAudit}
use editingtab_platform_core.Authorization.Policy.{role_assign}
use editingtab_platform_core.Authorization.Repository.{
  active_members, effective_grant_authority, role_permission_grants, has_assignment,
}
use editingtab_platform_core.Authorization.Guards.{authorize, find_role, grantable}
use editingtab_platform_core.Authorization.Access.Chain.{Chain}
use editingtab_platform_core.Authorization.Access.Effective.{MayUse, effective_grant_authority_iff}
use editingtab_platform_core.Authorization.Access.Authorize.{authorize_iff}
use editingtab_platform_core.Authorization.Access.Escalation.{rebase}
use editingtab_platform_core.Authorization.Access.Writes.{insert_assignment-Ensures, audit-Ensures}
use editingtab_platform_core.Authorization.Services.Assignments.{
  current_membership, change_assignment_body, add_assignment,
}
use editingtab_platform_core.Authorization.Services.Transaction.{transaction, translate}
use editingtab_platform_core.Authorization.Services.Api.{change_assignment}
use editingtab_platform_core.Storage.Tables.{Database, Session}
use editingtab_platform_core.Storage.Exec.{◌>>=◌}
use editingtab_platform_core.Storage.Ensures.{
  Ensures, Ensures-ok, Ensures-reads, Ensures-gets, Ensures-step, Ensures-pure, Ensures-require,
  Ensures-branch, Ensures-weaken,
}
use editingtab_platform_core.Storage.Idle.{Ensures-transact_idle}

-- The tables with one more assignment and other audit rows.
abbrev more : Database → MembershipRole → List RoleAudit → Database
more db row audits = record db {
  membership_roles = db.membership_roles ++ row ∷ [];
  role_audit = audits;
}

module _ (db : Database) (row : MembershipRole) (audits : List RoleAudit)
    (organization_id actor_id : ℕ) where
  -- The chains stay.
  more-Chain :
      (p : RolePermission) (u : User)
      → Chain db organization_id p u
      → Chain (more db row audits) organization_id p u
  more-Chain p u c =
      rebase c c.p_row c.role c.role_row refl refl c.role_current
        (Memᴰ.append_left (row ∷ []) c.assignment_row) c.membership c.membership_row refl refl refl
        c.membership_current c.user_row c.organization_row

  more-MayUse :
      {code : String}
      → MayUse db organization_id actor_id code
      → MayUse (more db row audits) organization_id actor_id code
  more-MayUse m = record {
    row = m.row;
    user = m.user;
    chain = more-Chain m.row m.user m.chain;
    row_code = m.row_code;
    key = m.key;
  }

  more-authorize :
      {o : Organization}
      → authorize db organization_id actor_id role_assign ≡ ok o
      → authorize (more db row audits) organization_id actor_id role_assign ≡ ok o
  unfolding get_organization
  more-authorize {o} h =
      let (a, m, e) = (authorize_iff db organization_id actor_id role_assign o).0 h in
      (authorize_iff (more db row audits) organization_id actor_id role_assign o).1 (
        record {
          definition = a.definition;
          definition_row = a.definition_row;
          definition_code = a.definition_code;
          assignable = a.assignable;
          active = a.active;
        },
        more-MayUse m,
        e,
      )

  more-grantable :
      (role_id : ℕ)
      → grantable
          (effective_grant_authority db organization_id actor_id)
          (role_permission_grants db organization_id role_id)
        ≡ ok tt
      → grantable
          (effective_grant_authority (more db row audits) organization_id actor_id)
          (role_permission_grants (more db row audits) organization_id role_id)
        ≡ ok tt
  unfolding grantable role_permission_grants more-MayUse
  more-grantable role_id h =
      let held : List String = effective_grant_authority db organization_id actor_id in
      ap (λ t. require t access_error)
        (Memᴰ-subset _ _ λ c m.
          let g =
            (effective_grant_authority_iff db organization_id actor_id).0
              (subset-Memᴰ _ held (require-true _ access_error h) m) in
          (effective_grant_authority_iff (more db row audits) organization_id actor_id).1
            (record { use_ = more-MayUse g.use_; granted = g.granted }))

-- The checks of `change_assignment` pass, and the member has the role.
record Settled (organization_id actor_id membership_id role_id : ℕ) (db : Database) : Type 0 where
  organization : Organization
  role : Role
  authorized : authorize db organization_id actor_id role_assign ≡ ok organization
  found : find_role db organization_id role_id false ≡ ok role
  member : current_membership db organization_id membership_id ≡ true
  granted :
      grantable
        (effective_grant_authority db organization_id actor_id)
        (role_permission_grants db organization_id role_id)
      ≡ ok tt
  assigned : has_assignment db organization_id membership_id role_id ≡ true

module _ (organization_id actor_id membership_id role_id : ℕ) where
  abbrev assignment : MembershipRole
  assignment = record {
    organization_id = organization_id;
    membership_id = membership_id;
    role_id = role_id;
  }

  more-has_assignment :
      (db : Database) (audits : List RoleAudit)
      → has_assignment (more db assignment audits) organization_id membership_id role_id ≡ true
  unfolding has_assignment
  more-has_assignment db audits =
      Memᴰ-any _ (db.membership_roles ++ assignment ∷ [])
        (Memᴰ.append_right db.membership_roles (Memᴰ.head refl)) (ground arith)

  more-Settled :
      (db : Database) (audits : List RoleAudit) {o : Organization} {r : Role}
      → authorize db organization_id actor_id role_assign ≡ ok o
      → find_role db organization_id role_id false ≡ ok r
      → current_membership db organization_id membership_id ≡ true
      → grantable
          (effective_grant_authority db organization_id actor_id)
          (role_permission_grants db organization_id role_id)
        ≡ ok tt
      → Settled organization_id actor_id membership_id role_id (more db assignment audits)
  unfolding find_role current_membership active_members
  more-Settled db audits {o} {r} authorized found member granted = record {
    organization = o;
    role = r;
    authorized = more-authorize db assignment audits organization_id actor_id authorized;
    found = found;
    member = member;
    granted = more-grantable db assignment audits organization_id actor_id role_id granted;
    assigned = more-has_assignment db audits;
  }

  -- A call that returns leaves its checks passing, and the member with the role.
  change_assignment_body-Settled :
      (db : Database)
      → Ensures
          (λ _ db'. Settled organization_id actor_id membership_id role_id db')
          (change_assignment_body organization_id actor_id membership_id role_id false db)
  unfolding change_assignment_body add_assignment
  change_assignment_body-Settled db = Ensures-reads _ _ _ _ λ o authorized. Ensures-gets _ _ _ _ (
      Ensures-reads _ _ _ _ λ r found. Ensures-gets _ _ _ _ (
        Ensures-require _ _ _ _ _ λ member. Ensures-gets _ _ _ _ (
          Ensures-reads _ _ _ _ λ _ granted.
            Ensures-branch _ _ _ _ _ (λ e. absurd (ground (arith, e)))
              (λ _.
                Ensures-branch _ _ _ _ _
                  (λ assigned. Ensures-pure _ _ _ (record {
                    organization = o;
                    role = r;
                    authorized = authorized;
                    found = found;
                    member = member;
                    granted = granted;
                    assigned = assigned;
                  }))
                  (λ _. Ensures-step _ _ _ _ _ _ (insert_assignment-Ensures _ _) λ _ _.
                    Ensures-reads _ _ _ _ λ _ _.
                      Ensures-weaken _ _ _
                        (λ _ db' (_, e).
                          subst (Settled organization_id actor_id membership_id role_id) (sym e)
                            (more-Settled db _ authorized found member granted))
                        (audit-Ensures _ _ _ _ _ _ _ _))))))

  -- Where the checks pass and the member has the role, the call changes nothing.
  Settled-again :
      (s : Session)
      → s.in_transaction ≡ false
      → Settled organization_id actor_id membership_id role_id s.database
      → change_assignment organization_id actor_id membership_id role_id false s ≡ (ok tt, s)
  unfolding change_assignment transaction change_assignment_body ◌>>=◌
  Settled-again s idle h = rw (idle, h.authorized, h.found, h.member, h.granted, h.assigned)

-- If `change_assignment` without `remove` returns, then the same call on the session that it left
-- returns too and changes nothing, not even the audit, and the member has the role.
pub change_assignment_twice :
    (organization_id actor_id membership_id role_id : ℕ) (s : Session)
    → (change_assignment organization_id actor_id membership_id role_id false s).0 ≡ ok tt
    → let s' = (change_assignment organization_id actor_id membership_id role_id false s).1 in
      (change_assignment organization_id actor_id membership_id role_id false s' ≡ (ok tt, s'))
      × (has_assignment s'.database organization_id membership_id role_id ≡ true)
unfolding change_assignment transaction
change_assignment_twice organization_id actor_id membership_id role_id s returned =
    let s' : Session =
      (change_assignment organization_id actor_id membership_id role_id false s).1 in
    let (settled, idle) =
      Ensures-ok
        (λ _ t.
          Settled organization_id actor_id membership_id role_id t.database
          × (t.in_transaction ≡ false))
        (change_assignment organization_id actor_id membership_id role_id false s)
        (Ensures-transact_idle storage_unavailable translate
          (change_assignment_body organization_id actor_id membership_id role_id false) _ s
          (change_assignment_body-Settled organization_id actor_id membership_id role_id
            s.database))
        returned in
    (Settled-again organization_id actor_id membership_id role_id s' idle settled, settled.assigned)
