-- ===== src/Authorization/Access/Assigning.antt =====
-- When `change_assignment` adds an assignment, what it leaves.
pub mod Twice
use editingtab_platform_core.Shared.{
  ℕ, true, false, [], ◌∷◌, ◌++◌, ◌≡◌, refl, ap, ◌&&◌, ◌==◌, any, any-Memᴰ, Memᴰ-any, arith,
  join_where, first-Memᴰ, some,
}
use mathlib.Core.List.Memᴰ
use editingtab_platform_core.Outcome.{ok, or_raise-ok}
use editingtab_platform_core.Identity.Models.{Organization, User, Membership}
use editingtab_platform_core.Authorization.Models.{Role, MembershipRole}
use editingtab_platform_core.Authorization.Policy.{role_assign}
use editingtab_platform_core.Authorization.Repository.{
  active_members, effective_grant_authority, role_permission_grants, has_assignment,
  insert_assignment, audit, has_administrator,
}
use editingtab_platform_core.Authorization.Guards.{
  authorize, find_role, grantable, ensure_administrator,
}
use editingtab_platform_core.Authorization.Access.Effective.{
  HasAdministrator, has_administrator_iff,
}
use editingtab_platform_core.Authorization.Access.Administrator.{HasAdministrator-map}
use editingtab_platform_core.Authorization.Access.Escalation.{rebase}
use editingtab_platform_core.Authorization.Access.Writes.{audited}
use editingtab_platform_core.Authorization.Services.Assignments.{
  current_membership, change_assignment_body, add_assignment,
}
use editingtab_platform_core.Authorization.Services.Transaction.{transaction}
use editingtab_platform_core.Authorization.Services.Api.{change_assignment}
use editingtab_platform_core.Storage.Tables.{Database, Session}
use editingtab_platform_core.Storage.Exec.{◌>>=◌, pure, reads, gets, modify, require}

-- A current member has a membership row.
current_membership-row :
    (db : Database) (organization_id membership_id : ℕ)
    → current_membership db organization_id membership_id ≡ true
    → any
        (λ (m : Membership). m.id == membership_id && m.organization_id == organization_id)
        db.memberships
      ≡ true
unfolding current_membership active_members
current_membership-row db organization_id membership_id h =
    let (row, m, t) = any-Memᴰ _ _ h in
    join_where _ db.memberships _ m λ x mx ex my. join_where _ db.users _ my λ u _ _ mu.
      join_where _ db.organizations _ mu λ _ _ _ mo.
        Memᴰ-any _ db.memberships mx
          (ground (arith, ap (λ (r : Membership × User). r.0.id) (Memᴰ.eq_of_singleton mo), t, ex))

find_role-row :
    (db : Database) (organization_id role_id : ℕ) {r : Role}
    → find_role db organization_id role_id false ≡ ok r
    → any (λ (r : Role). r.id == role_id && r.organization_id == organization_id) db.roles ≡ true
unfolding find_role
find_role-row db organization_id role_id h =
    let (m, t) = first-Memᴰ _ db.roles (or_raise-ok _ _ h) in
    Memᴰ-any _ db.roles m (ground (arith, t))

-- A row more among the assignments keeps the administrator.
assigned-has_administrator :
    (db : Database) (organization_id : ℕ) (row : MembershipRole)
    → HasAdministrator db organization_id
    → has_administrator
        (record db { membership_roles = db.membership_roles ++ row ∷ [] })
        organization_id
      ≡ true
assigned-has_administrator db organization_id row admin =
    (has_administrator_iff _ organization_id).1 (
      HasAdministrator-map
        (λ p u c.
          rebase c c.p_row c.role c.role_row refl refl c.role_current
            (Memᴰ.append_left (row ∷ []) c.assignment_row) c.membership c.membership_row refl refl
            refl c.membership_current c.user_row c.organization_row)
        admin)

-- The state with the assignment and its audit row.
abbrev pub assigned : ℕ → ℕ → ℕ → ℕ → Session → Database
assigned organization_id actor_id membership_id role_id s =
    audited
      (record s.database {
        membership_roles =
            s.database.membership_roles
            ++ (record {
              organization_id = organization_id;
              membership_id = membership_id;
              role_id = role_id;
            })
              ∷ [];
      })
      organization_id actor_id "assignment.added" role_id []
      (role_permission_grants s.database organization_id role_id) (some membership_id)

module _ (organization_id actor_id membership_id role_id : ℕ) (s : Session)
    (idle : s.in_transaction ≡ false) {o : Organization} {r : Role} {u : Unit {0}}
    (authorized : authorize s.database organization_id actor_id role_assign ≡ ok o)
    (found : find_role s.database organization_id role_id false ≡ ok r)
    (member : current_membership s.database organization_id membership_id ≡ true)
    (granted : grantable
        (effective_grant_authority s.database organization_id actor_id)
        (role_permission_grants s.database organization_id role_id)
      ≡ ok u) where
  added-add_assignment :
      has_assignment s.database organization_id membership_id role_id ≡ false
      → HasAdministrator s.database organization_id
      → add_assignment organization_id actor_id membership_id role_id
          (role_permission_grants s.database organization_id role_id)
          s.database
        ≡ (ok tt, assigned organization_id actor_id membership_id role_id s)
  unfolding ◌>>=◌ pure reads gets modify require add_assignment insert_assignment has_assignment
      ensure_administrator audit
  added-add_assignment h admin =
      let k = current_membership-row s.database organization_id membership_id member in
      let l = find_role-row s.database organization_id role_id found in
      let a =
        assigned-has_administrator s.database organization_id
          (record {
            organization_id = organization_id;
            membership_id = membership_id;
            role_id = role_id;
          })
          admin in
      rw (h, k, l, a)

  -- On an idle session, if `authorize` lets the actor assign roles, the role is current, the
  -- member is current, the role's permissions are within the actor's grant authority, the member
  -- does not have the role, and the organization has an administrator, then `change_assignment`
  -- without `remove` returns, and leaves exactly the new assignment and its audit row.
  pub change_assignment_adds :
      has_assignment s.database organization_id membership_id role_id ≡ false
      → HasAdministrator s.database organization_id
      → change_assignment organization_id actor_id membership_id role_id false s
        ≡ (ok tt, record s { database = assigned organization_id actor_id membership_id role_id s })
  unfolding change_assignment transaction change_assignment_body ◌>>=◌
  change_assignment_adds h admin =
      rw (idle, authorized, found, member, granted, h, added-add_assignment h admin)
