-- ===== src/Authorization/Access/Escalation.antt =====
-- What it means that a write gives nobody more than its actor may grant, and what carries chains
-- from the tables after a write back to those before it.
pub mod Granting
pub mod Roles
pub mod Assignments
pub mod Sessions
use editingtab_platform_core.Shared.{ℕ, ◌≡◌, ◌∙◌, sym, subst, none, Memᴰ, ◌⊎◌, inl, inr, String}
use editingtab_platform_core.Identity.Models.{User, Membership}
use editingtab_platform_core.Authorization.Models.{Role, RolePermission}
use editingtab_platform_core.Authorization.Access.Chain.{Chain}
use editingtab_platform_core.Authorization.Access.Effective.{MayUse, MayGrant}
use editingtab_platform_core.Storage.Tables.{Database}

-- Each chain after the write was there before it, or ends in a code that the actor may grant.
abbrev pub NoNewChain : Database → Database → ℕ → ℕ → Type 0
NoNewChain db db' organization_id actor_id =
    (p : RolePermission) (u : User)
    → Chain db' organization_id p u
    → Chain db organization_id p u ⊎ MayGrant db organization_id actor_id p.code

-- Nobody in the organization may use or grant more than before, but for codes that the actor
-- could grant.
pub record NoEscalation (db db' : Database) (organization_id actor_id : ℕ) : Type 0 where
  pub uses :
      (user_id : ℕ) (code : String)
      → MayUse db' organization_id user_id code
      → MayUse db organization_id user_id code ⊎ MayGrant db organization_id actor_id code
  pub grants :
      (user_id : ℕ) (code : String)
      → MayGrant db' organization_id user_id code
      → MayGrant db organization_id user_id code ⊎ MayGrant db organization_id actor_id code

module _ {db db' : Database} {organization_id actor_id : ℕ} where
  uses_case :
      {user_id : ℕ} {code : String} (h : MayUse db' organization_id user_id code)
      → Chain db organization_id h.row h.user ⊎ MayGrant db organization_id actor_id h.row.code
      → MayUse db organization_id user_id code ⊎ MayGrant db organization_id actor_id code
  uses_case h (inl c) =
      inl (record { row = h.row; user = h.user; chain = c; row_code = h.row_code; key = h.key })
  uses_case h (inr g) = inr (subst (MayGrant db organization_id actor_id) h.row_code g)

  grants_case :
      {user_id : ℕ} {code : String} (h : MayGrant db' organization_id user_id code)
      → Chain db organization_id h.use_.row h.use_.user
        ⊎ MayGrant db organization_id actor_id h.use_.row.code
      → MayGrant db organization_id user_id code ⊎ MayGrant db organization_id actor_id code
  grants_case h (inl c) = inl (record {
    use_ = record {
      row = h.use_.row;
      user = h.use_.user;
      chain = c;
      row_code = h.use_.row_code;
      key = h.use_.key;
    };
    granted = h.granted;
  })
  grants_case h (inr g) = inr (subst (MayGrant db organization_id actor_id) h.use_.row_code g)

  pub NoNewChain-NoEscalation :
      NoNewChain db db' organization_id actor_id → NoEscalation db db' organization_id actor_id
  NoNewChain-NoEscalation f = record {
    uses = λ _ _ h. uses_case h (f h.row h.user h.chain);
    grants = λ _ _ h. grants_case h (f h.use_.row h.use_.user h.use_.chain);
  }

-- A chain through the same rows of other tables, but for a role and a membership that agree with
-- its own in all that a chain reads.
module _ {db db' : Database} {organization_id : ℕ} {p : RolePermission} {u : User}
    (c : Chain db' organization_id p u) where
  pub rebase :
      Memᴰ p db.role_permissions
      → (r : Role) → Memᴰ r db.roles
      → r.id ≡ c.role.id
      → r.organization_id ≡ c.role.organization_id
      → r.deleted_at ≡ none
      → Memᴰ c.assignment db.membership_roles
      → (m : Membership) → Memᴰ m db.memberships
      → m.id ≡ c.membership.id
      → m.organization_id ≡ c.membership.organization_id
      → m.user_id ≡ c.membership.user_id
      → m.deleted_at ≡ none
      → Memᴰ u db.users
      → Memᴰ c.organization db.organizations
      → Chain db organization_id p u
  rebase p_row r r_row rid rorg rcur a_row m m_row mid morg muser mcur u_row o_row = record {
    role = r;
    assignment = c.assignment;
    membership = m;
    organization = c.organization;
    p_row = p_row;
    role_row = r_row;
    assignment_row = a_row;
    membership_row = m_row;
    user_row = u_row;
    organization_row = o_row;
    p_organization = c.p_organization;
    role_id = rid ∙ c.role_id;
    role_organization = rorg ∙ c.role_organization;
    role_current = rcur;
    assignment_role = c.assignment_role ∙ sym rid;
    assignment_organization = c.assignment_organization ∙ sym rorg;
    membership_id = mid ∙ c.membership_id;
    membership_organization = morg ∙ c.membership_organization;
    membership_current = mcur;
    user_id = c.user_id ∙ sym muser;
    user_current = c.user_current;
    user_active = c.user_active;
    organization_key = c.organization_key ∙ sym morg;
    organization_current = c.organization_current;
  }
