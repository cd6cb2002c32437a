-- ===== src/Auth/Accepting/Invited.antt =====
-- `accept_invitation` of auth/services.py against the authority of the inviter.
use editingtab_platform_core.Shared.{
  ℕ, List, Option, none, some, Text, text_eq, ◌&&◌, ltb, Bool-cases, ◌≡◌, refl, sym, ◌∙◌, subst,
  inl, inr, arith,
}
use editingtab_platform_core.Errors.{authentication_error, authentication_unavailable}
use editingtab_platform_core.Outcome.{Outcome, ok, err, or_raise-ok}
use editingtab_platform_core.Identity.Models.{Organization}
use editingtab_platform_core.Authorization.Models.{Role}
use editingtab_platform_core.Authorization.Policy.{member_manage}
use editingtab_platform_core.Authorization.Guards.{authorize, initial_roles}
use editingtab_platform_core.Authorization.Access.Escalation.{
  NoNewChain, NoEscalation, NoNewChain-NoEscalation, rebase,
}
use editingtab_platform_core.Authorization.Access.Join.{
  AssignedMembers, AllRoles, Grows, initial_roles-AllRoles,
}
use editingtab_platform_core.Authorization.Access.Join.Members.{activate_member-Ensures}
use editingtab_platform_core.Auth.Models.{OrganizationInvitation, SecurityAudit}
use editingtab_platform_core.Auth.Security.{Hashing, token_digest}
use editingtab_platform_core.Auth.Repository.Records.{
  security_audit, invitation_by_digest, invitation_roles,
}
use editingtab_platform_core.Auth.Services.Acceptance.{
  check_invitation, unavailable_if_denied, invited_roles, accept_invitation_body, accept_invitation,
}
use editingtab_platform_core.Auth.Services.Invitations.{is_pending}
use editingtab_platform_core.Auth.Services.Transaction.{transaction, translate}
use editingtab_platform_core.Auth.Accepting.{
  MembersHaveUsers, Added, added, accepting_user-Ensures, added-AllRoles, added-NoNewChain,
}
use editingtab_platform_core.Storage.Tables.{Database, Session, Env}
use editingtab_platform_core.Storage.Exec.{Exec, reads, continue, ◌>>=◌}
use editingtab_platform_core.Storage.Ensures.{
  Ensures, Ensures-reads, Ensures-gets, Ensures-bind, Ensures-family, Ensures-require,
  Ensures-modify, Ensures-pure, transact-committed,
}

check_invitation-ok :
    (now : ℕ) (normalized : Text) (o : Option OrganizationInvitation) {i : OrganizationInvitation}
    → check_invitation now normalized o ≡ ok i
    → o ≡ some i
unfolding check_invitation
check_invitation-ok now normalized none e = cc
check_invitation-ok now normalized (some x) {i} e =
    elim (Bool-cases
      (text_eq x.normalized_email normalized && (is_pending x && ltb now x.expires_at))) [
        | inl t ↦ same (rw t at e)
        | inr t ↦ refused (rw t at e)
      ]
  where
    same : ok x ≡ ok i → some x ≡ some i
    same k = ground arith

    refused : {C : Type 0} → err authentication_error ≡ ok i → C
    refused k = cc

unavailable_if_denied-ok :
    {A : Type 0} (m : Outcome A) {a : A} → unavailable_if_denied m ≡ ok a → m ≡ ok a
unfolding unavailable_if_denied
unavailable_if_denied-ok (ok a) e = e
unavailable_if_denied-ok (err x) e = cc

module _ (db : Database) (i : OrganizationInvitation) where
  -- The roles of an invitation may be given by its inviter.
  invited_roles-AllRoles :
      {roles : List Role}
      → invited_roles db i ≡ ok roles
      → AllRoles db i.organization_id i.inviter_id roles
  unfolding invited_roles
  invited_roles-AllRoles {roles} e =
      go (unavailable_if_denied (authorize db i.organization_id i.inviter_id member_manage)) e
    where
      go :
          (m : Outcome Organization)
          → (elim m [
            | err x ↦ err x
            | ok _ ↦
                unavailable_if_denied
                  (initial_roles db i.organization_id i.inviter_id (invitation_roles db i.id))
          ])
            ≡ ok roles
          → AllRoles db i.organization_id i.inviter_id roles
      go (err x) k = cc
      go (ok o) k =
          initial_roles-AllRoles db i.organization_id i.inviter_id (invitation_roles db i.id)
            (unavailable_if_denied-ok _ k)

  -- The invitation's row and the audit are in no chain.
  marked-NoNewChain :
      (db' : Database) (invitations : List OrganizationInvitation) (audits : List SecurityAudit)
      → NoNewChain db db' i.organization_id i.inviter_id
      → NoNewChain db
          (record db' { organization_invitations = invitations; security_audit = audits })
          i.organization_id
          i.inviter_id
  marked-NoNewChain db' invitations audits f p u c = f p u (
      rebase c c.p_row c.role c.role_row refl refl c.role_current c.assignment_row c.membership
        c.membership_row refl refl refl c.membership_current c.user_row c.organization_row)

same-NoNewChain :
    (db db' : Database) (i j : OrganizationInvitation)
    → some i ≡ some j
    → NoNewChain db db' i.organization_id i.inviter_id
    → NoNewChain db db' j.organization_id j.inviter_id
same-NoNewChain db db' i j e f =
    subst (λ x. NoNewChain db db' x.organization_id x.inviter_id) (the_same e) f
  where
    the_same : some i ≡ some j → i ≡ j
    the_same k = ground arith

-- The invitation of the digest gives nobody more than its inviter may give.
abbrev Within : Text → Database → Database → Type 0
Within digest db db' =
    (i : OrganizationInvitation)
    → invitation_by_digest db digest ≡ some i
    → NoNewChain db db' i.organization_id i.inviter_id

module _ (h : Hashing) (env : Env) (digest normalized : Text) (display_name password : Option Text)
    (db : Database) (assigned : AssignedMembers db) (full : MembersHaveUsers db) where
  accept_body-Within :
      Ensures
        (λ _ db'. Within digest db db')
        (accept_invitation_body h env digest normalized display_name password db)
  unfolding accept_invitation_body security_audit
  accept_body-Within = Ensures-reads _ _ _ _ λ inv e. Ensures-reads _ _ _ _ λ roles r.
      Ensures-gets _ _ _ _ (
        Ensures-family _ (Added db) (added db) _ _ _
          (accepting_user-Ensures db h env normalized display_name password _)
          λ account i p. Ensures-gets _ _ _ _ (
            Ensures-require _ _ _ _ _ λ _.
              Ensures-bind _ (λ _ s. Grows (added db i) inv.organization_id inv.inviter_id s) _ _ _
                (activate_member-Ensures (added db i) inv.organization_id inv.inviter_id account.1 _
                  account.0 roles (λ _. assigned)
                  (added-AllRoles db i p full inv.organization_id inv.inviter_id roles
                    (invited_roles-AllRoles db inv r)))
                λ result s g. Ensures-modify _ _ _ _ (
                  Ensures-modify _ _ _ _ (
                    Ensures-pure _ _ _ λ i' found.
                      same-NoNewChain db _ inv i'
                        (sym (check_invitation-ok env.clock_timestamp normalized _ e) ∙ found)
                        (marked-NoNewChain db inv s _ _
                          (added-NoNewChain db i p full inv.organization_id inv.inviter_id s g))))))

-- What is committed after a check and a transaction.
committed-reads :
    {A B : Type 0} (Q : Database → Type 0) (m : Session → Outcome A) (f : A → Exec Session B)
    (s : Session)
    → Q s.database
    → ((a : A) → m s ≡ ok a → Q (f a s).1.database)
    → Q ((reads m >>= f) s).1.database
unfolding ◌>>=◌
committed-reads {A} Q m f s q k = go (m s) k
  where
    go :
        (r : Outcome A)
        → ((a : A) → r ≡ ok a → Q (f a s).1.database)
        → Q (continue f (r, s)).1.database
    go (ok a) k = k a refl
    go (err e) k = q

-- If every assignment is of a membership, every membership is of a user, and the token's digest
-- is that of an invitation, then after `accept_invitation`, whether it returned or raised, nobody
-- in the organization may use or grant more than before, but for what the inviter could grant.
pub accept_invitation-NoEscalation :
    (h : Hashing) (env : Env) (token email : Text) (display_name password : Option Text)
    (s : Session) (digest : Text) (i : OrganizationInvitation)
    → AssignedMembers s.database
    → MembersHaveUsers s.database
    → token_digest h (some token) ≡ some digest
    → invitation_by_digest s.database digest ≡ some i
    → NoEscalation s.database
        (accept_invitation h env token email display_name password s).1.database
        i.organization_id
        i.inviter_id
unfolding accept_invitation transaction
accept_invitation-NoEscalation h env token email display_name password s digest i assigned full
      valid found =
    NoNewChain-NoEscalation (
      committed-reads (Within digest s.database) _ _ s (λ _ _ _ _ c. inl c)
        (λ address _.
          committed-reads (Within digest s.database) _ _ s (λ _ _ _ _ c. inl c)
            (λ digest' d.
              transact-committed authentication_unavailable translate
                (accept_invitation_body h env digest' address.1 display_name password)
                (Within digest s.database) s (λ _ _ _ _ c. inl c)
                (subst
                  (λ t.
                    Ensures (λ _ db'. Within digest s.database db')
                      (accept_invitation_body h env t address.1 display_name password s.database))
                  (same_text (sym valid ∙ or_raise-ok _ _ d))
                  (accept_body-Within h env digest address.1 display_name password s.database
                    assigned full))))
        i found)
  where
    same_text : {a b : Text} → some a ≡ some b → a ≡ b
    same_text k = ground arith
