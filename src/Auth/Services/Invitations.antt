-- ===== src/Auth/Services/Invitations.antt =====
-- auth/services.py: the operations on the invitations of an organization.
use editingtab_platform_core.Shared.{
  ℕ, ◌+◌, Bool, false, not, List, [], ◌∷◌, map, Option, none, some, Text, text_eq, ◌&&◌, ◌||◌, any,
  first, where_, order_by, update_where, is_none, ◌==◌, ltb, leb,
}
use editingtab_platform_core.Errors.{conflict, inaccessible}
use editingtab_platform_core.Outcome.{or_raise}
use editingtab_platform_core.Identity.Models.{User, Membership}
use editingtab_platform_core.Identity.Normalization.{normalize_email}
use editingtab_platform_core.Authorization.Models.{Role}
use editingtab_platform_core.Authorization.Policy.{member_manage}
use editingtab_platform_core.Authorization.Guards.{authorize, initial_roles, check_page}
use editingtab_platform_core.Authorization.Services.Reads.{page}
use editingtab_platform_core.Config.{Settings}
use editingtab_platform_core.Auth.Models.{OrganizationInvitation, text, uuids}
use editingtab_platform_core.Auth.Security.{Hashing}
use editingtab_platform_core.Auth.Repository.Records.{
  security_audit, invitation_roles, insert_invitation, insert_invitation_roles,
}
use editingtab_platform_core.Auth.Services.Login.{new_digest}
use editingtab_platform_core.Auth.Services.Transaction.{transaction}
use editingtab_platform_core.Storage.Tables.{Database, Session, Env}
use editingtab_platform_core.Storage.Exec.{
  Exec, pure, reads, gets, modify, require, branch, ◌>>=◌, ◌>>◌,
}

pub record NewInvitation : Type 0 where
  pub id : ℕ
  pub email : Text
  pub created_at : ℕ
  pub expires_at : ℕ
  pub role_ids : List ℕ
  pub token : Text

-- Whether an active, current user with the address is a member of the organization already.
unfoldable pub is_member_already : Database → ℕ → Text → Bool
is_member_already db organization_id normalized =
    elim (first
      (λ (u : User). text_eq u.normalized_email normalized && (is_none u.deleted_at && u.is_active))
      db.users) [
        | none ↦ false
        | some user ↦
            any
              (λ (m : Membership).
                m.organization_id == organization_id
                && (m.user_id == user.id && is_none m.deleted_at))
              db.memberships
      ]

-- An invitation that is neither accepted nor revoked.
unfoldable pub is_pending : OrganizationInvitation → Bool
is_pending i = is_none i.accepted_at && is_none i.revoked_at

-- The pending invitations of the address.
unfoldable pub is_replaced : ℕ → Text → OrganizationInvitation → Bool
unfolding is_pending
is_replaced organization_id normalized i =
    i.organization_id == organization_id && (text_eq i.normalized_email normalized && is_pending i)

-- `update(OrganizationInvitation).where(p).values(revoked_at=…)`
unfoldable pub revoke_invitations : (OrganizationInvitation → Bool) → ℕ → Exec Database (Unit {0})
revoke_invitations p clock = modify (λ db. record db {
  organization_invitations =
      update_where p (λ i. record i { revoked_at = some clock }) db.organization_invitations;
})

-- The loop over the replaced invitations.
unfoldable pub audit_replaced : ℕ → ℕ → List OrganizationInvitation → Exec Database (Unit {0})
audit_replaced organization_id actor_id [] = pure tt
audit_replaced organization_id actor_id (old ∷ rest) = do
  security_audit "invitation.revoked" old.id (some actor_id) (some organization_id)
      (("reason", text "reissued") ∷ [])
  audit_replaced organization_id actor_id rest

abbrev role_key : Role → ℕ
role_key role = role.id

module _ (h : Hashing) where
  unfoldable pub create_invitation_body :
      Settings → Env → ℕ → ℕ → Text → List ℕ → Exec Database NewInvitation
  unfolding is_member_already is_replaced revoke_invitations audit_replaced
  create_invitation_body settings env organization_id actor_id normalized role_ids = do
    reads (λ db. authorize db organization_id actor_id member_manage)
    roles ← reads (λ db. initial_roles db organization_id actor_id role_ids)
    member ← gets (λ db. is_member_already db organization_id normalized)
    require (not member) conflict
    replaced ←
        gets (λ db. where_ (is_replaced organization_id normalized) db.organization_invitations)
    revoke_invitations (is_replaced organization_id normalized) env.clock_timestamp
    audit_replaced organization_id actor_id replaced
    digest ← reads (λ _. new_digest h env.token_urlsafe)
    insert_invitation (record {
      id = env.uuid4 0;
      organization_id = organization_id;
      normalized_email = normalized;
      inviter_id = actor_id;
      token_digest = digest;
      created_at = env.clock_timestamp;
      expires_at = env.clock_timestamp + settings.auth_invitation_seconds;
      accepted_at = none;
      revoked_at = none;
    })
    insert_invitation_roles organization_id (env.uuid4 0) roles
    security_audit "invitation.created" (env.uuid4 0) (some actor_id) (some organization_id)
        (("role_ids", uuids (map role_key roles)) ∷ [])
    pure (record {
      id = env.uuid4 0;
      email = normalized;
      created_at = env.clock_timestamp;
      expires_at = env.clock_timestamp + settings.auth_invitation_seconds;
      role_ids = map role_key roles;
      token = env.token_urlsafe;
    })

  unfoldable pub create_invitation :
      Settings → Env → ℕ → ℕ → Text → List ℕ → Exec Session NewInvitation
  create_invitation settings env organization_id actor_id email role_ids = do
    address ← reads (λ _. normalize_email email)
    transaction (create_invitation_body settings env organization_id actor_id address.1 role_ids)

pub record InvitationInfo : Type 0 where
  pub id : ℕ
  pub email : Text
  pub created_at : ℕ
  pub expires_at : ℕ
  pub accepted_at : Option ℕ
  pub revoked_at : Option ℕ
  pub role_ids : List ℕ

unfoldable pub invitation_info : Database → OrganizationInvitation → InvitationInfo
invitation_info db row = record {
  id = row.id;
  email = row.normalized_email;
  created_at = row.created_at;
  expires_at = row.expires_at;
  accepted_at = row.accepted_at;
  revoked_at = row.revoked_at;
  role_ids = invitation_roles db row.id;
}

-- The order of `created_at`, latest first, then `id`.
abbrev pub invitation_order : OrganizationInvitation → OrganizationInvitation → Bool
invitation_order i j =
    ltb j.created_at i.created_at || (i.created_at == j.created_at && leb i.id j.id)

unfoldable pub list_invitations_body : ℕ → ℕ → ℕ → ℕ → Exec Database (List InvitationInfo)
unfolding invitation_info
list_invitations_body organization_id actor_id limit offset = do
  reads (λ db. authorize db organization_id actor_id member_manage)
  reads (λ _. check_page limit offset)
  gets (λ db. map (invitation_info db) (
      page limit offset (
        order_by invitation_order (
          where_ (λ (i : OrganizationInvitation). i.organization_id == organization_id)
            db.organization_invitations))))

unfoldable pub list_invitations : ℕ → ℕ → ℕ → ℕ → Exec Session (List InvitationInfo)
list_invitations organization_id actor_id limit offset =
    transaction (list_invitations_body organization_id actor_id limit offset)

unfoldable pub find_invitation : Database → ℕ → ℕ → Option OrganizationInvitation
find_invitation db organization_id invitation_id =
    first
      (λ (i : OrganizationInvitation).
        i.id == invitation_id && i.organization_id == organization_id)
      db.organization_invitations

unfoldable pub revoke_invitation_body : Env → ℕ → ℕ → ℕ → Exec Database (Unit {0})
unfolding find_invitation revoke_invitations is_pending
revoke_invitation_body env organization_id actor_id invitation_id = do
  reads (λ db. authorize db organization_id actor_id member_manage)
  invitation ←
      reads (λ db. or_raise (find_invitation db organization_id invitation_id) inaccessible)
  branch (is_pending invitation)
      (do
        revoke_invitations (λ i. i.id == invitation.id) env.clock_timestamp
        security_audit "invitation.revoked" invitation.id (some actor_id) (some organization_id) [])
      (pure tt)

unfoldable pub revoke_invitation : Env → ℕ → ℕ → ℕ → Exec Session (Unit {0})
revoke_invitation env organization_id actor_id invitation_id =
    transaction (revoke_invitation_body env organization_id actor_id invitation_id)
