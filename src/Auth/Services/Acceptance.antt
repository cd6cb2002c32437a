-- ===== src/Auth/Services/Acceptance.antt =====
-- auth/services.py: `accept_invitation`.
use editingtab_platform_core.Shared.{
  ℕ, ◌+◌, Bool, false, not, List, [], ◌∷◌, Option, none, some, Text, text_eq, ◌&&◌, update_where,
  is_none, ◌==◌, ltb, if◌then◌else◌,
}
use editingtab_platform_core.Errors.{authentication_error, is_access_error}
use editingtab_platform_core.Outcome.{Outcome, ok, err, or_raise}
use editingtab_platform_core.Identity.Models.{User, Membership}
use editingtab_platform_core.Identity.Normalization.{normalize_email, clean_name}
use editingtab_platform_core.Identity.Repository.{
  create_user, get_user_by_normalized_email, membership_pair_including_archived,
}
use editingtab_platform_core.Authorization.Models.{Role}
use editingtab_platform_core.Authorization.Policy.{member_manage}
use editingtab_platform_core.Authorization.Guards.{authorize, initial_roles}
use editingtab_platform_core.Authorization.Services.Members.{activate_member}
use editingtab_platform_core.Authorization.Views.{MemberInfo}
use editingtab_platform_core.Auth.Models.{OrganizationInvitation, PasswordCredential, uuid}
use editingtab_platform_core.Auth.Security.{Hashing, hash_password, token_digest}
use editingtab_platform_core.Auth.Repository.Records.{
  security_audit, invitation_by_digest, invitation_roles, get_credential, insert_credential,
}
use editingtab_platform_core.Auth.Services.Invitations.{is_pending}
use editingtab_platform_core.Auth.Services.Login.{or_unauthenticated}
use editingtab_platform_core.Auth.Services.Transaction.{transaction}
use editingtab_platform_core.Storage.Tables.{Database, Session, Env}
use editingtab_platform_core.Storage.Exec.{Exec, pure, reads, gets, modify, require, ◌>>=◌, ◌>>◌}

-- The invitation of a digest, for the address, pending and in its time.
unfoldable pub check_invitation :
    ℕ → Text → Option OrganizationInvitation → Outcome OrganizationInvitation
unfolding is_pending
check_invitation now normalized none = err authentication_error
check_invitation now normalized (some invitation) =
    if text_eq invitation.normalized_email normalized
      && (is_pending invitation && ltb now invitation.expires_at)
    then ok invitation
    else err authentication_error

-- `except AccessError: raise AuthenticationError`
unfoldable pub unavailable_if_denied : {A : Type 0} → Outcome A → Outcome A
unavailable_if_denied (ok a) = ok a
unavailable_if_denied (err e) = err (if is_access_error e then authentication_error else e)

-- The roles of the invitation, if the inviter may still give them.
unfoldable pub invited_roles : Database → OrganizationInvitation → Outcome (List Role)
unfolding unavailable_if_denied
invited_roles db invitation =
    elim (unavailable_if_denied
      (authorize db invitation.organization_id invitation.inviter_id member_manage)) [
        | err e ↦ err e
        | ok _ ↦ unavailable_if_denied (
            initial_roles db invitation.organization_id invitation.inviter_id
              (invitation_roles db invitation.id))
      ]

-- The environment after one key was drawn.
abbrev pub next_env : Env → Env
next_env env = record env { uuid4 = λ n. env.uuid4 (n + 1) }

-- `if value is None: raise AuthenticationError`
abbrev pub required {ℓ} : {A : Type ℓ} → Option A → Outcome A
required o = or_raise o authentication_error

module _ (h : Hashing) where
  -- A new account: the user, then its credential.
  unfoldable pub create_account : Env → Text → Option Text → Option Text → Exec Database User
  create_account env normalized display_name password = do
    given_name ← reads (λ _. required display_name)
    given_password ← reads (λ _. required password)
    cleaned_name ← reads (λ _. or_unauthenticated (clean_name given_name))
    user ← create_user (env.uuid4 0) normalized normalized cleaned_name
    encoded ← reads (λ _. hash_password h env.salt given_password)
    insert_credential user.id encoded
    pure user

  -- The credential of a user that has none yet.
  unfoldable pub complete_credential :
      Env → User → Option Text → Option PasswordCredential → Exec Database (Unit {0})
  complete_credential env user password (some credential) = pure tt
  complete_credential env user password none = do
    given_password ← reads (λ _. required password)
    encoded ← reads (λ _. hash_password h env.salt given_password)
    insert_credential user.id encoded

  -- The user who accepts, and what is left of the environment.
  unfoldable pub accepting_user :
      Env → Text → Option Text → Option Text → Option User → Exec Database (User × Env)
  unfolding create_account complete_credential
  accepting_user env normalized display_name password none = do
    user ← create_account env normalized display_name password
    pure (user, next_env env)
  accepting_user env normalized display_name password (some user) = do
    require user.is_active authentication_error
    credential ← gets (λ db. get_credential db user.id)
    complete_credential env user password credential
    pure (user, env)

  -- `membership is not None and membership.deleted_at is None`
  unfoldable pub is_current : Option Membership → Bool
  is_current none = false
  is_current (some membership) = is_none membership.deleted_at

  unfoldable pub accept_invitation_body :
      Env → Text → Text → Option Text → Option Text → Exec Database MemberInfo
  unfolding check_invitation invited_roles accepting_user is_current
  accept_invitation_body env digest normalized display_name password = do
    invitation ←
        reads
          (λ db. check_invitation env.clock_timestamp normalized (invitation_by_digest db digest))
    roles ← reads (λ db. invited_roles db invitation)
    found ← gets (λ db. get_user_by_normalized_email db normalized)
    account ← accepting_user env normalized display_name password found
    membership ←
        gets (λ db. membership_pair_including_archived db invitation.organization_id account.0.id)
    require (not (is_current membership)) authentication_error
    result ←
        activate_member account.1 invitation.organization_id invitation.inviter_id membership
          account.0 roles
    modify (λ db. record db {
      organization_invitations =
          update_where (λ (i : OrganizationInvitation). i.id == invitation.id)
            (λ i. record i { accepted_at = some env.clock_timestamp }) db.organization_invitations;
    })
    security_audit "invitation.accepted" invitation.id (some account.0.id)
        (some invitation.organization_id) (("membership_id", uuid result.membership_id) ∷ [])
    pure result

  unfoldable pub accept_invitation :
      Env → Text → Text → Option Text → Option Text → Exec Session MemberInfo
  accept_invitation env token email display_name password = do
    address ← reads (λ _. or_unauthenticated (normalize_email email))
    digest ← reads (λ _. required (token_digest h (some token)))
    transaction (accept_invitation_body env digest address.1 display_name password)
