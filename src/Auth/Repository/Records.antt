-- ===== src/Auth/Repository/Records.antt =====
-- auth/repository.py: audit rows, invitations, resets, and the relations of a user.
use editingtab_platform_core.Shared.{
  ℕ, List, [], ◌∷◌, ◌++◌, map, Option, String, Text, text_eq, str_le, ◌&&◌, ◌||◌, not, any, first,
  where_, join, order_by, update_where, if◌then◌else◌, contains, is_none, ◌==◌, leb,
}
use editingtab_platform_core.Errors.{integrity_error, other_constraint}
use editingtab_platform_core.Identity.Models.{Organization, User, Membership}
use editingtab_platform_core.Authorization.Models.{Role}
use editingtab_platform_core.Auth.Models.{
  PasswordCredential, OrganizationInvitation, InvitationRole, PasswordResetToken, AuditValue,
}
use editingtab_platform_core.Authorization.Repository.{text_le}
use editingtab_platform_core.Platform.Models.{ModuleEntitlement}
use editingtab_platform_core.Storage.Tables.{Database}
use editingtab_platform_core.Storage.Exec.{Exec, gets, modify, pure, require, ◌>>=◌, ◌>>◌}

unfoldable pub active_organization_memberships : Database → ℕ → List (Membership × Organization)
active_organization_memberships db user_id =
    order_by
      (λ (a b : Membership × Organization).
        if text_eq a.1.slug b.1.slug then leb a.1.id b.1.id else text_le a.1.slug b.1.slug)
      (join
        (where_ (λ (m : Membership). m.user_id == user_id && is_none m.deleted_at) db.memberships)
        (λ m.
          join
            (where_ (λ (o : Organization). o.id == m.organization_id && is_none o.deleted_at)
              db.organizations)
            (λ o. (m, o) ∷ [])))

unfoldable pub enabled_modules : Database → ℕ → List String → List String
enabled_modules db organization_id supported = order_by str_le (
    map (λ (e : ModuleEntitlement). e.module_code)
      (where_
        (λ (e : ModuleEntitlement).
          e.organization_id == organization_id && (e.enabled && contains supported e.module_code))
        db.module_entitlements))

unfoldable pub security_audit :
    String → ℕ → Option ℕ → Option ℕ → List (String × AuditValue) → Exec Database (Unit {0})
security_audit action target_id actor_id organization_id details = modify (λ db. record db {
  security_audit =
      db.security_audit
      ++ (record {
        organization_id = organization_id;
        actor_id = actor_id;
        action = action;
        target_id = target_id;
        details = details;
      })
        ∷ [];
})

unfoldable pub invitation_by_digest : Database → Text → Option OrganizationInvitation
invitation_by_digest db digest =
    first (λ (i : OrganizationInvitation). text_eq i.token_digest digest)
      db.organization_invitations

unfoldable pub invitation_roles : Database → ℕ → List ℕ
invitation_roles db invitation_id = order_by leb (
    map (λ (r : InvitationRole). r.role_id)
      (where_ (λ (r : InvitationRole). r.invitation_id == invitation_id) db.invitation_roles))

unfoldable pub reset_by_digest : Database → Text → Option PasswordResetToken
reset_by_digest db digest =
    first (λ (r : PasswordResetToken). text_eq r.token_digest digest) db.password_reset_tokens

-- `session.get(PasswordCredential, user_id)`
unfoldable pub get_credential : Database → ℕ → Option PasswordCredential
get_credential db user_id =
    first (λ (c : PasswordCredential). c.user_id == user_id) db.password_credentials

-- The insert of a credential: the user has none yet, and exists.
unfoldable pub insert_credential : ℕ → Text → Exec Database (Unit {0})
insert_credential user_id password_hash = do
  db ← gets (λ db. db)
  require
      (not (any (λ (c : PasswordCredential). c.user_id == user_id) db.password_credentials)
        && any (λ (u : User). u.id == user_id) db.users)
      (integrity_error other_constraint)
  modify (λ db. record db {
    password_credentials =
        db.password_credentials
        ++ (record { user_id = user_id; password_hash = password_hash }) ∷ [];
  })

-- `credential.password_hash = …`
unfoldable pub write_credential : ℕ → Text → Exec Database (Unit {0})
write_credential user_id password_hash = modify (λ db. record db {
  password_credentials =
      update_where (λ (c : PasswordCredential). c.user_id == user_id)
        (λ c. record c { password_hash = password_hash }) db.password_credentials;
})

-- The insert of an invitation: its key and its digest are unique, and the organization and the
-- inviter exist.
unfoldable pub insert_invitation : OrganizationInvitation → Exec Database (Unit {0})
insert_invitation row = do
  db ← gets (λ db. db)
  require
      (not (
          any
            (λ (i : OrganizationInvitation).
              i.id == row.id || text_eq i.token_digest row.token_digest)
            db.organization_invitations)
        && (any (λ (o : Organization). o.id == row.organization_id) db.organizations
            && any (λ (u : User). u.id == row.inviter_id) db.users))
      (integrity_error other_constraint)
  modify (λ db. record db { organization_invitations = db.organization_invitations ++ row ∷ [] })

-- The insert of an invitation's roles: the keys are unique, and the roles are the organization's.
unfoldable pub insert_invitation_roles : ℕ → ℕ → List Role → Exec Database (Unit {0})
insert_invitation_roles organization_id invitation_id [] = pure tt
insert_invitation_roles organization_id invitation_id (role ∷ rest) = do
  db ← gets (λ db. db)
  require
      (not (
          any (λ (r : InvitationRole). r.invitation_id == invitation_id && r.role_id == role.id)
            db.invitation_roles)
        && any (λ (r : Role). r.id == role.id && r.organization_id == organization_id) db.roles)
      (integrity_error other_constraint)
  modify (λ db. record db {
    invitation_roles =
        db.invitation_roles
        ++ (record {
          organization_id = organization_id;
          invitation_id = invitation_id;
          role_id = role.id;
        })
          ∷ [];
  })
  insert_invitation_roles organization_id invitation_id rest
