-- ===== src/Platform/Onboarding.antt =====
-- `onboard` and `bootstrap_initial` of platform/services.py against the tables that they leave.
use editingtab_platform_core.Shared.{
  ℕ, true, List, [], ◌∷◌, ◌++◌, Memᴰ, Option, some, is_some, is_none→≡, String, Text, ◌≡◌, refl, ap,
  first, first-Memᴰ, Memᴰ-first, arith,
}
use mathlib.Core.List.Memᴰ
use editingtab_platform_core.Outcome.{Outcome, ok, err, or_raise-ok}
use editingtab_platform_core.Identity.Models.{User}
use editingtab_platform_core.Platform.Models.{PlatformAdminGrant, ModuleEntitlement}
use editingtab_platform_core.Platform.Services.Modules.{platform_audit, CompanyInfo}
use editingtab_platform_core.Platform.Services.Companies.{
  eligible_owner, insert_entitlement, insert_entitlements, onboard_body, rename_conflict,
  bootstrap_initial_body,
}
use editingtab_platform_core.Platform.Services.{onboard, bootstrap_initial}
use editingtab_platform_core.Authorization.Services.Transaction.{transaction-Ensures}
use editingtab_platform_core.Authorization.Services.Reads.{organization_info}
use editingtab_platform_core.Authorization.Access.Effective.{HasAdministrator}
use editingtab_platform_core.Authorization.Access.Administrator.{HasAdministrator-map}
use editingtab_platform_core.Authorization.Access.Escalation.{rebase}
use editingtab_platform_core.Authorization.Access.Founding.{
  IsActiveUser, create_owned_organization-HasAdministrator,
}
use editingtab_platform_core.Storage.Tables.{Database, Session, Env}
use editingtab_platform_core.Storage.Ensures.{
  Ensures, Ensures-ok, Ensures-reads, Ensures-gets, Ensures-step, Ensures-bind, Ensures-family,
  Ensures-pure, Ensures-require, Ensures-modify, Ensures-modify_last, Ensures-weaken,
}

insert_entitlements-Ensures :
    (organization_id : ℕ) (modules : List String) (db : Database)
    → Ensures
        (λ _ db'.
          (es : List ModuleEntitlement) × Unit {0} × (db' ≡ record db { module_entitlements = es }))
        (insert_entitlements organization_id modules db)
unfolding insert_entitlements insert_entitlement
insert_entitlements-Ensures organization_id [] db =
    Ensures-pure _ _ _ (db.module_entitlements, tt, refl)
insert_entitlements-Ensures organization_id (code ∷ rest) db =
    Ensures-step _ (λ _. Unit) _ _ _ _ (one code)
      λ _ _.
        Ensures-weaken _ _ _ (λ _ db' (es, u, e). (es, u, e))
          (insert_entitlements-Ensures organization_id rest _)
  where
    one :
        (code : String)
        → Ensures
            (λ _ db'.
              Unit {0}
              × (db' ≡ record db {
                module_entitlements =
                    db.module_entitlements
                    ++ (record {
                      organization_id = organization_id;
                      module_code = code;
                      enabled = true;
                    })
                      ∷ [];
              }))
            (insert_entitlement
              (record { organization_id = organization_id; module_code = code; enabled = true })
              db)
    one code = Ensures-gets _ _ _ _ (
        Ensures-require _ _ _ _ _ λ _.
          Ensures-require _ _ _ _ _
            λ _. Ensures-require _ _ _ _ _ λ _. Ensures-modify_last _ _ _ (tt, refl))

-- The owner that `onboard` finds is current and active.
eligible_owner-IsActiveUser :
    (db : Database) (normalized : Text) {u : User}
    → eligible_owner db normalized ≡ some u
    → IsActiveUser db u.id
unfolding eligible_owner
eligible_owner-IsActiveUser db normalized {u} h =
    let (m, t) = first-Memᴰ _ db.users h in
    record {
      user = u;
      row = m;
      key = refl;
      current = is_none→≡ _ (ground (arith, t));
      active = ground (arith, t);
    }

onboard_body-HasAdministrator :
    (env : Env) (actor_id : ℕ) (name slug owner_email : Text) (modules : List String)
    (db : Database)
    → Ensures
        (λ info db'. HasAdministrator db' info.organization.id)
        (onboard_body env actor_id name slug owner_email modules db)
unfolding onboard_body platform_audit organization_info
onboard_body-HasAdministrator env actor_id name slug owner_email modules db =
    Ensures-reads _ _ _ _ λ _ _. Ensures-reads _ _ _ _ λ _ _. Ensures-reads _ _ _ _ λ _ _.
      Ensures-reads _ _ _ _ λ emails _. Ensures-reads _ _ _ _ λ _ _. Ensures-gets _ _ _ _ (
        Ensures-require _ _ _ _ _ λ _. Ensures-reads _ _ _ _ λ owner h.
          Ensures-bind _ (λ org s. HasAdministrator s org.id) _ _ _
            (create_owned_organization-HasAdministrator env db owner.id
              (eligible_owner-IsActiveUser db emails.1 (or_raise-ok _ _ h)) _ _ _)
            λ org s admin.
              Ensures-family _ (λ _. Unit {0}) (λ es. record s { module_entitlements = es }) _ _ _
                (insert_entitlements-Ensures _ _ _)
                λ _ es _. Ensures-modify _ _ _ _ (
                  Ensures-pure _ _ _ (
                    HasAdministrator-map
                      (λ p u c.
                        rebase c c.p_row c.role c.role_row refl refl c.role_current c.assignment_row
                          c.membership c.membership_row refl refl refl c.membership_current
                          c.user_row c.organization_row)
                      admin)))

rename_conflict-Ensures :
    {A : Type 0} (Q : A → Session → Type 0) (r : Outcome A × Session)
    → Ensures Q r
    → Ensures Q (rename_conflict r)
unfolding rename_conflict Ensures
rename_conflict-Ensures Q (ok a, s) h = h
rename_conflict-Ensures Q (err e, s) h = tt

-- When `onboard` returns, the organization that it returns has an administrator in the committed
-- tables.
pub onboard-HasAdministrator :
    (env : Env) (actor_id : ℕ) (name slug owner_email : Text) (modules : List String) (s : Session)
    {info : CompanyInfo}
    → (onboard env actor_id name slug owner_email modules s).0 ≡ ok info
    → HasAdministrator
        (onboard env actor_id name slug owner_email modules s).1.database
        info.organization.id
unfolding onboard
onboard-HasAdministrator env actor_id name slug owner_email modules s h =
    Ensures-ok (λ info s'. HasAdministrator s'.database info.organization.id) _
      (rename_conflict-Ensures _ _ (
        transaction-Ensures (onboard_body env actor_id name slug owner_email modules)
          (λ info db'. HasAdministrator db' info.organization.id) s
          (onboard_body-HasAdministrator env actor_id name slug owner_email modules s.database)))
      h

-- Some grant was made.
abbrev Granted : Database → Type 0
Granted db = is_some (first (λ (g : PlatformAdminGrant). true) db.platform_admin_grants) ≡ true

bootstrap_initial_body-Granted :
    (env : Env) (normalized : Text) (db : Database)
    → Ensures (λ _ db'. Granted db') (bootstrap_initial_body env normalized db)
unfolding bootstrap_initial_body platform_audit
bootstrap_initial_body-Granted env normalized db = Ensures-reads _ _ _ _ λ _ _.
    Ensures-gets _ _ _ _ (
      Ensures-require _ _ _ _ _ λ _. Ensures-reads _ _ _ _ λ user _. Ensures-modify _ _ _ _ (
        Ensures-modify _ _ _ _
          (Ensures-modify _ _ _ _ (Ensures-pure _ _ _ (granted db.platform_admin_grants _)))))
  where
    granted :
        (gs : List PlatformAdminGrant) (g : PlatformAdminGrant)
        → is_some (first (λ (g : PlatformAdminGrant). true) (gs ++ g ∷ [])) ≡ true
    granted gs g =
        let (y, e) =
          Memᴰ-first (λ (g : PlatformAdminGrant). true) (gs ++ g ∷ [])
            (Memᴰ.append_right gs (Memᴰ.head refl)) refl in
        ap (λ (o : Option PlatformAdminGrant). is_some o) e

bootstrap_initial_body-closed :
    (env : Env) (normalized : Text) (db : Database)
    → Granted db
    → Ensures (λ _ _. ⊥) (bootstrap_initial_body env normalized db)
unfolding bootstrap_initial_body
bootstrap_initial_body-closed env normalized db g =
    Ensures-reads _ _ _ _
      λ state _. Ensures-gets _ _ _ _ (Ensures-require _ _ _ _ _ λ t. absurd (ground (arith, t, g)))

-- After `bootstrap_initial` has returned, `bootstrap_initial` on the session that it left does
-- not return a grant, whatever the address and the environment.
pub bootstrap_initial_once :
    (env env' : Env) (email email' : Text) (s : Session) {id : ℕ}
    → (bootstrap_initial env email s).0 ≡ ok id
    → (id' : ℕ) → ¬ ((bootstrap_initial env' email' (bootstrap_initial env email s).1).0 ≡ ok id')
unfolding bootstrap_initial
bootstrap_initial_once env env' email email' s h id' h' =
    Ensures-ok (λ _ _. ⊥) _
      (Ensures-reads _ _ _ _ λ emails _.
        transaction-Ensures (bootstrap_initial_body env' emails.1) (λ _ _. ⊥)
          (bootstrap_initial env email s).1
          (bootstrap_initial_body-closed env' emails.1 (bootstrap_initial env email s).1.database (
            Ensures-ok (λ _ s'. Granted s'.database) (bootstrap_initial env email s)
              (Ensures-reads _ _ _ _ λ emails _.
                transaction-Ensures (bootstrap_initial_body env emails.1) (λ _ db'. Granted db') s
                  (bootstrap_initial_body-Granted env emails.1 s.database))
              h)))
      h'
