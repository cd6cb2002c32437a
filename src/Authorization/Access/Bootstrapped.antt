-- ===== src/Authorization/Access/Bootstrapped.antt =====
-- `bootstrap` of authorization/bootstrap.py against the tables that it leaves.
use editingtab_platform_core.Shared.{
  ℕ, true, some, Text, text_eq, first, first-Memᴰ, is_none, is_none→≡, ◌&&◌, ◌≡◌, refl, arith,
}
use editingtab_platform_core.Config.{Settings, is_local}
use editingtab_platform_core.Outcome.{ok, or_raise-ok}
use editingtab_platform_core.Identity.Models.{User}
use editingtab_platform_core.Auth.Provision.{require_local}
use editingtab_platform_core.Authorization.Bootstrap.{bootstrap_body, bootstrap}
use editingtab_platform_core.Authorization.Services.Transaction.{transaction-Ensures}
use editingtab_platform_core.Authorization.Access.Effective.{HasAdministrator}
use editingtab_platform_core.Authorization.Access.Founding.{
  IsActiveUser, create_owned_organization-HasAdministrator,
}
use editingtab_platform_core.Storage.Tables.{Database, Session, Env}
use editingtab_platform_core.Storage.Ensures.{
  Ensures, Ensures-ok, Ensures-reads, Ensures-gets, Ensures-bind, Ensures-pure, Ensures-require,
  Ensures-weaken,
}

found-IsActiveUser :
    (db : Database) (normalized : Text) {u : User}
    → first
        (λ (u : User).
          text_eq u.normalized_email normalized && (is_none u.deleted_at && u.is_active))
        db.users
      ≡ some u
    → IsActiveUser db u.id
found-IsActiveUser db normalized {u} h =
    let (m, t) = first-Memᴰ _ db.users h in
    record {
      user = u;
      row = m;
      key = refl;
      current = is_none→≡ _ (ground (arith, t));
      active = ground (arith, t);
    }

bootstrap_body-HasAdministrator :
    (env : Env) (normalized slug name : Text) (db : Database)
    → Ensures (λ id db'. HasAdministrator db' id) (bootstrap_body env normalized slug name db)
unfolding bootstrap_body
bootstrap_body-HasAdministrator env normalized slug name db = Ensures-gets _ _ _ _ (
    Ensures-require _ _ _ _ _ λ _. Ensures-reads _ _ _ _ λ user h.
      Ensures-bind _ (λ org s. HasAdministrator s org.id) _ _ _
        (create_owned_organization-HasAdministrator env db user.id
          (found-IsActiveUser db normalized (or_raise-ok _ _ h)) _ _ _)
        λ org s admin. Ensures-pure _ _ _ admin)

-- When `bootstrap` returns, the environment is a local one, and the organization whose key it
-- returns has an administrator in the committed tables.
pub bootstrap-HasAdministrator :
    (settings : Settings) (env : Env) (email slug name : Text) (s : Session) {id : ℕ}
    → (bootstrap settings env email slug name s).0 ≡ ok id
    → (is_local settings ≡ true)
      × HasAdministrator (bootstrap settings env email slug name s).1.database id
unfolding bootstrap require_local
bootstrap-HasAdministrator settings env email slug name s {id} returned =
    Ensures-ok (λ id s'. (is_local settings ≡ true) × HasAdministrator s'.database id) _
      (Ensures-require _ _ _ _ _ λ local. Ensures-reads _ _ _ _ λ emails _.
        Ensures-reads _ _ _ _ λ slug _. Ensures-reads _ _ _ _ λ name _.
          Ensures-weaken (λ id s'. HasAdministrator s'.database id) _ _ (λ id s' p. (local, p))
            (transaction-Ensures _ (λ id db'. HasAdministrator db' id) s
              (bootstrap_body-HasAdministrator env emails.1 slug name s.database)))
      returned
