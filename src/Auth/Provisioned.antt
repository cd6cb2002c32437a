-- ===== src/Auth/Provisioned.antt =====
-- `provision_user` of auth/provision.py against the tables that it leaves.
use editingtab_platform_core.Shared.{
  ℕ, true, false, List, [], ◌∷◌, ◌++◌, Memᴰ, Option, none, some, Text, any, ◌==◌, is_none→≡,
  first-Memᴰ, ◌≡◌, ◌≢◌, ◌⊎◌, inl, inr, refl, subst, first, text_eq, text_eq_refl, text_eq→≡,
  first-eq-none, sym, ap, arith,
}
use editingtab_platform_core.Config.{Settings, is_local}
use editingtab_platform_core.Errors.{identity_storage_error}
use editingtab_platform_core.Outcome.{Outcome, ok, err}
use editingtab_platform_core.Identity.Models.{User}
use editingtab_platform_core.Identity.Normalization.{normalize_email, clean_name}
use editingtab_platform_core.Identity.Repository
use editingtab_platform_core.Identity.Services.{create_user, create_user_body}
use editingtab_platform_core.Identity.Services
use editingtab_platform_core.Auth.Models.{PasswordCredential}
use editingtab_platform_core.Auth.Security.{Hashing, hash_password}
use editingtab_platform_core.Auth.Repository.Records.{insert_credential}
use editingtab_platform_core.Auth.Services.Transaction.{transaction-Ensures}
use editingtab_platform_core.Auth.Provision.{
  require_local, nested, provisioned_user, provision_user_body, provision_user,
}
use editingtab_platform_core.Storage.Tables.{Database, Session, Env}
use editingtab_platform_core.Storage.Exec.{Exec}
use editingtab_platform_core.Storage.Ensures.{
  Ensures, Ensures-ok, Ensures-reads, Ensures-gets, Ensures-step, Ensures-rows, Ensures-pure,
  Ensures-require, Ensures-modify, Ensures-modify_last, Ensures-transact, Ensures-weaken,
}

-- The row of a new user.
abbrev pub new_user : ℕ → Text → Text → Text → User
new_user id email normalized display_name = record {
  id = id;
  email = email;
  normalized_email = normalized;
  display_name = display_name;
  is_active = true;
  deleted_at = none;
}

-- The user of the key is there with the address, active and current, and the users are the same.
pub record Present (db : Database) (normalized : Text) (user_id : ℕ) (users : List User)
    : Type 0 where
  pub user : User
  pub row : Memᴰ user db.users
  pub key : user.id ≡ user_id
  pub address : user.normalized_email ≡ normalized
  pub current : user.deleted_at ≡ none
  pub active : user.is_active ≡ true
  pub same : users ≡ db.users

-- No user has the address, and the users are those from before with one more, active and current,
-- of the address and the cleaned name.
pub record New (db : Database) (email normalized display_name : Text) (user_id : ℕ)
    (users : List User) : Type 0 where
  pub absent : (u : User) → Memᴰ u db.users → u.normalized_email ≢ normalized
  pub emails : Text × Text
  pub normalizes : normalize_email email ≡ ok emails
  pub name : Text
  pub cleans : clean_name display_name ≡ ok name
  pub extended : users ≡ db.users ++ new_user user_id emails.0 emails.1 name ∷ []

-- The users after the call.
abbrev pub Users : Database → Text → Text → Text → ℕ → List User → Type 0
Users db email normalized display_name user_id users =
    Present db normalized user_id users ⊎ New db email normalized display_name user_id users

-- The tables before and after: the user is present or new, had no credential, and has one now.
pub record Provisioned (db : Database) (email normalized display_name : Text) (user_id : ℕ)
    (encoded : Text) (db' : Database) : Type 0 where
  pub users : List User
  pub user_rows : Users db email normalized display_name user_id users
  pub fresh : any (λ (c : PasswordCredential). c.user_id == user_id) db.password_credentials ≡ false
  pub tables : db' ≡ record db {
    users = users;
    password_credentials =
        db.password_credentials ++ (record { user_id = user_id; password_hash = encoded }) ∷ [];
  }

nested-Ensures :
    {A : Type 0} (Q : A → Database → Type 0) (call : Exec Session A) (db : Database)
    → Ensures (λ a s. Q a s.database) (call (record { in_transaction = false; database = db }))
    → Ensures Q (nested call db)
unfolding nested Ensures
nested-Ensures {A} Q call db h = go (call (record { in_transaction = false; database = db })) h
  where
    go :
        (r : Outcome A × Session)
        → Ensures (λ a s. Q a s.database) r
        → Ensures Q (r.0, r.1.database)
    go (ok a, s) k = k
    go (err e, s) k = tt

insert_credential-row :
    (user_id : ℕ) (encoded : Text) (db : Database)
    → Ensures
        (λ _ db'.
          (any (λ (c : PasswordCredential). c.user_id == user_id) db.password_credentials ≡ false)
          × (db' ≡ record db {
            password_credentials =
                db.password_credentials
                ++ (record { user_id = user_id; password_hash = encoded }) ∷ [];
          }))
        (insert_credential user_id encoded db)
unfolding insert_credential
insert_credential-row user_id encoded db =
    Ensures-gets _ _ _ _
      (Ensures-require _ _ _ _ _ λ t. Ensures-modify_last _ _ _ (ground (arith, t), refl))

create_user-row :
    (id : ℕ) (email normalized display_name : Text) (db : Database)
    → Ensures
        (λ user db'.
          (user ≡ new_user id email normalized display_name)
          × (db'
              ≡ record db { users = db.users ++ new_user id email normalized display_name ∷ [] }))
        (Repository.create_user id email normalized display_name db)
unfolding Repository.create_user
create_user-row id email normalized display_name db = Ensures-gets _ _ _ _ (
    Ensures-require _ _ _ _ _
      λ _. Ensures-require _ _ _ _ _ λ _. Ensures-modify _ _ _ _ (Ensures-pure _ _ _ (refl, refl)))

create_user-New :
    (env : Env) (email normalized display_name : Text) (db : Database)
    → ((u : User) → Memᴰ u db.users → u.normalized_email ≢ normalized)
    → Ensures
        (λ id db'.
          (us : List User) × New db email normalized display_name id us
          × (db' ≡ record db { users = us }))
        (create_user_body env email display_name db)
unfolding create_user_body
create_user-New env email normalized display_name db absent = Ensures-reads _ _ _ _ λ emails e.
    Ensures-reads _ _ _ _ λ name n.
      Ensures-step _ _ _ _ _ _ (create_user-row (env.uuid4 0) emails.0 emails.1 name db)
        λ user same. Ensures-pure _ _ _ (
          _,
          record {
            absent = absent;
            emails = emails;
            normalizes = e;
            name = name;
            cleans = n;
            extended =
                ap (λ (u : User). db.users ++ new_user u.id emails.0 emails.1 name ∷ []) (sym same);
          },
          refl,
        )

-- The user that a search by the address found, or the address of nobody.
abbrev Found : Database → Text → Option User → Type 0
Found db normalized found =
    first (λ (u : User). text_eq u.normalized_email normalized) db.users ≡ found

absent_address :
    (db : Database) (normalized : Text)
    → Found db normalized none
    → (u : User) → Memᴰ u db.users
    → u.normalized_email ≢ normalized
absent_address db normalized e u m same = absurd (
    ground (
      arith,
      first-eq-none _ db.users e m,
      subst (λ t. text_eq t normalized ≡ true) (sym same) (text_eq_refl normalized),
    ))

provisioned_user-Users :
    (env : Env) (email normalized display_name : Text) (db : Database) (found : Option User)
    → Found db normalized found
    → Ensures
        (λ id db'.
          (us : List User) × Users db email normalized display_name id us
          × (db' ≡ record db { users = us }))
        (provisioned_user env email display_name found db)
unfolding provisioned_user create_user Services.transaction
provisioned_user-Users env email normalized display_name db none e =
    nested-Ensures _ (create_user env email display_name) db (
      Ensures-transact identity_storage_error Services.translate
        (create_user_body env email display_name) _
        (record { in_transaction = false; database = db })
        (Ensures-weaken _ _ _ (λ _ _ (us, n, same). (us, inr n, same))
          (create_user-New env email normalized display_name db (absent_address db normalized e))))
provisioned_user-Users env email normalized display_name db (some user) e =
    Ensures-require _ _ _ _ _ λ t. Ensures-gets _ _ _ _ (
      Ensures-require _ _ _ _ _ λ _.
        let (m, a) = first-Memᴰ _ db.users e in
        Ensures-pure _ _ _ (
          db.users,
          inl (record {
            user = user;
            row = m;
            key = refl;
            address = text_eq→≡ _ _ a;
            current = is_none→≡ _ (ground (arith, t));
            active = ground (arith, t);
            same = refl;
          }),
          refl,
        ))

provision_user_body-Provisioned :
    (env : Env) (email normalized display_name encoded : Text) (db : Database)
    → Ensures
        (λ id db'. Provisioned db email normalized display_name id encoded db')
        (provision_user_body env email normalized display_name encoded db)
unfolding provision_user_body
provision_user_body-Provisioned env email normalized display_name encoded db =
    Ensures-gets _ _ _ _ (
      Ensures-rows _ (Users db email normalized display_name) (λ us. record db { users = us }) _ _ _
        (provisioned_user-Users env email normalized display_name db _ refl)
        λ id us rows. Ensures-step _ _ _ _ _ _ (insert_credential-row id encoded _) λ _ fresh.
          Ensures-pure _ _ _
            (record { users = us; user_rows = rows; fresh = fresh; tables = refl }))

-- What a provisioning that returned shows of its call and of the tables.
pub record ProvisionedBy (h : Hashing) (settings : Settings) (env : Env)
    (email display_name password : Text) (before : Database) (user_id : ℕ) (after : Database)
    : Type 0 where
  pub emails : Text × Text
  pub encoded : Text
  pub local : is_local settings ≡ true
  pub normalizes : normalize_email email ≡ ok emails
  pub hashes : hash_password h env.salt password ≡ ok encoded
  pub provisioned : Provisioned before email emails.1 display_name user_id encoded after

-- When `provision_user` returns a user's key, then the environment is a local one, the address is
-- well formed and the password has a hash. In the committed tables nothing differs from before
-- but for one new credential of the user, with that hash, where there was none, and, where no
-- user had the address, for one new user, active and current, with the key, the address and the
-- cleaned name; where a user had the address, the key is that of an active, current user with the
-- address.
pub provision_user-Provisioned :
    (h : Hashing) (settings : Settings) (env : Env) (email display_name password : Text)
    (s : Session) {id : ℕ}
    → (provision_user h settings env email display_name password s).0 ≡ ok id
    → ProvisionedBy h settings env email display_name password s.database id
        (provision_user h settings env email display_name password s).1.database
unfolding provision_user require_local
provision_user-Provisioned h settings env email display_name password s {id} returned =
    Ensures-ok
      (λ id s'. ProvisionedBy h settings env email display_name password s.database id s'.database)
      _
      (Ensures-require _ _ _ _ _ λ local. Ensures-reads _ _ _ _ λ emails normalizes.
        Ensures-reads _ _ _ _ λ encoded hashes.
          Ensures-weaken
            (λ id s'. Provisioned s.database email emails.1 display_name id encoded s'.database) _ _
            (λ id s' p. record {
              emails = emails;
              encoded = encoded;
              local = local;
              normalizes = normalizes;
              hashes = hashes;
              provisioned = p;
            })
            (transaction-Ensures _
              (λ id db'. Provisioned s.database email emails.1 display_name id encoded db') s
              (provision_user_body-Provisioned env email emails.1 display_name encoded s.database)))
      returned
