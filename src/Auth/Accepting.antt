-- ===== src/Auth/Accepting.antt =====
-- The chains after a user and a credential are added (auth/services.py, `accept_invitation`).
pub mod Invited
use editingtab_platform_core.Shared.{
  ℕ, Bool, true, false, List, [], ◌∷◌, ◌++◌, Memᴰ, Option, none, some, String, Text, any, Memᴰ-any,
  not, ◌&&◌, ◌==◌, ≡→==, ◌≡◌, ◌≢◌, refl, sym, ap, ◌∙◌, subst, ◌⊎◌, inl, inr, arith,
}
use mathlib.Core.List.Memᴰ
use editingtab_platform_core.Identity.Models.{User, Membership}
use editingtab_platform_core.Identity.Repository.{create_user}
use editingtab_platform_core.Authorization.Repository.{role_permission_grants}
use editingtab_platform_core.Authorization.Models.{Role, RolePermission}
use editingtab_platform_core.Authorization.Access.Chain.{Chain}
use editingtab_platform_core.Authorization.Access.Effective.{MayGrant}
use editingtab_platform_core.Authorization.Access.Escalation.{NoNewChain, rebase}
use editingtab_platform_core.Authorization.Access.Join.{Grows, AllRoles}
use editingtab_platform_core.Auth.Models.{PasswordCredential}
use editingtab_platform_core.Auth.Security.{Hashing}
use editingtab_platform_core.Auth.Repository.Records.{get_credential, insert_credential}
use editingtab_platform_core.Auth.Services.Acceptance.{
  create_account, complete_credential, accepting_user,
}
use editingtab_platform_core.Storage.Tables.{Database, Env}
use editingtab_platform_core.Storage.Ensures.{
  Ensures, Ensures-reads, Ensures-gets, Ensures-step, Ensures-family, Ensures-pure, Ensures-require,
  Ensures-modify, Ensures-modify_last, Ensures-rows,
}

-- Every membership is one of a user.
abbrev pub MembersHaveUsers : Database → Type 0
MembersHaveUsers db =
    (m : Membership) → Memᴰ m db.memberships → (u : User) × Memᴰ u db.users × (u.id ≡ m.user_id)

create_user-Ensures :
    (id : ℕ) (email normalized display_name : Text) (db : Database)
    → Ensures
        (λ row db'.
          (not (any (λ (u : User). u.id == id) db.users) ≡ true)
          × (db' ≡ record db {
            users =
                db.users
                ++ (record {
                  id = id;
                  email = email;
                  normalized_email = normalized;
                  display_name = display_name;
                  is_active = true;
                  deleted_at = none;
                })
                  ∷ [];
          }))
        (create_user id email normalized display_name db)
unfolding create_user
create_user-Ensures id email normalized display_name db = Ensures-gets _ _ _ _ (
    Ensures-require _ _ _ _ _ λ fresh.
      Ensures-require _ _ _ _ _ λ _. Ensures-modify _ _ _ _ (Ensures-pure _ _ _ (fresh, refl)))

insert_credential-Ensures :
    (user_id : ℕ) (password_hash : Text) (db : Database)
    → Ensures
        (λ _ db'.
          (cs : List PasswordCredential) × Unit {0}
          × (db' ≡ record db { password_credentials = cs }))
        (insert_credential user_id password_hash db)
unfolding insert_credential
insert_credential-Ensures user_id password_hash db =
    Ensures-gets _ _ _ _ (Ensures-require _ _ _ _ _ λ _. Ensures-modify_last _ _ _ (_, tt, refl))

module _ (db : Database) where
  -- The users from before, and users whose keys are new.
  abbrev pub Added : List User × List PasswordCredential → Type 0
  Added (users, credentials) =
      ((u : User) → Memᴰ u db.users → Memᴰ u users)
      × ((u : User)
          → Memᴰ u users
          → Memᴰ u db.users ⊎ (not (any (λ (v : User). v.id == u.id) db.users) ≡ true))

  abbrev pub added : List User × List PasswordCredential → Database
  added i = record db { users = i.0; password_credentials = i.1 }

  same-Added : (credentials : List PasswordCredential) → Added (db.users, credentials)
  same-Added credentials = (λ u m. m, λ u m. inl m)

  append-Added :
      (row : User) (credentials : List PasswordCredential)
      → not (any (λ (v : User). v.id == row.id) db.users) ≡ true
      → Added (db.users ++ row ∷ [], credentials)
  append-Added row credentials fresh =
      (λ u m. Memᴰ.append_left (row ∷ []) m, λ u m. go u (Memᴰ.append_cases db.users m))
    where
      go :
          (u : User)
          → Memᴰ u db.users ⊎ Memᴰ u (row ∷ [])
          → Memᴰ u db.users ⊎ (not (any (λ (v : User). v.id == u.id) db.users) ≡ true)
      go u (inl m) = inl m
      go u (inr m) = inr (
          subst (λ i. not (any (λ (v : User). v.id == i) db.users) ≡ true)
            (sym (ap (λ (v : User). v.id) (Memᴰ.eq_of_singleton m))) fresh)

  accepting_user-Ensures :
      (h : Hashing) (env : Env) (normalized : Text) (display_name password : Option Text)
      (found : Option User)
      → Ensures
          (λ _ db'. (i : List User × List PasswordCredential) × Added i × (db' ≡ added i))
          (accepting_user h env normalized display_name password found db)
  unfolding accepting_user create_account complete_credential
  accepting_user-Ensures h env normalized display_name password none =
      Ensures-family _ Added added _ _ _
        (Ensures-reads _ _ _ _ λ _ _. Ensures-reads _ _ _ _ λ _ _. Ensures-reads _ _ _ _ λ _ _.
          Ensures-step _ _ _ _ _ _ (create_user-Ensures (env.uuid4 0) normalized normalized _ db)
            λ user fresh. Ensures-reads _ _ _ _ λ _ _.
              Ensures-family _ (λ _. Unit {0}) (λ cs. added (db.users ++ _ ∷ [], cs)) _ _ _
                (insert_credential-Ensures user.id _ _)
                λ _ cs _. Ensures-pure _ _ _ (_, append-Added _ cs fresh, refl))
        λ user i p. Ensures-pure _ _ _ (i, p, refl)
  accepting_user-Ensures h env normalized display_name password (some user) =
      Ensures-require _ _ _ _ _ λ _. Ensures-gets _ _ _ _ (
        Ensures-family _ (λ _. Unit {0}) (λ cs. added (db.users, cs)) _ _ _
          (completed (get_credential db user.id))
          λ _ cs _. Ensures-pure _ _ _ ((db.users, cs), same-Added cs, refl))
    where
      completed :
          (credential : Option PasswordCredential)
          → Ensures
              (λ _ db'.
                (cs : List PasswordCredential) × Unit {0}
                × (db' ≡ record db { password_credentials = cs }))
              (complete_credential h env user password credential db)
      completed (some credential) = Ensures-pure _ _ _ (db.password_credentials, tt, refl)
      completed none =
          Ensures-reads _ _ _ _
            λ _ _. Ensures-reads _ _ _ _ λ _ _. insert_credential-Ensures user.id _ db

  module _ (i : List User × List PasswordCredential) (p : Added i) (full : MembersHaveUsers db)
      (organization_id actor_id : ℕ) where
    -- A new user is in no chain.
    added-Grows : Grows db organization_id actor_id (added i)
    added-Grows = record {
      fresh = λ r u c. inl (old r u c (p.1 u c.user_row));
      kept = λ r u c.
          rebase c c.p_row c.role c.role_row refl refl c.role_current c.assignment_row c.membership
            c.membership_row refl refl refl c.membership_current (p.0 u c.user_row)
            c.organization_row;
      permissions = refl;
    }
      where
        old :
            (r : RolePermission) (u : User) (c : Chain (added i) organization_id r u)
            → Memᴰ u db.users ⊎ (not (any (λ (v : User). v.id == u.id) db.users) ≡ true)
            → Chain db organization_id r u
        old r u c (inl m) =
            rebase c c.p_row c.role c.role_row refl refl c.role_current c.assignment_row
              c.membership c.membership_row refl refl refl c.membership_current m c.organization_row
        old r u c (inr fresh) =
            let (v, m, e) = full c.membership c.membership_row in
            absurd (
              ground (
                arith,
                fresh,
                Memᴰ-any (λ (v : User). v.id == u.id) db.users m (≡→== _ _ (e ∙ sym c.user_id)),
              ))

    -- What the inviter may give before, the inviter may give after.
    added-AllRoles :
        (roles : List Role)
        → AllRoles db organization_id actor_id roles
        → AllRoles (added i) organization_id actor_id roles
    unfolding role_permission_grants
    added-AllRoles roles all r m item k = kept_grant (all r m item k)
      where
        kept_grant :
            {code : String}
            → MayGrant db organization_id actor_id code
            → MayGrant (added i) organization_id actor_id code
        kept_grant g = record {
          use_ = record {
            row = g.use_.row;
            user = g.use_.user;
            chain = added-Grows.kept g.use_.row g.use_.user g.use_.chain;
            row_code = g.use_.row_code;
            key = g.use_.key;
          };
          granted = g.granted;
        }

    -- Chains that are new after the user was added and more was done are within the authority that
    -- the inviter had before.
    added-NoNewChain :
        (db' : Database)
        → Grows (added i) organization_id actor_id db'
        → NoNewChain db db' organization_id actor_id
    added-NoNewChain db' g r u c = go (g.fresh r u c)
      where
        of_grant :
            (h : MayGrant (added i) organization_id actor_id r.code)
            → Chain db organization_id h.use_.row h.use_.user
              ⊎ MayGrant db organization_id actor_id h.use_.row.code
            → MayGrant db organization_id actor_id r.code
        of_grant h (inl k) = record {
          use_ = record {
            row = h.use_.row;
            user = h.use_.user;
            chain = k;
            row_code = h.use_.row_code;
            key = h.use_.key;
          };
          granted = h.granted;
        }
        of_grant h (inr k) = subst (MayGrant db organization_id actor_id) h.use_.row_code k

        go :
            Chain (added i) organization_id r u ⊎ MayGrant (added i) organization_id actor_id r.code
            → Chain db organization_id r u ⊎ MayGrant db organization_id actor_id r.code
        go (inl k) = added-Grows.fresh r u k
        go (inr h) = inr (of_grant h (added-Grows.fresh h.use_.row h.use_.user h.use_.chain))
