-- ===== src/Auth/SignIn.antt =====
-- What a new row of `core_login_sessions` authenticates (auth/repository.py).
pub mod Counting
pub mod Login
pub mod RoundTrip
pub mod Failure
use editingtab_platform_core.Shared.{
  ℕ, ◌+◌, ◌<◌, Bool, true, false, List, [], ◌∷◌, ◌++◌, Memᴰ, Option, none, some, Text, text_eq,
  text_eq→≡, text_eq_refl, any, Memᴰ-any, Memᴰ-first, first-Memᴰ, Memᴰ-join_where, join_where, join,
  where_, is_none, is_none→≡, ◌==◌, ==→≡, ≡→==, ◌&&◌, ◌||◌, not, ltb, &&-left, &&-right, &&-intro,
  ◌≡◌, refl, sym, ◌∙◌, ap, subst, inl, inr, Bool-cases, Option-cases, arith,
}
use mathlib.Core.List.Memᴰ
use editingtab_platform_core.Outcome.{Outcome, ok, err}
use editingtab_platform_core.Identity.Models.{User}
use editingtab_platform_core.Auth.Models.{LoginSession, PasswordCredential}
use editingtab_platform_core.Auth.Repository.{is_live, authenticated_session}
use editingtab_platform_core.Storage.Tables.{Database}

-- No two users share a key.
abbrev pub KeyedUsers : List User → Type 0
KeyedUsers users = (u v : User) → Memᴰ u users → Memᴰ v users → u.id ≡ v.id → u ≡ v

module _ (db : Database) (sessions : List LoginSession) (l : LoginSession) (user : User) (later : ℕ)
    (keyed : KeyedUsers db.users)
    (fresh : any
        (λ (k : LoginSession). k.id == l.id || text_eq k.token_digest l.token_digest)
        sessions
      ≡ false) where
  -- The only session with the digest.
  only_session :
      (k : LoginSession)
      → Memᴰ k (sessions ++ l ∷ [])
      → text_eq k.token_digest l.token_digest ≡ true
      → k ≡ l
  only_session k m t = elim (Memᴰ.append_cases sessions m) [
    | inl n ↦ absurd (
        ground (
          arith,
          fresh,
          Memᴰ-any (λ (k : LoginSession). k.id == l.id || text_eq k.token_digest l.token_digest)
              sessions n (same_digest t),
        ))
    | inr n ↦ Memᴰ.eq_of_singleton n
  ]
    where
      same_digest :
          text_eq k.token_digest l.token_digest ≡ true
          → (k.id == l.id || text_eq k.token_digest l.token_digest) ≡ true
      same_digest t = ground (arith, t)

  -- A live session whose digest no other has authenticates its user, who is active and current.
  pub authenticated-new :
      is_live later l ≡ true
      → Memᴰ user db.users
      → user.id ≡ l.user_id
      → (is_none user.deleted_at && user.is_active) ≡ true
      → authenticated_session
          (record db { login_sessions = sessions ++ l ∷ [] })
          later
          l.token_digest
        ≡ some (user, l)
  unfolding authenticated_session
  authenticated-new live m key current =
      let (row, f) =
        Memᴰ-first _ _
          (Memᴰ-join_where _ (sessions ++ l ∷ []) _ (Memᴰ.append_right sessions (Memᴰ.head refl))
            (&&-intro _ _ (text_eq_refl l.token_digest) live)
            (Memᴰ-join_where _ db.users _ m (≡→== _ _ (sym key)) (Memᴰ.head refl)))
          current in
      f ∙ ap some (found row (first-Memᴰ _ _ f).0)
    where
      found :
          (row : User × LoginSession)
          → Memᴰ row (
              join
                (where_
                  (λ (k : LoginSession). text_eq k.token_digest l.token_digest && is_live later k)
                  (sessions ++ l ∷ []))
                (λ k. join (where_ (λ (u : User). k.user_id == u.id) db.users) (λ u. (u, k) ∷ [])))
          → row ≡ (user, l)
      found row r = join_where _ (sessions ++ l ∷ []) _ r λ k mk t rk.
          join_where _ db.users _ rk λ u mu tu ru.
            let ek = only_session k mk (&&-left _ _ t) in
            let eu =
              keyed u user mu m
                (sym (==→≡ _ _ tu) ∙ ap (λ (x : LoginSession). x.user_id) ek ∙ sym key) in
            Memᴰ.eq_of_singleton ru
            ∙ ap (λ (x : User). (x, k)) eu
            ∙ ap (λ (x : LoginSession). (user, x)) ek
