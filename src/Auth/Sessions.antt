-- ===== src/Auth/Sessions.antt =====
-- What revoking leaves of a user's sessions.
use editingtab_platform_core.Shared.{
  ℕ, Bool, true, false, Memᴰ, Option, none, some, Text, text_eq, ◌≡◌, sym, ap, subst, inl, inr, ◌⊎◌,
  where-Memᴰ, join_where, first-Memᴰ, update_cases, update_where, order_by-Memᴰ, Memᴰ-order_by,
  Memᴰ-where, Option-cases, arith, is_none, ◌==◌, &&-right,
}
use mathlib.Core.List.Memᴰ
use editingtab_platform_core.Auth.Models.{LoginSession}
use editingtab_platform_core.Auth.Repository.{
  is_live, authenticated_session, authenticated_user, active_sessions, revoke_session,
  revoke_user_sessions, is_other,
}
use editingtab_platform_core.Storage.Tables.{Database}
use editingtab_platform_core.Storage.Exec.{◌>>=◌}

module _ (db : Database) (clock later : ℕ) where
  -- A row of the revoked table that the test still selects was no live one.
  revoked_lem :
      (p : LoginSession → Bool) {l : LoginSession}
      → Memᴰ l (update_where p (λ l. record l { revoked_at = some clock }) db.login_sessions)
      → is_live later l ≡ true
      → Memᴰ l db.login_sessions × (p l ≡ false)
  unfolding is_live
  revoked_lem p {l} m h = let (q, k, e) = update_cases _ _ db.login_sessions m in go q k e
    where
      go :
          (q : LoginSession)
          → Memᴰ q db.login_sessions
          → ((l ≡ record q { revoked_at = some clock }) × (p q ≡ true)) ⊎ ((l ≡ q) × (p q ≡ false))
          → Memᴰ l db.login_sessions × (p l ≡ false)
      go q k (inl (e, t)) =
          absurd (ground (arith, h, ap (λ (x : LoginSession). is_none x.revoked_at) e))
      go q k (inr (e, t)) = (Memᴰ.cast e k, subst (λ x. p x ≡ false) (sym e) t)

  session_revoked :
      (digest : Text) → authenticated_session (revoke_session clock digest db).1 later digest ≡ none
  unfolding revoke_session ◌>>=◌ authenticated_session is_live
  session_revoked digest =
      elim (Option-cases (authenticated_session (revoke_session clock digest db).1 later digest)) [
        | inl e ↦ e
        | inr (row, e) ↦
            let (m, _) = first-Memᴰ _ _ e in
            absurd (
              join_where _ _ _ m λ l k t _.
                let (_, f) = revoked_lem _ k (&&-right (text_eq l.token_digest digest) _ t) in
                ground (arith, t, f))
      ]

  -- After `revoke_session` with a digest, no user is authenticated by that digest, at any time.
  pub revoke_session_ends :
      (digest : Text) → authenticated_user (revoke_session clock digest db).1 later digest ≡ none
  unfolding authenticated_user
  revoke_session_ends digest = rw (authenticated_user, session_revoked digest)

  -- A session of a user that is active at any time after `revoke_user_sessions` was active in the
  -- tables before, and is the one that was excepted.
  pub revoke_user_sessions_leaves :
      (user_id : ℕ) (except_id : Option ℕ) {l : LoginSession}
      → Memᴰ l (active_sessions (revoke_user_sessions clock user_id except_id db).1 later user_id)
      → Memᴰ l (active_sessions db later user_id) × (is_other except_id l ≡ false)
  unfolding revoke_user_sessions ◌>>=◌ active_sessions is_live
  revoke_user_sessions_leaves user_id except_id {l} m =
      let (k, t) = where-Memᴰ _ _ (order_by-Memᴰ _ _ m) in
      let (o, f) = revoked_lem _ k (&&-right (l.user_id == user_id) _ t) in
      (Memᴰ-order_by _ _ (Memᴰ-where _ _ o t), ground (arith, t, f))
