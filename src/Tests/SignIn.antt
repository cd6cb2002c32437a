-- ===== src/Tests/SignIn.antt =====
-- A user of the tenant with two sessions.
use editingtab_platform_core.Shared.{
  false, [], ◌∷◌, none, some, codes, Memᴰ, ◌≡◌, refl, update_where, where_, order_by, insert_by,
}
use editingtab_platform_core.Auth.Models.{LoginSession}
use editingtab_platform_core.Auth.Repository.{
  active_sessions, authenticated_user, is_other, revoke_session, revoke_user_sessions,
}
use editingtab_platform_core.Auth.Sessions.{revoke_session_ends, revoke_user_sessions_leaves}
use editingtab_platform_core.Storage.Tables.{Database}
use editingtab_platform_core.Storage.Exec.{◌>>=◌}
use editingtab_platform_core.Tests.Tenant.{database}

abbrev laptop : LoginSession
laptop = record {
  id = 41;
  user_id = 1;
  token_digest = codes "aa";
  created_at = 100;
  expires_at = 900;
  revoked_at = none;
}

abbrev phone : LoginSession
phone = record laptop { id = 42; token_digest = codes "bb" }

abbrev signed_in : Database
signed_in = record database { login_sessions = laptop ∷ phone ∷ [] }

revoke_session_ends_example :
    authenticated_user (revoke_session 200 (codes "aa") signed_in).1 300 (codes "aa") ≡ none
revoke_session_ends_example = revoke_session_ends signed_in 200 300 (codes "aa")

-- The phone's session is the one that is left.
phone_stays : Memᴰ phone (active_sessions (revoke_user_sessions 200 1 (some 42) signed_in).1 300 1)
unfolding active_sessions revoke_user_sessions ◌>>=◌ update_where where_ order_by insert_by
phone_stays = Memᴰ.head refl

revoke_user_sessions_leaves_example :
    Memᴰ phone (active_sessions signed_in 300 1) × (is_other (some 42) phone ≡ false)
revoke_user_sessions_leaves_example =
    revoke_user_sessions_leaves signed_in 200 300 1 (some 42) phone_stays
