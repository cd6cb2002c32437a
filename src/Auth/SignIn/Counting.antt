-- ===== src/Auth/SignIn/Counting.antt =====
-- The tables after the attempts that `login` of auth/services.py counts.
use editingtab_platform_core.Shared.{ℕ, List, String, Text, ◌≡◌, refl}
use editingtab_platform_core.Config.{Settings}
use editingtab_platform_core.Auth.Models.{LoginThrottle}
use editingtab_platform_core.Auth.Security.{Hashing}
use editingtab_platform_core.Auth.Repository.Throttle.{purge_expired_throttles, consume_bucket}
use editingtab_platform_core.Auth.Services.Attempts.{count_attempts}
use editingtab_platform_core.Storage.Tables.{Database}
use editingtab_platform_core.Storage.Ensures.{
  Ensures, Ensures-family, Ensures-pure, Ensures-last, Ensures-modify, Ensures-branch,
}

-- The attempts change the buckets alone.
module _ (h : Hashing) (settings : Settings) (clock : ℕ) where
  consume_bucket-Ensures :
      (kind : String) (value : Text) (limit window : ℕ) (db : Database)
      → Ensures
          (λ _ db'.
            (ts : List LoginThrottle) × Unit {0} × (db' ≡ record db { login_throttles = ts }))
          (consume_bucket h clock kind value limit window db)
  unfolding consume_bucket
  consume_bucket-Ensures kind value limit window db =
      Ensures-modify _ _ _ _ (Ensures-last _ _ _ (_, tt, refl))

  pub count_attempts-Ensures :
      (source_kind account_kind : String) (source normalized : Text) (db : Database)
      → Ensures
          (λ _ db'.
            (ts : List LoginThrottle) × Unit {0} × (db' ≡ record db { login_throttles = ts }))
          (count_attempts h settings clock source_kind account_kind source normalized db)
  unfolding count_attempts purge_expired_throttles
  count_attempts-Ensures source_kind account_kind source normalized db = Ensures-modify _ _ _ _ (
      Ensures-family _ (λ _. Unit {0}) (λ ts. record db { login_throttles = ts }) _ _ _
        (consume_bucket-Ensures source_kind source _ _ _)
        λ allowed ts _.
          Ensures-branch _ _ _ _ _ (λ _. consume_bucket-Ensures account_kind normalized _ _ _)
            (λ _. Ensures-pure _ _ _ (ts, tt, refl)))
