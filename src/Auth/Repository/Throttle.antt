-- ===== src/Auth/Repository/Throttle.antt =====
-- auth/repository.py: the buckets that limit attempts.
use editingtab_platform_core.Shared.{
  ℕ, ◌+◌, Bool, List, [], ◌∷◌, ◌++◌, map, Option, none, some, String, Text, codes, text_eq, any,
  first, where_, take, order_by, update_where, delete_where, leb, if◌then◌else◌,
}
use editingtab_platform_core.Auth.Models.{LoginThrottle}
use editingtab_platform_core.Auth.Security.{Hashing}
use editingtab_platform_core.Storage.Tables.{Database}
use editingtab_platform_core.Storage.Exec.{Exec, gets, modify, ◌>>◌}

unfoldable pub is_expired : ℕ → LoginThrottle → Bool
is_expired clock bucket = leb bucket.expires_at clock

-- The keys of at most 100 expired buckets, oldest first.
unfoldable pub purged_keys : ℕ → List LoginThrottle → List Text
unfolding is_expired
purged_keys clock buckets =
    map (λ (b : LoginThrottle). b.key)
      (take 100 (
        order_by (λ (a b : LoginThrottle). leb a.expires_at b.expires_at)
          (where_ (is_expired clock) buckets)))

unfoldable pub purge_expired_throttles : ℕ → Exec Database (Unit {0})
unfolding purged_keys
purge_expired_throttles clock = modify (λ db. record db {
  login_throttles =
      delete_where
        (λ (b : LoginThrottle). any (text_eq b.key) (purged_keys clock db.login_throttles))
        db.login_throttles;
})

-- `least(attempts + 1, limit + 1)`
abbrev pub next_attempts : ℕ → ℕ → ℕ
next_attempts limit attempts = if leb attempts limit then attempts + 1 else limit + 1

-- The conflict clause of the upsert: a window that has ended starts again.
unfoldable pub count_attempt : ℕ → ℕ → ℕ → LoginThrottle → LoginThrottle
unfolding is_expired
count_attempt clock limit window bucket =
    if is_expired clock bucket
    then record bucket { attempts = 1; expires_at = clock + window }
    else record bucket { attempts = next_attempts limit bucket.attempts }

unfoldable pub find_bucket : List LoginThrottle → Text → Option LoginThrottle
find_bucket buckets key = first (λ (b : LoginThrottle). text_eq b.key key) buckets

-- The upsert.
unfoldable pub upsert_bucket : ℕ → Text → ℕ → ℕ → List LoginThrottle → List LoginThrottle
unfolding count_attempt find_bucket
upsert_bucket clock key limit window buckets = elim (find_bucket buckets key) [
  | none ↦ buckets ++ record { key = key; attempts = 1; expires_at = clock + window } ∷ []
  | some _ ↦
      update_where (λ (b : LoginThrottle). text_eq b.key key) (count_attempt clock limit window)
        buckets
]

-- The attempts that the row has after the upsert.
abbrev pub attempts_of : Option LoginThrottle → ℕ
attempts_of none = 0
attempts_of (some b) = b.attempts

abbrev pub bucket_key : Hashing → String → Text → Text
bucket_key h kind value = codes kind ++ (codes ":" ++ h.sha256 value)

unfoldable pub consume_bucket : Hashing → ℕ → String → Text → ℕ → ℕ → Exec Database Bool
unfolding upsert_bucket find_bucket
consume_bucket h clock kind value limit window = do
  modify (λ db. record db {
    login_throttles = upsert_bucket clock (bucket_key h kind value) limit window db.login_throttles;
  })
  gets (λ db. leb (attempts_of (find_bucket db.login_throttles (bucket_key h kind value))) limit)
