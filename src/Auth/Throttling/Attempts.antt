-- ===== src/Auth/Throttling/Attempts.antt =====
-- The attempts that `login` and `request_password_reset` of auth/services.py count, on counters.
use editingtab_platform_core.Shared.{
  ℕ, ◌≤◌, Bool, true, false, List, [], ◌∷◌, ◌++◌, Memᴰ, none, String, Text, text_eq, text_eq_refl,
  ◌≢◌, update-Memᴰ, first, first-eq-none, update_where, leb, if◌then◌else◌, ◌≡◌, refl, sym, ◌∙◌, ap,
  subst, inl, inr, Bool-cases, Option-cases, arith,
}
use mathlib.Core.List.Memᴰ
use mathlib.Core.Path.{fun_ext}
use editingtab_platform_core.Outcome.{Outcome, ok}
use editingtab_platform_core.Config.{Settings}
use editingtab_platform_core.Auth.Models.{LoginThrottle}
use editingtab_platform_core.Auth.Security.{Hashing}
use editingtab_platform_core.Auth.Repository.Throttle.{
  purge_expired_throttles, find_bucket, upsert_bucket, bucket_key, consume_bucket,
}
use editingtab_platform_core.Auth.Services.Attempts.{count_attempts}
use editingtab_platform_core.Auth.Throttling.Counters.{
  Counters, counters, counted, count_up, consume_bucket_counts, count_attempt-key,
}
use editingtab_platform_core.Auth.Throttling.Purge.{
  KeyedBuckets, purge-counters, purge-KeyedBuckets,
}
use editingtab_platform_core.Storage.Tables.{Database}
use editingtab_platform_core.Storage.Exec.{Exec, pure, branch, continue, ◌>>=◌}

append-KeyedBuckets :
    (buckets : List LoginThrottle) (row : LoginThrottle)
    → KeyedBuckets buckets
    → ((b : LoginThrottle) → Memᴰ b buckets → b.key ≢ row.key)
    → KeyedBuckets (buckets ++ row ∷ [])
append-KeyedBuckets buckets row keyed new a b ma mb e = elim (Memᴰ.append_cases buckets ma) [
  | inl ka ↦ elim (Memᴰ.append_cases buckets mb) [
    | inl kb ↦ keyed a b ka kb e
    | inr kb ↦ absurd (new a ka (e ∙ ap (λ (x : LoginThrottle). x.key) (Memᴰ.eq_of_singleton kb)))
  ]
  | inr ka ↦ elim (Memᴰ.append_cases buckets mb) [
    | inl kb ↦
        absurd (new b kb (sym e ∙ ap (λ (x : LoginThrottle). x.key) (Memᴰ.eq_of_singleton ka)))
    | inr kb ↦ Memᴰ.eq_of_singleton ka ∙ sym (Memᴰ.eq_of_singleton kb)
  ]
]

module _ (p : LoginThrottle → Bool) (f : LoginThrottle → LoginThrottle)
    (same : (b : LoginThrottle) → (f b).key ≡ b.key) where
  update-key : (b : LoginThrottle) → (if p b then f b else b).key ≡ b.key
  update-key b = elim (Bool-cases (p b)) [ inl t ↦ rw t (same b) | inr t ↦ rw t ]

  update-KeyedBuckets :
      (buckets : List LoginThrottle)
      → KeyedBuckets buckets
      → KeyedBuckets (update_where p f buckets)
  update-KeyedBuckets buckets keyed a b ma mb e =
      let (x, kx, ex) = update-Memᴰ p f buckets ma in
      let (y, ky, ey) = update-Memᴰ p f buckets mb in
      let k = λ (b : LoginThrottle). b.key in
      ex
      ∙ ap (λ b. if p b then f b else b)
          (keyed x y kx ky (sym (update-key x) ∙ sym (ap k ex) ∙ e ∙ ap k ey ∙ update-key y))
      ∙ sym ey

module _ (clock : ℕ) (key : Text) (limit window : ℕ) (buckets : List LoginThrottle)
    (keyed : KeyedBuckets buckets) where
  -- The upsert keeps the keys distinct.
  upsert-KeyedBuckets : KeyedBuckets (upsert_bucket clock key limit window buckets)
  unfolding upsert_bucket find_bucket
  upsert-KeyedBuckets =
      elim (Option-cases (first (λ (b : LoginThrottle). text_eq b.key key) buckets)) [
        | inl e ↦ rw (upsert_bucket, e) (append-KeyedBuckets buckets _ keyed (absent e))
        | inr (b, e) ↦
            rw (upsert_bucket, e)
              (update-KeyedBuckets _ _ (count_attempt-key clock key limit window) buckets keyed)
      ]
    where
      absent :
          first (λ (b : LoginThrottle). text_eq b.key key) buckets ≡ none
          → (b : LoginThrottle) → Memᴰ b buckets
          → b.key ≢ key
      absent e b m k = absurd (
          ground (
            arith,
            first-eq-none _ buckets e m,
            subst (λ t. text_eq t key ≡ true) (sym k) (text_eq_refl key),
          ))

-- The specification: an attempt in the source's counter and, if that is within its limit, one in
-- the account's; the answer is whether both are.
unfoldable pub count_both : ℕ → Text → Text → ℕ → ℕ → ℕ → Counters → Bool × Counters
count_both clock source account source_limit account_limit window c =
    let middle = count_up clock source source_limit window c in
    if leb (counted clock source_limit window (c source)).0 source_limit
    then (
      leb (counted clock account_limit window (middle account)).0 account_limit,
      count_up clock account account_limit window middle,
    )
    else (false, middle)

two_steps :
    (m n : Exec Database Bool) (db : Database) {v : Bool} {db' : Database}
    → m db ≡ (ok v, db')
    → (m >>= λ a. branch a n (pure a)) db ≡ (if v then n db' else (ok false, db'))
unfolding ◌>>=◌ branch pure
two_steps m n db {v} {db'} e = ap (continue (λ a. branch a n (pure a))) e ∙ go v
  where
    go : (v : Bool) → branch v n (pure v) db' ≡ (if v then n db' else (ok false, db'))
    go true = refl
    go false = refl

module _ (h : Hashing) (clock : ℕ) (limit window : ℕ) (w : 1 ≤ window) where
  consume_bucket-run :
      (kind : String) (value : Text) (db : Database)
      → consume_bucket h clock kind value limit window db ≡ (
        ok (
            leb
              (counted clock limit window
                (counters clock db.login_throttles (bucket_key h kind value))).0
              limit),
        (consume_bucket h clock kind value limit window db).1,
      )
  consume_bucket-run kind value db =
      ap (λ o. (o, (consume_bucket h clock kind value limit window db).1))
        (consume_bucket_counts h clock kind value limit window db w).0

  consume_bucket-counters :
      (kind : String) (value : Text) (db : Database)
      → counters clock (consume_bucket h clock kind value limit window db).1.login_throttles
        ≡ count_up clock (bucket_key h kind value) limit window (counters clock db.login_throttles)
  consume_bucket-counters kind value db =
      fun_ext λ k. (consume_bucket_counts h clock kind value limit window db w).1 k

  consume_bucket-KeyedBuckets :
      (kind : String) (value : Text) (db : Database)
      → KeyedBuckets db.login_throttles
      → KeyedBuckets (consume_bucket h clock kind value limit window db).1.login_throttles
  unfolding consume_bucket ◌>>=◌
  consume_bucket-KeyedBuckets kind value db keyed =
      upsert-KeyedBuckets clock (bucket_key h kind value) limit window db.login_throttles keyed

-- What a call answers and leaves, against the specification.
abbrev pub Refines : ℕ → Outcome Bool × Database → Bool × Counters → Type 0
Refines clock run spec =
    (run.0 ≡ ok spec.0)
    × (counters clock run.1.login_throttles ≡ spec.1)
    × KeyedBuckets run.1.login_throttles

module _ (h : Hashing) (settings : Settings) (clock : ℕ) (source_kind account_kind : String)
    (source account : Text) (w : 1 ≤ settings.auth_window_seconds) (db : Database)
    (keyed : KeyedBuckets db.login_throttles) where
  abbrev source_key : Text
  source_key = bucket_key h source_kind source

  abbrev account_key : Text
  account_key = bucket_key h account_kind account

  abbrev source_limit : ℕ
  source_limit = settings.auth_source_limit

  abbrev account_limit : ℕ
  account_limit = settings.auth_account_limit

  abbrev window : ℕ
  window = settings.auth_window_seconds

  abbrev before : Counters
  before = counters clock db.login_throttles

  abbrev purged : Database
  purged = (purge_expired_throttles clock db).1

  abbrev counted_source : Database
  counted_source = (consume_bucket h clock source_kind source source_limit window purged).1

  purged-before : counters clock purged.login_throttles ≡ before
  purged-before = fun_ext λ k. purge-counters clock db keyed k

  source-counters :
      counters clock counted_source.login_throttles
      ≡ count_up clock source_key source_limit window before
  source-counters =
      consume_bucket-counters h clock source_limit window w source_kind source purged
      ∙ ap (count_up clock source_key source_limit window) purged-before

  source-KeyedBuckets : KeyedBuckets counted_source.login_throttles
  source-KeyedBuckets =
      consume_bucket-KeyedBuckets h clock source_limit window w source_kind source purged
        (purge-KeyedBuckets clock db keyed)

  -- The second attempt, where the first is allowed.
  account-Refines :
      Refines clock
        (consume_bucket h clock account_kind account account_limit window counted_source)
        (
          leb
              (counted clock account_limit window
                (count_up clock source_key source_limit window before account_key)).0
              account_limit,
          count_up clock account_key account_limit window
              (count_up clock source_key source_limit window before),
        )
  account-Refines = (
    ap (λ (r : Outcome Bool × Database). r.0)
          (consume_bucket-run h clock account_limit window w account_kind account counted_source)
        ∙ ap
            (λ (c : Counters).
              ok (leb (counted clock account_limit window (c account_key)).0 account_limit))
            source-counters,
    consume_bucket-counters h clock account_limit window w account_kind account counted_source
        ∙ ap (count_up clock account_key account_limit window) source-counters,
    consume_bucket-KeyedBuckets h clock account_limit window w account_kind account counted_source
        source-KeyedBuckets,
  )

  count_attempts-run :
      count_attempts h settings clock source_kind account_kind source account db ≡ (
        if leb (counted clock source_limit window (before source_key)).0 source_limit
        then consume_bucket h clock account_kind account account_limit window counted_source
        else (ok false, counted_source))
  unfolding count_attempts ◌>>=◌ consume_bucket purge_expired_throttles
  count_attempts-run =
      two_steps (consume_bucket h clock source_kind source source_limit window)
        (consume_bucket h clock account_kind account account_limit window) purged
        (consume_bucket-run h clock source_limit window w source_kind source purged
          ∙ ap
              (λ (c : Counters). (
                ok (leb (counted clock source_limit window (c source_key)).0 source_limit),
                counted_source,
              ))
              purged-before)

  cases-Refines :
      (t : Bool)
      → leb (counted clock source_limit window (before source_key)).0 source_limit ≡ t
      → Refines clock
          (if t
            then consume_bucket h clock account_kind account account_limit window counted_source
            else (ok false, counted_source))
          (if t
            then (
              leb
                  (counted clock account_limit window
                    (count_up clock source_key source_limit window before account_key)).0
                  account_limit,
              count_up clock account_key account_limit window
                  (count_up clock source_key source_limit window before),
            )
            else (false, count_up clock source_key source_limit window before))
  cases-Refines true e = account-Refines
  cases-Refines false e = (refl, source-counters, source-KeyedBuckets)

  -- Where no two buckets share a key and a window lasts at least a second, the attempts that a
  -- call counts, after the purge of expired buckets, are those of the specification on counters:
  -- one more for the source and, if the source is within its limit, one more for the account,
  -- each stopping at one past its limit, and no change to any other key's counter; the answer is
  -- whether both are within their limits, and no two buckets share a key afterwards.
  pub count_attempts-Refines :
      Refines clock
        (count_attempts h settings clock source_kind account_kind source account db)
        (count_both clock source_key account_key source_limit account_limit window before)
  unfolding count_both
  count_attempts-Refines =
      subst
        (λ r.
          Refines clock r
            (count_both clock source_key account_key source_limit account_limit window before))
        (sym count_attempts-run)
        (cases-Refines (leb (counted clock source_limit window (before source_key)).0 source_limit)
          refl)
