-- ===== src/Auth/Throttling/Counters.antt =====
-- `consume_bucket` and `purge_expired_throttles` of auth/repository.py as operations on counters.
use Prim.Native.Nat.{min}
use editingtab_platform_core.Shared.{
  ℕ, ◌+◌, ◌≤◌, Bool, true, false, List, [], ◌∷◌, ◌++◌, Option, none, some, String, Text, text_eq,
  text_eq_refl, text_eq→≡, first, update_where, leb, if◌then◌else◌, ◌≡◌, refl, sym, ◌∙◌, ap, subst,
  inl, inr, Bool-cases, Option-cases, arith,
}
use editingtab_platform_core.Outcome.{ok}
use editingtab_platform_core.Auth.Models.{LoginThrottle}
use editingtab_platform_core.Auth.Security.{Hashing}
use editingtab_platform_core.Auth.Repository.Throttle.{
  is_expired, next_attempts, count_attempt, find_bucket, upsert_bucket, bucket_key, consume_bucket,
}
use editingtab_platform_core.Storage.Tables.{Database}
use editingtab_platform_core.Storage.Exec.{◌>>=◌}

-- What the buckets stand for: for each key the attempts of its running window and its end, if one
-- is running.
abbrev pub Counters : Type 0
Counters = Text → Option (ℕ × ℕ)

unfoldable pub running : ℕ → Option LoginThrottle → Option (ℕ × ℕ)
unfolding is_expired
running clock none = none
running clock (some b) = if is_expired clock b then none else some (b.attempts, b.expires_at)

unfoldable pub counters : ℕ → List LoginThrottle → Counters
unfolding running
counters clock buckets key = running clock (find_bucket buckets key)

-- One more attempt: the first of a new window, or one more in the window that runs, where the
-- counter stops at one past the limit.
unfoldable pub counted : ℕ → ℕ → ℕ → Option (ℕ × ℕ) → ℕ × ℕ
counted clock limit window none = (1, clock + window)
counted clock limit window (some (n, end)) = (min (n + 1) (limit + 1), end)

next_attempts-min : (limit n : ℕ) → next_attempts limit n ≡ min (n + 1) (limit + 1)
next_attempts-min limit n = ground arith

unfoldable pub count_up : ℕ → Text → ℕ → ℕ → Counters → Counters
unfolding counted
count_up clock key limit window c k =
    if text_eq k key then some (counted clock limit window (c key)) else c k

module _ (q p : LoginThrottle → Bool) (f : LoginThrottle → LoginThrottle) where
  -- An update that the search does not see, on rows that it does not find.
  first-update_ne :
      (xs : List LoginThrottle)
      → ((x : LoginThrottle) → p x ≡ true → q x ≡ false)
      → ((x : LoginThrottle) → q (f x) ≡ q x)
      → first q (update_where p f xs) ≡ first q xs
  unfolding first update_where
  first-update_ne [] ne same = refl
  first-update_ne (x ∷ xs) ne same = elim (Bool-cases (p x)) [
    | inl t ↦ rw (t, same x, ne x t) (first-update_ne xs ne same)
    | inr t ↦ rw (t, first-update_ne xs ne same)
  ]

module _ (p : LoginThrottle → Bool) (f : LoginThrottle → LoginThrottle) where
  -- The row that an update changes is the one that the search finds.
  first-update_eq :
      (xs : List LoginThrottle) {x : LoginThrottle}
      → ((x : LoginThrottle) → p (f x) ≡ p x)
      → first p xs ≡ some x
      → first p (update_where p f xs) ≡ some (f x)
  unfolding first update_where
  first-update_eq [] same e = cc
  first-update_eq (y ∷ xs) same e = elim (Bool-cases (p y)) [
    | inl t ↦ rw (t, same y, t) (ap some (ap f (ground (arith, t, e))))
    | inr t ↦ rw (t, t) (first-update_eq xs same (rw t at e))
  ]

module _ (p : LoginThrottle → Bool) where
  first-append :
      (xs : List LoginThrottle) (y : LoginThrottle)
      → first p xs ≡ none
      → first p (xs ++ y ∷ []) ≡ (if p y then some y else none)
  unfolding first
  first-append [] y e = refl
  first-append (x ∷ xs) y e = elim (Bool-cases (p x)) [
    | inl t ↦ absurd (ground (arith, t, e))
    | inr t ↦ rw t (first-append xs y (rw t at e))
  ]

  first-append_ne :
      (xs : List LoginThrottle) (y : LoginThrottle)
      → p y ≡ false
      → first p (xs ++ y ∷ []) ≡ first p xs
  unfolding first
  first-append_ne [] y e = rw e
  first-append_ne (x ∷ xs) y e = elim (Bool-cases (p x)) [
    | inl t ↦ rw t
    | inr t ↦ rw t (first-append_ne xs y e)
  ]

-- The row that a key has after the upsert.
abbrev pub upserted : ℕ → Text → ℕ → ℕ → Option LoginThrottle → LoginThrottle
upserted clock key limit window none = record {
  key = key;
  attempts = 1;
  expires_at = clock + window;
}
upserted clock key limit window (some b) = count_attempt clock limit window b

pub text_eq_sym : (s t : Text) → text_eq s t ≡ false → text_eq t s ≡ false
text_eq_sym s t e = elim (Bool-cases (text_eq t s)) [
  | inl u ↦
      absurd (ground (arith, e, subst (λ x. text_eq x t ≡ true) (text_eq→≡ t s u) (text_eq_refl t)))
  | inr u ↦ u
]

module _ (clock : ℕ) (key : Text) (limit window : ℕ) where
  pub count_attempt-key : (b : LoginThrottle) → (count_attempt clock limit window b).key ≡ b.key
  unfolding count_attempt
  count_attempt-key b = elim (Bool-cases (is_expired clock b)) [ inl t ↦ rw t | inr t ↦ rw t ]

  pub find-upsert :
      (buckets : List LoginThrottle)
      → find_bucket (upsert_bucket clock key limit window buckets) key
        ≡ some (upserted clock key limit window (find_bucket buckets key))
  unfolding upsert_bucket find_bucket
  find-upsert buckets =
      elim (Option-cases (first (λ (b : LoginThrottle). text_eq b.key key) buckets)) [
        | inl e ↦ rw (upsert_bucket, e) (first-append _ buckets _ e ∙ rw (text_eq_refl key))
        | inr (b, e) ↦
            rw (upsert_bucket, e)
              (first-update_eq _ _ buckets (λ x. ap (λ k. text_eq k key) (count_attempt-key x)) e)
      ]

  pub find-upsert_ne :
      (buckets : List LoginThrottle) (k : Text)
      → text_eq k key ≡ false
      → find_bucket (upsert_bucket clock key limit window buckets) k ≡ find_bucket buckets k
  unfolding upsert_bucket find_bucket
  find-upsert_ne buckets k ne =
      elim (Option-cases (first (λ (b : LoginThrottle). text_eq b.key key) buckets)) [
        | inl e ↦ rw (upsert_bucket, e) (first-append_ne _ buckets _ (text_eq_sym k key ne))
        | inr (b, e) ↦
            rw (upsert_bucket, e)
              (first-update_ne _ _ _ buckets
                (λ x t.
                  text_eq_sym k x.key
                    (subst (λ y. text_eq k y ≡ false) (sym (text_eq→≡ x.key key t)) ne))
                (λ x. ap (λ y. text_eq y k) (count_attempt-key x)))
      ]

  new_window : 1 ≤ window → leb (clock + window) clock ≡ false
  new_window w = ground (arith, w)

  -- A row after the upsert counts as the specification says.
  running-upserted :
      1 ≤ window
      → (o : Option LoginThrottle)
      → running clock (some (upserted clock key limit window o))
        ≡ some (counted clock limit window (running clock o))
  unfolding running counted is_expired count_attempt
  running-upserted w none = rw (new_window w)
  running-upserted w (some b) = elim (Bool-cases (leb b.expires_at clock)) [
    | inl t ↦ rw (count_attempt, t, new_window w)
    | inr t ↦ rw (count_attempt, t, t, next_attempts-min limit b.attempts)
  ]

module _ (clock : ℕ) (key : Text) (limit window : ℕ) (buckets : List LoginThrottle) where
  counters-upsert :
      1 ≤ window
      → (k : Text)
      → counters clock (upsert_bucket clock key limit window buckets) k
        ≡ count_up clock key limit window (counters clock buckets) k
  unfolding counters count_up
  counters-upsert w k = elim (Bool-cases (text_eq k key)) [
    | inl t ↦
        rw (text_eq→≡ k key t, text_eq_refl key, find-upsert clock key limit window buckets)
          (running-upserted clock key limit window w (find_bucket buckets key))
    | inr t ↦ rw (t, find-upsert_ne clock key limit window buckets k t)
  ]

attempts-running :
    (clock : ℕ) (b : LoginThrottle) (v : ℕ × ℕ) → running clock (some b) ≡ some v → b.attempts ≡ v.0
unfolding running
attempts-running clock b v e = elim (Bool-cases (is_expired clock b)) [
  | inl t ↦ cleared _ refl (rw t at e)
  | inr t ↦ kept (rw t at e)
]
  where
    cleared : {C : Type 0} (o : Option (ℕ × ℕ)) → o ≡ none → o ≡ some v → C
    cleared o z k = cc

    kept : some (b.attempts, b.expires_at) ≡ some v → b.attempts ≡ v.0
    kept k = ground arith

-- `consume_bucket`, with a window of at least a second, counts one more attempt for its key, in a
-- new window if none is running, changes no other key's counter and no other table, and answers
-- whether the attempts so far are within the limit.
pub consume_bucket_counts :
    (h : Hashing) (clock : ℕ) (kind : String) (value : Text) (limit window : ℕ) (db : Database)
    → 1 ≤ window
    → let key = bucket_key h kind value in
      let before = counters clock db.login_throttles in
      let (answer, after) = consume_bucket h clock kind value limit window db in
      (answer ≡ ok (leb (counted clock limit window (before key)).0 limit))
      × ((k : Text)
          → counters clock after.login_throttles k ≡ count_up clock key limit window before k)
      × (after ≡ record db { login_throttles = after.login_throttles })
unfolding consume_bucket ◌>>=◌ counters count_up
consume_bucket_counts h clock kind value limit window db w =
    let key = bucket_key h kind value in
    let o = find_bucket db.login_throttles key in
    (
      rw (find-upsert clock key limit window db.login_throttles) (
          ap (λ n. ok (leb n limit))
            (attempts-running clock (upserted clock key limit window o)
              (counted clock limit window (running clock o))
              (running-upserted clock key limit window w o))),
      counters-upsert clock key limit window db.login_throttles w,
      refl,
    )
