-- ===== src/Auth/Throttling/Limit.antt =====
-- The limit that the buckets of auth/repository.py keep over a window.
use editingtab_platform_core.Shared.{
  ℕ, ◌+◌, ◌-◌, ◌≤◌, ◌<◌, Bool, true, false, List, [], ◌∷◌, Memᴰ, Option, none, some, String, Text,
  text_eq, text_eq→≡, leb, ◌≡◌, refl, sym, ◌∙◌, ap, subst, inl, inr, Bool-cases, arith,
}
use editingtab_platform_core.Outcome.{Outcome, ok}
use editingtab_platform_core.Auth.Models.{LoginThrottle}
use editingtab_platform_core.Auth.Security.{Hashing}
use editingtab_platform_core.Auth.Repository.Throttle.{
  is_expired, next_attempts, count_attempt, find_bucket, upsert_bucket, attempts_of, bucket_key,
  consume_bucket,
}
use editingtab_platform_core.Auth.Throttling.Counters.{
  running, counters, upserted, find-upsert, find-upsert_ne, text_eq_sym,
}
use editingtab_platform_core.Storage.Tables.{Database}
use editingtab_platform_core.Storage.Exec.{◌>>=◌}

-- An attempt, with the time of its call.
pub record Attempt : Type 0 where
  pub clock : ℕ
  pub kind : String
  pub value : Text

unfoldable pub allowed_in : Bool → Outcome Bool → ℕ
allowed_in true (ok true) = 1
allowed_in _ _ = 0

module _ (h : Hashing) (key : Text) (limit window : ℕ) where
  -- How many of the attempts on a key are allowed, when the attempts, on this key and on others,
  -- are counted one after the other.
  unfoldable pub allowed : List Attempt → Database → ℕ
  unfolding allowed_in
  allowed [] db = 0
  allowed (a ∷ rest) db =
      let run = consume_bucket h a.clock a.kind a.value limit window db in
      allowed_in (text_eq (bucket_key h a.kind a.value) key) run.0 + allowed rest run.1

  -- One attempt on the key.
  step_eq :
      (a : Attempt) (db : Database)
      → text_eq (bucket_key h a.kind a.value) key ≡ true
      → let run = consume_bucket h a.clock a.kind a.value limit window db in
        let b = upserted a.clock key limit window (find_bucket db.login_throttles key) in
        (run.0 ≡ ok (leb b.attempts limit)) × (find_bucket run.1.login_throttles key ≡ some b)
  unfolding consume_bucket ◌>>=◌
  step_eq a db t =
      subst
        (λ k.
          (ok (
              leb
                (attempts_of
                  (find_bucket (upsert_bucket a.clock k limit window db.login_throttles) k))
                limit)
            ≡ ok (
                leb
                  (upserted a.clock key limit window (find_bucket db.login_throttles key)).attempts
                  limit))
          × (find_bucket (upsert_bucket a.clock k limit window db.login_throttles) key
              ≡ some (upserted a.clock key limit window (find_bucket db.login_throttles key))))
        (sym (text_eq→≡ _ key t))
        (
          ap (λ o. ok (leb (attempts_of o) limit))
              (find-upsert a.clock key limit window db.login_throttles),
          find-upsert a.clock key limit window db.login_throttles,
        )

  step_ne :
      (a : Attempt) (db : Database)
      → text_eq (bucket_key h a.kind a.value) key ≡ false
      → find_bucket (consume_bucket h a.clock a.kind a.value limit window db).1.login_throttles key
        ≡ find_bucket db.login_throttles key
  unfolding consume_bucket ◌>>=◌
  step_ne a db t =
      find-upsert_ne a.clock (bucket_key h a.kind a.value) limit window db.login_throttles key
        (text_eq_sym _ key t)

  counted_bounded :
      (n m : ℕ)
      → m ≤ limit - next_attempts limit n
      → allowed_in true (ok (leb (next_attempts limit n) limit)) + m ≤ limit - n
  unfolding allowed_in
  counted_bounded n m e = ground (arith, e)

  live_attempt :
      (clock : ℕ) (b : LoginThrottle)
      → clock < b.expires_at
      → count_attempt clock limit window b ≡ record b { attempts = next_attempts limit b.attempts }
  unfolding count_attempt is_expired
  live_attempt clock b l = rw (not_expired clock b.expires_at l)
    where
      not_expired : (c e : ℕ) → c < e → leb e c ≡ false
      not_expired c e l = ground (arith, l)

  skipped : (o : Outcome Bool) (n m : ℕ) → n ≤ m → allowed_in false o + n ≤ m
  unfolding allowed_in
  skipped o n m e = omega (arith, e)

  -- The attempts in a window that runs already.
  allowed-running :
      (attempts : List Attempt) (db : Database) (b : LoginThrottle)
      → find_bucket db.login_throttles key ≡ some b
      → ((a : Attempt) → Memᴰ a attempts → a.clock < b.expires_at)
      → allowed attempts db ≤ limit - b.attempts
  unfolding allowed
  allowed-running [] db b e l = omega arith
  allowed-running (a ∷ rest) db b e l =
      elim (Bool-cases (text_eq (bucket_key h a.kind a.value) key)) [
        | inl t ↦
            let (answer, found) = step_eq a db t in
            let same =
              ap (upserted a.clock key limit window) e
              ∙ live_attempt a.clock b (l a (Memᴰ.head refl)) in
            rw (t, answer, same)
              (counted_bounded b.attempts _ (
                allowed-running rest _ (record b { attempts = next_attempts limit b.attempts })
                  (found ∙ ap some same) (λ x m. l x (Memᴰ.tail m))))
        | inr t ↦ rw t (
            skipped (consume_bucket h a.clock a.kind a.value limit window db).0 _ _
              (allowed-running rest _ b (step_ne a db t ∙ e) (λ x m. l x (Memᴰ.tail m))))
      ]

  ended : {C : Type 0} {v : ℕ × ℕ} (o : Option (ℕ × ℕ)) → o ≡ some v → o ≡ none → C
  ended o k z = cc

  new_attempt :
      (clock : ℕ) (o : Option LoginThrottle)
      → running clock o ≡ none
      → upserted clock key limit window o ≡ record {
        key = (upserted clock key limit window o).key;
        attempts = 1;
        expires_at = clock + window;
      }
  unfolding running count_attempt is_expired
  new_attempt clock none e = refl
  new_attempt clock (some b) e = elim (Bool-cases (leb b.expires_at clock)) [
    | inl t ↦ rw t
    | inr t ↦ ended _ refl (rw t at e)
  ]

  still_none :
      (start clock : ℕ) (o : Option LoginThrottle)
      → start ≤ clock
      → running start o ≡ none
      → running clock o ≡ none
  unfolding running is_expired
  still_none start clock none l e = refl
  still_none start clock (some b) l e = elim (Bool-cases (leb b.expires_at start)) [
    | inl t ↦ rw (later t)
    | inr t ↦ ended _ refl (rw t at e)
  ]
    where
      later : leb b.expires_at start ≡ true → leb b.expires_at clock ≡ true
      later t = ground (arith, t, l)

  first_bounded : (m : ℕ) → m ≤ limit - 1 → allowed_in true (ok (leb 1 limit)) + m ≤ limit
  unfolding allowed_in
  first_bounded m e = ground (arith, e)

  -- If no window of the key runs at some time, then of all the attempts from then until a window
  -- later, on this key and on others, at most `limit` on the key are allowed.
  pub allowed_le_limit :
      (start : ℕ) (attempts : List Attempt) (db : Database)
      → counters start db.login_throttles key ≡ none
      → ((a : Attempt) → Memᴰ a attempts → (start ≤ a.clock) × (a.clock < start + window))
      → allowed attempts db ≤ limit
  unfolding allowed counters
  allowed_le_limit start [] db e l = omega arith
  allowed_le_limit start (a ∷ rest) db e l =
      elim (Bool-cases (text_eq (bucket_key h a.kind a.value) key)) [
        | inl t ↦
            let (answer, found) = step_eq a db t in
            let new =
              new_attempt a.clock (find_bucket db.login_throttles key)
                (still_none start a.clock _ (l a (Memᴰ.head refl)).0 e) in
            rw (t, answer, new)
              (first_bounded _ (
                allowed-running rest _ _ (found ∙ ap some new)
                  (λ x m. within (l a (Memᴰ.head refl)).0 (l x (Memᴰ.tail m)).1)))
        | inr t ↦ rw t (
            skipped (consume_bucket h a.clock a.kind a.value limit window db).0 _ _ (
              allowed_le_limit start rest _ (ap (running start) (step_ne a db t) ∙ e)
                (λ x m. l x (Memᴰ.tail m))))
      ]
    where
      within : {c d : ℕ} → start ≤ c → d < start + window → d < c + window
      within p q = omega (arith, p, q)
