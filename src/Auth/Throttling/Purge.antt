-- ===== src/Auth/Throttling/Purge.antt =====
-- `purge_expired_throttles` of auth/repository.py as an operation on counters.
use editingtab_platform_core.Shared.{
  ℕ, zero, suc, Bool, true, false, List, [], ◌∷◌, Memᴰ, none, Text, text_eq, text_eq→≡, first,
  first-Memᴰ, where_, delete_where, where-Memᴰ, any, any-Memᴰ, take, order_by-Memᴰ, ◌≡◌, refl, sym,
  ◌∙◌, subst, inl, inr, Bool-cases, Option-cases, arith,
}
use mathlib.Core.List.Memᴰ
use editingtab_platform_core.Auth.Models.{LoginThrottle}
use editingtab_platform_core.Auth.Repository.Throttle.{
  is_expired, purged_keys, purge_expired_throttles, find_bucket,
}
use editingtab_platform_core.Auth.Throttling.Counters.{running, counters}
use editingtab_platform_core.Storage.Tables.{Database}
use editingtab_platform_core.Storage.Exec.{modify}

-- No two buckets share a key.
abbrev pub KeyedBuckets : List LoginThrottle → Type 0
KeyedBuckets buckets =
    (a b : LoginThrottle) → Memᴰ a buckets → Memᴰ b buckets → a.key ≡ b.key → a ≡ b

take-Memᴰ : {x : LoginThrottle} (n : ℕ) (xs : List LoginThrottle) → Memᴰ x (take n xs) → Memᴰ x xs
take-Memᴰ zero xs m = elim m [ ]
take-Memᴰ (suc n) [] m = elim m [ ]
take-Memᴰ (suc n) (y ∷ xs) (Memᴰ.head e) = Memᴰ.head e
take-Memᴰ (suc n) (y ∷ xs) (Memᴰ.tail m) = Memᴰ.tail (take-Memᴰ n xs m)

module _ (q p : LoginThrottle → Bool) where
  -- Rows that the search finds and the deletion spares.
  first-delete_ne :
      (xs : List LoginThrottle)
      → ((x : LoginThrottle) → q x ≡ true → p x ≡ false)
      → first q (delete_where p xs) ≡ first q xs
  unfolding first where_
  first-delete_ne [] ne = refl
  first-delete_ne (x ∷ xs) ne = elim (Bool-cases (p x)) [
    | inl t ↦ rw (t, spared x t) (first-delete_ne xs ne)
    | inr t ↦ elim (Bool-cases (q x)) [
      | inl u ↦ rw (t, u)
      | inr u ↦ rw (t, u) (first-delete_ne xs ne)
    ]
  ]
    where
      spared : (x : LoginThrottle) → p x ≡ true → q x ≡ false
      spared x t = elim (Bool-cases (q x)) [
        | inl u ↦ absurd (ground (arith, t, ne x u))
        | inr u ↦ u
      ]

  -- Rows that the search finds and the deletion takes.
  first-delete_eq :
      (xs : List LoginThrottle)
      → ((x : LoginThrottle) → q x ≡ true → p x ≡ true)
      → first q (delete_where p xs) ≡ none
  unfolding first where_
  first-delete_eq [] eq = refl
  first-delete_eq (x ∷ xs) eq = elim (Bool-cases (p x)) [
    | inl t ↦ rw t (first-delete_eq xs eq)
    | inr t ↦ rw (t, kept x t) (first-delete_eq xs eq)
  ]
    where
      kept : (x : LoginThrottle) → p x ≡ false → q x ≡ false
      kept x t = elim (Bool-cases (q x)) [ inl u ↦ absurd (ground (arith, t, eq x u)) | inr u ↦ u ]

module _ (clock : ℕ) (buckets : List LoginThrottle) (keyed : KeyedBuckets buckets) (k : Text) where
  -- A key that is purged has no running window.
  purged-running :
      any (text_eq k) (purged_keys clock buckets) ≡ true
      → running clock (find_bucket buckets k) ≡ none
  unfolding purged_keys find_bucket running
  purged-running t =
      let (key, m, e) = any-Memᴰ (text_eq k) (purged_keys clock buckets) t in
      let (b, mb, eb) = Memᴰ.of_map _ _ m in
      let (mb', expired) = where-Memᴰ _ buckets (order_by-Memᴰ _ _ (take-Memᴰ 100 _ mb)) in
      go b mb' expired (eb ∙ sym (text_eq→≡ k key e))
    where
      go :
          (b : LoginThrottle)
          → Memᴰ b buckets
          → is_expired clock b ≡ true
          → b.key ≡ k
          → running clock (first (λ (b : LoginThrottle). text_eq b.key k) buckets) ≡ none
      go b m expired e =
          elim (Option-cases (first (λ (b : LoginThrottle). text_eq b.key k) buckets)) [
            | inl n ↦ rw n
            | inr (x, f) ↦
                let (mx, ex) = first-Memᴰ _ buckets f in
                rw (f, keyed x b mx m (text_eq→≡ x.key k ex ∙ sym e), expired)
          ]

  -- A key that is not purged keeps its row.
  kept-find :
      any (text_eq k) (purged_keys clock buckets) ≡ false
      → find_bucket
          (delete_where
            (λ (b : LoginThrottle). any (text_eq b.key) (purged_keys clock buckets))
            buckets)
          k
        ≡ find_bucket buckets k
  unfolding find_bucket
  kept-find t = first-delete_ne _ _ buckets λ x e.
      subst (λ y. any (text_eq y) (purged_keys clock buckets) ≡ false) (sym (text_eq→≡ x.key k e)) t

  purged-find :
      any (text_eq k) (purged_keys clock buckets) ≡ true
      → find_bucket
          (delete_where
            (λ (b : LoginThrottle). any (text_eq b.key) (purged_keys clock buckets))
            buckets)
          k
        ≡ none
  unfolding find_bucket
  purged-find t = first-delete_eq _ _ buckets λ x e.
      subst (λ y. any (text_eq y) (purged_keys clock buckets) ≡ true) (sym (text_eq→≡ x.key k e)) t

module _ (clock : ℕ) (db : Database) (keyed : KeyedBuckets db.login_throttles) where
  -- Purging takes expired buckets alone: no counter changes.
  pub purge-counters :
      (k : Text)
      → counters clock (purge_expired_throttles clock db).1.login_throttles k
        ≡ counters clock db.login_throttles k
  unfolding purge_expired_throttles modify counters running
  purge-counters k = elim (Bool-cases (any (text_eq k) (purged_keys clock db.login_throttles))) [
    | inl t ↦
        rw (purged-find clock db.login_throttles keyed k t)
          (sym (purged-running clock db.login_throttles keyed k t))
    | inr t ↦ rw (kept-find clock db.login_throttles keyed k t)
  ]

  pub purge-KeyedBuckets : KeyedBuckets (purge_expired_throttles clock db).1.login_throttles
  unfolding purge_expired_throttles modify
  purge-KeyedBuckets a b ma mb e = keyed a b (where-Memᴰ _ _ ma).0 (where-Memᴰ _ _ mb).0 e
