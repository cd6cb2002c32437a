-- ===== src/Shared/Members.antt =====
-- Membership with its witness, through the table operations.
use mathlib.Core.Bool.{Bool, true, false, not}
use mathlib.Core.List.{List, [], ◌∷◌, Memᴰ}
use mathlib.Core.Logic.{◌⊎◌, inl, inr}
use mathlib.Core.Option.{none, some}
use mathlib.Core.Path.{◌≡◌, refl, sym, ap, subst}
use native.Mathlib.Omega.{arith}
use editingtab_platform_core.Shared.Tests.{if◌then◌else◌, Bool-cases, &&-left, &&-right, &&-intro}
use editingtab_platform_core.Shared.Lists.{any, all, where_, first, update_where, delete_where}

module _ {ℓ} {A : Type ℓ} (p : A → Bool) where
  -- A search that succeeds has found a row.
  pub any-Memᴰ : (xs : List A) → any p xs ≡ true → (x : A) × Memᴰ x xs × (p x ≡ true)
  unfolding any
  any-Memᴰ [] h = cc
  any-Memᴰ (x ∷ xs) h = elim (Bool-cases (p x)) [
    | inl e ↦ (x, Memᴰ.head refl, e)
    | inr e ↦ let (y, m, q) = any-Memᴰ xs (rw e at h) in (y, Memᴰ.tail m, q)
  ]

  pub Memᴰ-any : {x : A} (xs : List A) → Memᴰ x xs → p x ≡ true → any p xs ≡ true
  unfolding any
  Memᴰ-any [] x3 h = elim x3 [ ]
  Memᴰ-any (y ∷ xs) (Memᴰ.head e) h = rw (subst (λ z. p z ≡ true) e h)
  Memᴰ-any (y ∷ xs) (Memᴰ.tail m) h = ground (arith, Memᴰ-any xs m h)

  pub all-Memᴰ : {x : A} (xs : List A) → all p xs ≡ true → Memᴰ x xs → p x ≡ true
  unfolding all
  all-Memᴰ [] h x3 = elim x3 [ ]
  all-Memᴰ (y ∷ xs) h (Memᴰ.head e) = rw e (&&-left (p y) (all p xs) h)
  all-Memᴰ (y ∷ xs) h (Memᴰ.tail m) = all-Memᴰ xs (&&-right (p y) (all p xs) h) m

  pub Memᴰ-all : (xs : List A) → ((x : A) → Memᴰ x xs → p x ≡ true) → all p xs ≡ true
  unfolding all
  Memᴰ-all [] h = refl
  Memᴰ-all (y ∷ xs) h =
      &&-intro (p y) (all p xs) (h y (Memᴰ.head refl)) (Memᴰ-all xs (λ x m. h x (Memᴰ.tail m)))

  pub Memᴰ-where : {x : A} (xs : List A) → Memᴰ x xs → p x ≡ true → Memᴰ x (where_ p xs)
  unfolding where_
  Memᴰ-where [] x3 h = elim x3 [ ]
  Memᴰ-where (y ∷ xs) (Memᴰ.head e) h = rw (subst (λ z. p z ≡ true) e h) (Memᴰ.head e)
  Memᴰ-where (y ∷ xs) (Memᴰ.tail m) h = elim (Bool-cases (p y)) [
    | inl e ↦ rw e (Memᴰ.tail (Memᴰ-where xs m h))
    | inr e ↦ rw e (Memᴰ-where xs m h)
  ]

  where-Memᴰ_keep :
      (y : A) {x : A} (xs : List A)
      → p y ≡ true
      → (Memᴰ x (where_ p xs) → Memᴰ x xs × (p x ≡ true))
      → Memᴰ x (y ∷ where_ p xs)
      → Memᴰ x (y ∷ xs) × (p x ≡ true)
  where-Memᴰ_keep y xs e ih (Memᴰ.head q) = (Memᴰ.head q, rw q e)
  where-Memᴰ_keep y xs e ih (Memᴰ.tail m) = let (m', q) = ih m in (Memᴰ.tail m', q)

  -- What a `where` selects stands in the table and passes the test.
  pub where-Memᴰ : {x : A} (xs : List A) → Memᴰ x (where_ p xs) → Memᴰ x xs × (p x ≡ true)
  unfolding where_
  where-Memᴰ [] m = elim m [ ]
  where-Memᴰ {x} (y ∷ xs) m = elim (Bool-cases (p y)) [
    | inl e ↦ where-Memᴰ_keep y xs e (λ k. where-Memᴰ xs k) (rw e at m)
    | inr e ↦ let (m', q) = where-Memᴰ xs (rw e at m) in (Memᴰ.tail m', q)
  ]

  pub first-Memᴰ : {x : A} (xs : List A) → first p xs ≡ some x → Memᴰ x xs × (p x ≡ true)
  unfolding first
  first-Memᴰ [] h = cc
  first-Memᴰ {x} (y ∷ xs) h = elim (Bool-cases (p y)) [
    | inl e ↦ let q : y ≡ x = ground arith in (Memᴰ.head (sym q), subst (λ z. p z ≡ true) q e)
    | inr e ↦ let (m', q) = first-Memᴰ xs (rw e at h) in (Memᴰ.tail m', q)
  ]

  -- A search that fails has passed over every row.
  pub first-eq-none : {x : A} (xs : List A) → first p xs ≡ none → Memᴰ x xs → p x ≡ false
  unfolding first
  first-eq-none [] h x3 = elim x3 [ ]
  first-eq-none (y ∷ xs) h (Memᴰ.head e) = rw e (ground arith)
  first-eq-none (y ∷ xs) h (Memᴰ.tail m) = first-eq-none xs (ground arith) m

  pub Memᴰ-first : {x : A} (xs : List A) → Memᴰ x xs → p x ≡ true → (y : A) × (first p xs ≡ some y)
  unfolding first
  Memᴰ-first [] x3 h = elim x3 [ ]
  Memᴰ-first (y ∷ xs) (Memᴰ.head e) h = (y, rw (subst (λ z. p z ≡ true) e h))
  Memᴰ-first (y ∷ xs) (Memᴰ.tail m) h = elim (Bool-cases (p y)) [
    | inl e ↦ (y, rw e)
    | inr e ↦ rw e (Memᴰ-first xs m h)
  ]

  module _ (f : A → A) where
    -- A row that the update does not select stays.
    pub Memᴰ-update_ne :
        {x : A} (xs : List A) → Memᴰ x xs → p x ≡ false → Memᴰ x (update_where p f xs)
    unfolding update_where
    Memᴰ-update_ne [] x3 h = elim x3 [ ]
    Memᴰ-update_ne (y ∷ xs) (Memᴰ.head e) h = rw (subst (λ z. p z ≡ false) e h) (Memᴰ.head e)
    Memᴰ-update_ne (y ∷ xs) (Memᴰ.tail m) h = Memᴰ.tail (Memᴰ-update_ne xs m h)

    -- A row that the update selects is there with its new values.
    pub Memᴰ-update_eq :
        {x : A} (xs : List A) → Memᴰ x xs → p x ≡ true → Memᴰ (f x) (update_where p f xs)
    unfolding update_where
    Memᴰ-update_eq [] x3 h = elim x3 [ ]
    Memᴰ-update_eq (y ∷ xs) (Memᴰ.head e) h = rw (subst (λ z. p z ≡ true) e h) (Memᴰ.head (ap f e))
    Memᴰ-update_eq (y ∷ xs) (Memᴰ.tail m) h = Memᴰ.tail (Memᴰ-update_eq xs m h)

    -- Every row after an update was one before it.
    pub update-Memᴰ :
        {y : A} (xs : List A)
        → Memᴰ y (update_where p f xs)
        → (x : A) × Memᴰ x xs × (y ≡ (if p x then f x else x))
    unfolding update_where
    update-Memᴰ {y = y} [] x' = elim x' [ ]
    update-Memᴰ (x ∷ xs) (Memᴰ.head e) = (x, Memᴰ.head refl, e)
    update-Memᴰ (x ∷ xs) (Memᴰ.tail m) = let (z, k, e) = update-Memᴰ xs m in (z, Memᴰ.tail k, e)

module _ {ℓ} {A : Type ℓ} (p : A → Bool) (f : A → A) where
  update_choice :
      (t : Bool) (x y : A)
      → p x ≡ t
      → y ≡ (if p x then f x else x)
      → ((y ≡ f x) × (p x ≡ true)) ⊎ ((y ≡ x) × (p x ≡ false))
  update_choice true x y q e = inl (rw q at e, q)
  update_choice false x y q e = inr (rw q at e, q)

  -- A row after an update is a selected row with its new values, or a row that was not selected.
  pub update_cases :
      {y : A} (xs : List A)
      → Memᴰ y (update_where p f xs)
      → (x : A) × Memᴰ x xs × (((y ≡ f x) × (p x ≡ true)) ⊎ ((y ≡ x) × (p x ≡ false)))
  update_cases {y} xs m =
      let (x, k, e) = update-Memᴰ p f xs m in (x, k, update_choice (p x) x y refl e)

module _ {ℓ} {A : Type ℓ} (p : A → Bool) where
  not-eq_true : (b : Bool) → b ≡ false → not b ≡ true
  not-eq_true b h = ground arith

  not-eq_true_inv : (b : Bool) → not b ≡ true → b ≡ false
  not-eq_true_inv b h = ground arith

  pub Memᴰ-delete : {x : A} (xs : List A) → Memᴰ x xs → p x ≡ false → Memᴰ x (delete_where p xs)
  Memᴰ-delete {x} xs m h = Memᴰ-where (λ y. not (p y)) xs m (not-eq_true (p x) h)

  pub delete-Memᴰ : {x : A} (xs : List A) → Memᴰ x (delete_where p xs) → Memᴰ x xs × (p x ≡ false)
  delete-Memᴰ {x} xs m =
      let (k, h) = where-Memᴰ (λ y. not (p y)) xs m in (k, not-eq_true_inv (p x) h)

-- The first row that a search finds is still the first after an update that the search does not
-- see.
pub first-update {ℓ} :
    {A : Type ℓ} (q p : A → Bool) (f : A → A) (xs : List A) {x : A}
    → ((x : A) → q (f x) ≡ q x)
    → first q xs ≡ some x
    → first q (update_where p f xs) ≡ some (if p x then f x else x)
unfolding first update_where
first-update q p f [] same e = cc
first-update q p f (y ∷ xs) {x} same e = elim (Bool-cases (q y)) [
  | inl t ↦ here t (rw t at e)
  | inr t ↦ there t (first-update q p f xs same (rw t at e))
]
  where
    unseen : q (if p y then f y else y) ≡ q y
    unseen = elim (Bool-cases (p y)) [ inl t ↦ rw t (same y) | inr t ↦ rw t ]

    here :
        q y ≡ true
        → some y ≡ some x
        → (if q (if p y then f y else y)
            then some (if p y then f y else y)
            else first q (update_where p f xs))
          ≡ some (if p x then f x else x)
    here t k = rw (unseen, t) (ap (λ o. some (if p o then f o else o)) (the_same k))
      where
        the_same : some y ≡ some x → y ≡ x
        the_same k = ground arith

    there :
        q y ≡ false
        → first q (update_where p f xs) ≡ some (if p x then f x else x)
        → (if q (if p y then f y else y)
            then some (if p y then f y else y)
            else first q (update_where p f xs))
          ≡ some (if p x then f x else x)
    there t k = rw (unseen, t) k
