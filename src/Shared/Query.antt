-- ===== src/Shared/Query.antt =====
-- Queries over several tables, and ordered results.
use Prim.Native.String.{String, compare}
use text.Mathlib.Text.{is_le}
use mathlib.Core.Bool.{Bool, true, ◌&&◌}
use mathlib.Core.List.{List, [], ◌∷◌, ◌++◌, Memᴰ}
use mathlib.Core.List.Memᴰ
use mathlib.Core.Logic.{◌⊎◌, inl, inr}
use mathlib.Core.Path.{◌≡◌, refl, subst}
use editingtab_platform_core.Shared.Tests.{if◌then◌else◌, str_eq, str_eq→≡, str_eq_refl, Bool-cases}
use editingtab_platform_core.Shared.Lists.{where_, any, all}
use editingtab_platform_core.Shared.Members.{
  where-Memᴰ, Memᴰ-where, any-Memᴰ, Memᴰ-any, all-Memᴰ, Memᴰ-all,
}

-- The rows of a join: for each row of the first table, the rows that belong to it.
unfoldable pub join {ℓ κ} : {A : Type ℓ} {B : Type κ} → List A → (A → List B) → List B
join [] f = []
join (x ∷ xs) f = f x ++ join xs f

module _ {ℓ κ} {A : Type ℓ} {B : Type κ} (f : A → List B) where
  pub Memᴰ-join : {x : A} {y : B} (xs : List A) → Memᴰ x xs → Memᴰ y (f x) → Memᴰ y (join xs f)
  unfolding join
  Memᴰ-join {y = y} [] x3 k = elim x3 [ ]
  Memᴰ-join {y = y} (z ∷ xs) (Memᴰ.head e) k =
      Memᴰ.append_left (join xs f) (subst (λ w. Memᴰ y (f w)) e k)
  Memᴰ-join (z ∷ xs) (Memᴰ.tail m) k = Memᴰ.append_right (f z) (Memᴰ-join xs m k)

  join_cases :
      {y : B} (x : A) (xs : List A)
      → (Memᴰ y (join xs f) → (z : A) × Memᴰ z xs × Memᴰ y (f z))
      → Memᴰ y (f x) ⊎ Memᴰ y (join xs f)
      → (z : A) × Memᴰ z (x ∷ xs) × Memᴰ y (f z)
  join_cases x xs ih (inl m) = (x, Memᴰ.head refl, m)
  join_cases x xs ih (inr m) = let (z, k, q) = ih m in (z, Memᴰ.tail k, q)

  pub join-Memᴰ : {y : B} (xs : List A) → Memᴰ y (join xs f) → (x : A) × Memᴰ x xs × Memᴰ y (f x)
  unfolding join
  join-Memᴰ [] m = elim m [ ]
  join-Memᴰ (x ∷ xs) m = join_cases x xs (λ k. join-Memᴰ xs k) (Memᴰ.append_cases (f x) m)

module _ {ℓ κ μ} {A : Type ℓ} {B : Type κ} {C : Type μ} where
  -- A row of a join over the selected rows comes from one of them.
  pub join_where :
      (q : A → Bool) (xs : List A) (f : A → List B) {y : B}
      → Memᴰ y (join (where_ q xs) f)
      → ((x : A) → Memᴰ x xs → q x ≡ true → Memᴰ y (f x) → C)
      → C
  join_where q xs f m k =
      let (x, mx, my) = join-Memᴰ f (where_ q xs) m in let (n, e) = where-Memᴰ q xs mx in k x n e my

pub Memᴰ-join_where {ℓ κ} :
    {A : Type ℓ} {B : Type κ} (q : A → Bool) (xs : List A) (f : A → List B) {x : A} {y : B}
    → Memᴰ x xs
    → q x ≡ true
    → Memᴰ y (f x)
    → Memᴰ y (join (where_ q xs) f)
Memᴰ-join_where q xs f m e my = Memᴰ-join f (where_ q xs) (Memᴰ-where q xs m e) my

-- `code in codes`
unfoldable pub contains : List String → String → Bool
contains xs c = any (str_eq c) xs

-- `xs <= ys` on sets
unfoldable pub subset : List String → List String → Bool
subset xs ys = all (contains ys) xs

-- `xs == ys` on sets
unfoldable pub same_set : List String → List String → Bool
same_set xs ys = subset xs ys && subset ys xs

pub contains-Memᴰ : {c : String} (xs : List String) → contains xs c ≡ true → Memᴰ c xs
unfolding contains
contains-Memᴰ {c} xs h = let (x, m, e) = any-Memᴰ (str_eq c) xs h in Memᴰ.cast (str_eq→≡ c x e) m

pub Memᴰ-contains : {c : String} (xs : List String) → Memᴰ c xs → contains xs c ≡ true
unfolding contains
Memᴰ-contains {c} xs m = Memᴰ-any (str_eq c) xs m (str_eq_refl c)

pub subset-Memᴰ : {c : String} (xs ys : List String) → subset xs ys ≡ true → Memᴰ c xs → Memᴰ c ys
unfolding subset
subset-Memᴰ xs ys h m = contains-Memᴰ ys (all-Memᴰ (contains ys) xs h m)

pub Memᴰ-subset :
    (xs ys : List String) → ((c : String) → Memᴰ c xs → Memᴰ c ys) → subset xs ys ≡ true
unfolding subset
Memᴰ-subset xs ys h = Memᴰ-all (contains ys) xs (λ c m. Memᴰ-contains ys (h c m))

-- An `order by`, or Python's `sorted`: a stable sort by the given order.
module _ {ℓ} {A : Type ℓ} (le : A → A → Bool) where
  unfoldable pub insert_by : A → List A → List A
  insert_by x [] = x ∷ []
  insert_by x (y ∷ ys) = let rest = insert_by x ys in if le x y then x ∷ y ∷ ys else y ∷ rest

  unfoldable pub order_by : List A → List A
  order_by [] = []
  order_by (x ∷ xs) = insert_by x (order_by xs)

  pub Memᴰ-insert_by : (x : A) (ys : List A) {y : A} → Memᴰ y (x ∷ ys) → Memᴰ y (insert_by x ys)
  unfolding insert_by
  Memᴰ-insert_by x [] m = m
  Memᴰ-insert_by x (z ∷ ys) (Memᴰ.head e) = elim (Bool-cases (le x z)) [
    | inl t ↦ rw t (Memᴰ.head e)
    | inr t ↦ rw t (Memᴰ.tail (Memᴰ-insert_by x ys (Memᴰ.head e)))
  ]
  Memᴰ-insert_by x (z ∷ ys) (Memᴰ.tail (Memᴰ.head e)) = elim (Bool-cases (le x z)) [
    | inl t ↦ rw t (Memᴰ.tail (Memᴰ.head e))
    | inr t ↦ rw t (Memᴰ.head e)
  ]
  Memᴰ-insert_by x (z ∷ ys) (Memᴰ.tail (Memᴰ.tail m)) = elim (Bool-cases (le x z)) [
    | inl t ↦ rw t (Memᴰ.tail (Memᴰ.tail m))
    | inr t ↦ rw t (Memᴰ.tail (Memᴰ-insert_by x ys (Memᴰ.tail m)))
  ]

  insert_by_tail :
      (x z : A) (ys : List A) {y : A}
      → (Memᴰ y (insert_by x ys) → Memᴰ y (x ∷ ys))
      → Memᴰ y (z ∷ insert_by x ys)
      → Memᴰ y (x ∷ z ∷ ys)
  insert_by_tail x z ys ih (Memᴰ.head e) = Memᴰ.tail (Memᴰ.head e)
  insert_by_tail x z ys ih (Memᴰ.tail m) = elim (Memᴰ.cases_cons (ih m)) [
    | inl e ↦ Memᴰ.head e
    | inr k ↦ Memᴰ.tail (Memᴰ.tail k)
  ]

  pub insert_by-Memᴰ : (x : A) (ys : List A) {y : A} → Memᴰ y (insert_by x ys) → Memᴰ y (x ∷ ys)
  unfolding insert_by
  insert_by-Memᴰ x [] m = m
  insert_by-Memᴰ x (z ∷ ys) m = elim (Bool-cases (le x z)) [
    | inl t ↦ rw t at m
    | inr t ↦ insert_by_tail x z ys (λ k. insert_by-Memᴰ x ys k) (rw t at m)
  ]

  -- Sorting neither adds nor loses a row.
  pub Memᴰ-order_by : {x : A} (xs : List A) → Memᴰ x xs → Memᴰ x (order_by xs)
  unfolding order_by
  Memᴰ-order_by [] x'' = elim x'' [ ]
  Memᴰ-order_by (y ∷ xs) (Memᴰ.head e) = Memᴰ-insert_by y (order_by xs) (Memᴰ.head e)
  Memᴰ-order_by (y ∷ xs) (Memᴰ.tail m) =
      Memᴰ-insert_by y (order_by xs) (Memᴰ.tail (Memᴰ-order_by xs m))

  order_by_cases :
      (y : A) (xs : List A) {x : A}
      → (Memᴰ x (order_by xs) → Memᴰ x xs)
      → Memᴰ x (y ∷ order_by xs)
      → Memᴰ x (y ∷ xs)
  order_by_cases y xs ih (Memᴰ.head e) = Memᴰ.head e
  order_by_cases y xs ih (Memᴰ.tail m) = Memᴰ.tail (ih m)

  pub order_by-Memᴰ : {x : A} (xs : List A) → Memᴰ x (order_by xs) → Memᴰ x xs
  unfolding order_by
  order_by-Memᴰ [] m = m
  order_by-Memᴰ (y ∷ xs) m =
      order_by_cases y xs (λ k. order_by-Memᴰ xs k) (insert_by-Memᴰ y (order_by xs) m)

-- The order of codes.
abbrev pub str_le : String → String → Bool
str_le s t = is_le (compare s t)
