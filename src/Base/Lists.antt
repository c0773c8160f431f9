-- ===== src/Base/Lists.antt =====
-- Lists measured by native numbers, membership by a test, and predicates over lists.
use Prim.Native.Nat.{ℕ, zero, suc, ◌+◌, ◌≤◌}
use mathlib.Core.Path.{◌≡◌, refl}
use mathlib.Core.Bool.{Bool, true, false, not, ◌&&◌, ◌||◌}
use mathlib.Core.List.{List, [], ◌∷◌, ◌++◌}
use native.Mathlib.Omega.{arith}
use pdc_client.Base.Bools.{if◌then◌else◌}
use pdc_client.Base.Keys.{Eq}

module _ {ℓ} {A : Type ℓ} where
  abbrev pub length : List A → ℕ
  length [] = 0
  length (x ∷ xs) = suc (length xs)

  abbrev pub take : ℕ → List A → List A
  take zero xs = []
  take (suc n) [] = []
  take (suc n) (x ∷ xs) = x ∷ take n xs

  abbrev pub is_nil : List A → Bool
  is_nil [] = true
  is_nil (x ∷ xs) = false

  -- `[x for x in xs if p(x)]`
  unfoldable pub filter : (A → Bool) → List A → List A
  filter p [] = []
  filter p (x ∷ xs) = let rest = filter p xs in if p x then x ∷ rest else rest

  -- `any(p(x) for x in xs)`
  unfoldable pub any : (A → Bool) → List A → Bool
  any p [] = false
  any p (x ∷ xs) = p x || any p xs

  unfoldable pub all : (A → Bool) → List A → Bool
  all p [] = true
  all p (x ∷ xs) = p x && all p xs

  abbrev pub All {κ} : (A → Type κ) → List A → Type κ
  All P [] = Unit
  All P (x ∷ xs) = P x × All P xs

  pub length-append : (xs ys : List A) → length (xs ++ ys) ≡ length xs + length ys
  length-append [] ys = omega arith
  length-append (x ∷ xs) ys = omega (arith, length-append xs ys)

  pub length-filter : (p : A → Bool) (xs : List A) → length (filter p xs) ≤ length xs
  unfolding filter
  length-filter p [] = omega arith
  length-filter p (x ∷ xs) = ground (arith, length-filter p xs)

  pub any-append : (p : A → Bool) (xs ys : List A) → any p (xs ++ ys) ≡ (any p xs || any p ys)
  unfolding any
  any-append p [] ys = refl
  any-append p (x ∷ xs) ys = ground (arith, any-append p xs ys)

  pub all-append : (p : A → Bool) (xs ys : List A) → all p (xs ++ ys) ≡ (all p xs && all p ys)
  unfolding all
  all-append p [] ys = refl
  all-append p (x ∷ xs) ys = ground (arith, all-append p xs ys)

  pub all-filter : (p : A → Bool) (xs : List A) → all p (filter p xs) ≡ true
  unfolding all filter
  all-filter p [] = refl
  all-filter p (x ∷ xs) = ground (arith, all-filter p xs)

  pub filter-all : (p : A → Bool) (xs : List A) → all p xs ≡ true → filter p xs ≡ xs
  unfolding all filter
  filter-all p [] h = refl
  filter-all p (x ∷ xs) h = ground (arith, filter-all p xs)

  pub filter_idem : (p : A → Bool) (xs : List A) → filter p (filter p xs) ≡ filter p xs
  filter_idem p xs = filter-all p (filter p xs) (all-filter p xs)

  pub filter_comm : (p q : A → Bool) (xs : List A) → filter p (filter q xs) ≡ filter q (filter p xs)
  unfolding filter
  filter_comm p q [] = refl
  filter_comm p q (x ∷ xs) = ground (arith, filter_comm p q xs)

  -- A filter that keeps the length keeps every element.
  pub filter-length :
      (p : A → Bool) (xs : List A) → length (filter p xs) ≡ length xs → filter p xs ≡ xs
  unfolding filter
  filter-length p [] h = refl
  filter-length p (x ∷ xs) h = ground (arith, h, filter-length p xs, length-filter p xs)

module _ {ℓ} {A : Type ℓ} ⦃e : Eq A⦄ where
  -- `a in xs`
  unfoldable pub elem : A → List A → Bool
  elem a [] = false
  elem a (x ∷ xs) = e.beq x a || elem a xs

  pub elem-append : (a : A) (xs ys : List A) → elem a (xs ++ ys) ≡ (elem a xs || elem a ys)
  unfolding elem
  elem-append a [] ys = refl
  elem-append a (x ∷ xs) ys = ground (arith, elem-append a xs ys)

  pub elem-filter : (p : A → Bool) (a : A) (xs : List A) → elem a (filter p xs) ≡ (p a && elem a xs)
  unfolding elem filter
  elem-filter p a [] = ground arith
  elem-filter p a (x ∷ xs) = ground (arith, elem-filter p a xs, e.beq_iff x a)

  -- `if x not in xs: xs.append(x)`
  abbrev pub add_new : A → List A → List A
  add_new a xs = if elem a xs then xs else xs ++ a ∷ []

  unfoldable pub add_all : List A → List A → List A
  add_all [] xs = xs
  add_all (a ∷ bs) xs = add_all bs (add_new a xs)

  -- No element twice, as a test.
  unfoldable pub distinct : List A → Bool
  distinct [] = true
  distinct (x ∷ xs) = not (elem x xs) && distinct xs

  pub distinct-concat :
      (a : A) (xs : List A)
      → distinct xs ≡ true
      → elem a xs ≡ false
      → distinct (xs ++ a ∷ []) ≡ true
  unfolding distinct elem
  distinct-concat a [] h n = refl
  distinct-concat a (x ∷ xs) h n =
      ground (arith, distinct-concat a xs, elem-append x xs (a ∷ []), e.beq_iff x a, e.beq_iff a x)

  pub elem-add_new : (a b : A) (xs : List A) → elem b (add_new a xs) ≡ (elem b xs || e.beq a b)
  unfolding elem
  elem-add_new a b xs = ground (arith, elem-append b xs (a ∷ []), e.beq_iff a b)

  pub elem-add_all : (b : A) (bs xs : List A) → elem b (add_all bs xs) ≡ (elem b xs || elem b bs)
  unfolding add_all elem
  elem-add_all b [] xs = ground arith
  elem-add_all b (a ∷ bs) xs = ground (arith, elem-add_all b bs (add_new a xs), elem-add_new a b xs)
