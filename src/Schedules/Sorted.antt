-- ===== src/Schedules/Sorted.antt =====
-- schedule_utils.py: what `sorted` keeps of a list of days.
use pdc_client.Base.{
  ℕ, ◌≡◌, refl, Bool, true, false, ◌&&◌, ◌||◌, List, [], ◌∷◌, arith, leb, ◌==◌, nat_Eq, text_Eq,
  pair_Eq,
}
use pdc_client.Base.Lists.{elem, distinct, all, is_nil}
use pdc_client.Schedules.Validate.{insert_sorted, sorted}

unfoldable pub ascending : List ℕ → Bool
ascending [] = true
ascending (x ∷ []) = true
ascending (x ∷ y ∷ xs) = leb x y && ascending (y ∷ xs)

ascending-insert_sorted :
    (a : ℕ) (xs : List ℕ) → ascending xs ≡ true → ascending (insert_sorted a xs) ≡ true
unfolding ascending insert_sorted
ascending-insert_sorted a [] h = refl
ascending-insert_sorted a (x ∷ []) h = ground arith
ascending-insert_sorted a (x ∷ y ∷ xs) h = ground (arith, ascending-insert_sorted a (y ∷ xs))

pub ascending-sorted : (xs : List ℕ) → ascending (sorted xs) ≡ true
unfolding sorted ascending
ascending-sorted [] = refl
ascending-sorted (x ∷ xs) = ascending-insert_sorted x (sorted xs) (ascending-sorted xs)

sorted-ascending : (xs : List ℕ) → ascending xs ≡ true → sorted xs ≡ xs
unfolding ascending sorted insert_sorted
sorted-ascending [] h = refl
sorted-ascending (x ∷ []) h = refl
sorted-ascending (x ∷ y ∷ xs) h = rw (sorted-ascending (y ∷ xs) (ground arith)) (ground arith)

pub sorted_idem : (xs : List ℕ) → sorted (sorted xs) ≡ sorted xs
sorted_idem xs = sorted-ascending (sorted xs) (ascending-sorted xs)

elem-insert_sorted : (b a : ℕ) (xs : List ℕ) → elem b (insert_sorted a xs) ≡ (a == b || elem b xs)
unfolding elem insert_sorted
elem-insert_sorted b a [] = refl
elem-insert_sorted b a (x ∷ xs) = ground (arith, elem-insert_sorted b a xs)

pub elem-sorted : (b : ℕ) (xs : List ℕ) → elem b (sorted xs) ≡ elem b xs
unfolding elem sorted
elem-sorted b [] = refl
elem-sorted b (x ∷ xs) = ground (arith, elem-insert_sorted b x (sorted xs), elem-sorted b xs)

distinct-insert_sorted :
    (a : ℕ) (xs : List ℕ)
    → distinct xs ≡ true
    → elem a xs ≡ false
    → distinct (insert_sorted a xs) ≡ true
unfolding distinct elem insert_sorted
distinct-insert_sorted a [] h n = refl
distinct-insert_sorted a (x ∷ xs) h n =
    ground (arith, distinct-insert_sorted a xs, elem-insert_sorted x a xs)

pub distinct-sorted : (xs : List ℕ) → distinct xs ≡ true → distinct (sorted xs) ≡ true
unfolding distinct sorted
distinct-sorted [] h = refl
distinct-sorted (x ∷ xs) h =
    ground (arith, distinct-insert_sorted x (sorted xs), distinct-sorted xs, elem-sorted x xs)

all-insert_sorted :
    (p : ℕ → Bool) (a : ℕ) (xs : List ℕ) → all p (insert_sorted a xs) ≡ (p a && all p xs)
unfolding all insert_sorted
all-insert_sorted p a [] = refl
all-insert_sorted p a (x ∷ xs) = ground (arith, all-insert_sorted p a xs)

pub all-sorted : (p : ℕ → Bool) (xs : List ℕ) → all p (sorted xs) ≡ all p xs
unfolding all sorted
all-sorted p [] = refl
all-sorted p (x ∷ xs) = ground (arith, all-insert_sorted p x (sorted xs), all-sorted p xs)

is_nil-insert_sorted : (a : ℕ) (xs : List ℕ) → is_nil (insert_sorted a xs) ≡ false
unfolding insert_sorted
is_nil-insert_sorted a [] = refl
is_nil-insert_sorted a (x ∷ xs) = ground arith

pub is_nil-sorted : (xs : List ℕ) → is_nil (sorted xs) ≡ is_nil xs
unfolding sorted
is_nil-sorted [] = refl
is_nil-sorted (x ∷ xs) = is_nil-insert_sorted x (sorted xs)
