-- ===== src/AuthLimiter/Sound.antt =====
-- The invariant of one space of auth_limiter.py, and the space operations that keep it.
use pdc_client.Base.{
  ℕ, zero, suc, ◌+◌, ◌≤◌, ◌<◌, ◌≡◌, refl, true, Option, none, some, [], ◌∷◌, inl, inr, ◌⊎◌, Text,
  str_eq, str_eq_iff, text_Eq, arith, Option-cases, ltb, if_both, ◌==◌,
}
use pdc_client.Base.Lists.{length}
use pdc_client.Base.Dict.{
  lookup, contains, insert, erase, move_to_end, distinct_keys, lookup-insert, lookup-erase,
  lookup-move_to_end, length-erase_lt, distinct_keys-insert, distinct_keys-erase,
  distinct_keys-move_to_end, length-le-erase,
}
use pdc_client.AuthLimiter.Eviction.{lookup-evict_one_keep}
use pdc_client.AuthLimiter.{Entry, Space, Config, ip_space, evicted, evict_one, shrink, limit_of}

-- A key stands once, and a peer's entry carries no lockout.
pub record IsKeyed (name : Text) (space : Space) : Type 0 where
  pub unique : distinct_keys space ≡ true
  pub unlocked :
      (k : Text) (entry : Entry)
      → str_eq name ip_space ≡ true
      → lookup k space ≡ some entry
      → entry.locked_until ≡ 0

pub record IsSpaceSound (cfg : Config) (name : Text) (space : Space) : Type 0 where
  pub keyed : IsKeyed name space
  pub fits : length space ≤ limit_of cfg

module _ {name : Text} where
  pub erase-IsKeyed : (k : Text) {space : Space} → IsKeyed name space → IsKeyed name (erase k space)
  erase-IsKeyed k {space} h = record {
    unique = distinct_keys-erase k space h.unique;
    unlocked = λ j entry ip found. h.unlocked j entry ip (ground (arith, lookup-erase k j space));
  }

  pub move_to_end-IsKeyed :
      (k : Text) {space : Space} → IsKeyed name space → IsKeyed name (move_to_end k space)
  move_to_end-IsKeyed k {space} h = record {
    unique = distinct_keys-move_to_end k space h.unique;
    unlocked =
        λ j entry ip found. h.unlocked j entry ip (ground (arith, lookup-move_to_end k j space));
  }

  pub insert-IsKeyed :
      (k : Text) (entry : Entry) {space : Space}
      → (str_eq name ip_space ≡ true → entry.locked_until ≡ 0)
      → IsKeyed name space
      → IsKeyed name (insert k entry space)
  insert-IsKeyed k entry {space} u h = record {
    unique = distinct_keys-insert k entry space h.unique;
    unlocked =
        λ j found ip at. ground (arith, lookup-insert k j entry space, h.unlocked j found, u ip);
  }

  evict_one-IsKeyed :
      (keep : Text) (now : ℕ) (space : Space)
      → IsKeyed name space
      → IsKeyed name (evict_one space keep now)
  unfolding evict_one
  evict_one-IsKeyed keep now space h = elim (Option-cases (evicted keep now none space)) [
    | inl nothing ↦ rw (nothing, evict_one) h
    | inr (k, found) ↦ rw (found, evict_one) (erase-IsKeyed k h)
  ]

  pub shrink-IsKeyed :
      (fuel limit : ℕ) (keep : Text) (now : ℕ) (space : Space)
      → IsKeyed name space
      → IsKeyed name (shrink fuel limit keep now space)
  unfolding shrink
  shrink-IsKeyed zero limit keep now space h = h
  shrink-IsKeyed (suc fuel) limit keep now space h =
      let next = evict_one space keep now in
      let one = evict_one-IsKeyed keep now space h in
      let rest = shrink-IsKeyed fuel limit keep now next one in
      if_both (IsKeyed name) (ltb limit (length space)) _ _
        (if_both (IsKeyed name) (length next == length space) _ _ one rest) h

-- What is deleted was there, or was the fallback.
evicted-cases :
    (keep : Text) (now : ℕ) (fallback : Option Text) (space : Space) (name : Text)
    → evicted keep now fallback space ≡ some name
    → (contains name space ≡ true) ⊎ (fallback ≡ some name)
unfolding evicted lookup
evicted-cases keep now fallback [] name p = inr p
evicted-cases keep now none ((n, e) ∷ space) name p = ground (
  arith,
  evicted-cases keep now none space name,
  evicted-cases keep now (some n) space name,
  str_eq_iff n name,
)
evicted-cases keep now (some g) ((n, e) ∷ space) name p =
    ground (arith, evicted-cases keep now (some g) space name, str_eq_iff n name)

evicted-ne-none :
    (keep : Text) (now : ℕ) (fallback : Option Text) (space : Space)
    → evicted keep now fallback space ≡ none
    → (fallback ≡ none) × (length (erase keep space) ≡ 0)
unfolding evicted erase
evicted-ne-none keep now fallback [] p = (p, refl)
evicted-ne-none keep now none ((n, e) ∷ space) p =
    ground (arith, evicted-ne-none keep now none space, evicted-ne-none keep now (some n) space)
evicted-ne-none keep now (some g) ((n, e) ∷ space) p =
    ground (arith, evicted-ne-none keep now (some g) space)

length-evict_one :
    (keep : Text) (now : ℕ) (space : Space)
    → distinct_keys space ≡ true
    → 1 < length space
    → length (evict_one space keep now) < length space
unfolding evict_one
length-evict_one keep now space d h = elim (Option-cases (evicted keep now none space)) [
  | inl nothing ↦
      let only = evicted-ne-none keep now none space nothing in
      absurd (omega (arith, only.1, length-le-erase keep space d))
  | inr (k, found) ↦
      rw (found, evict_one)
        (length-erase_lt k space (ground (arith, evicted-cases keep now none space k found)))
]

-- With the length as fuel the loop of `_create` ends at or below the limit.
pub length-shrink :
    (name : Text) (fuel limit : ℕ) (keep : Text) (now : ℕ) (space : Space)
    → IsKeyed name space
    → 1 ≤ limit
    → length space ≤ limit + fuel
    → length (shrink fuel limit keep now space) ≤ limit
unfolding shrink
length-shrink name zero limit keep now space h l f = omega arith
length-shrink name (suc fuel) limit keep now space h l f =
    let next = evict_one space keep now in
    ground (
      arith,
      length-evict_one keep now space h.unique,
      length-shrink name fuel limit keep now next (evict_one-IsKeyed keep now space h) l,
    )

pub lookup-shrink :
    (fuel limit : ℕ) (keep : Text) (now : ℕ) (space : Space)
    → lookup keep (shrink fuel limit keep now space) ≡ lookup keep space
unfolding shrink
lookup-shrink zero limit keep now space = refl
lookup-shrink (suc fuel) limit keep now space = ground (
  arith,
  lookup-evict_one_keep space keep now,
  lookup-shrink fuel limit keep now (evict_one space keep now),
)
