-- ===== src/Base/Dict.antt =====
-- Python's `dict` and `OrderedDict`: entries in order, no key twice when built by `insert`.
use Prim.Native.Nat.{suc, ◌≤◌, ◌<◌}
use mathlib.Core.Path.{◌≡◌, refl}
use mathlib.Core.Logic.{inl, inr}
use mathlib.Core.Bool.{Bool, true, not, ◌&&◌}
use mathlib.Core.Option.{Option, none, some}
use mathlib.Core.List.{List, [], ◌∷◌, ◌++◌}
use native.Mathlib.Omega.{arith}
use pdc_client.Base.Bools.{if◌then◌else◌, is_some, Option-cases}
use pdc_client.Base.Keys.{Eq}
use pdc_client.Base.Lists.{length, length-append}

abbrev pub Dict {ℓ κ} : Type ℓ → Type κ → Type (ℓ ⊔ κ)
Dict K V = List (K × V)

module _ {ℓ κ} {K : Type ℓ} {V : Type κ} ⦃e : Eq K⦄ where
  -- `d.get(k)`
  unfoldable pub lookup : K → Dict K V → Option V
  lookup k [] = none
  lookup k ((j, v) ∷ d) = if e.beq j k then some v else lookup k d

  -- `d[k] = v`: in place when the key is there, at the end otherwise.
  unfoldable pub insert : K → V → Dict K V → Dict K V
  insert k v [] = (k, v) ∷ []
  insert k v ((j, w) ∷ d) = if e.beq j k then (j, v) ∷ d else (j, w) ∷ insert k v d

  -- `d.pop(k, None)`, `del d[k]`
  unfoldable pub erase : K → Dict K V → Dict K V
  erase k [] = []
  erase k ((j, v) ∷ d) = let rest = erase k d in if e.beq j k then rest else (j, v) ∷ rest

  -- `k in d`
  abbrev pub contains : K → Dict K V → Bool
  contains k d = is_some (lookup k d)

  -- `d.move_to_end(k)`
  unfoldable pub move_to_end : K → Dict K V → Dict K V
  move_to_end k d = elim (lookup k d) [ none ↦ d | some v ↦ erase k d ++ (k, v) ∷ [] ]

  pub lookup-insert :
      (k j : K) (v : V) (d : Dict K V)
      → lookup j (insert k v d) ≡ (if e.beq k j then some v else lookup j d)
  unfolding lookup insert
  lookup-insert k j v [] = refl
  lookup-insert k j v ((i, w) ∷ d) =
      ground (arith, lookup-insert k j v d, e.beq_iff i k, e.beq_iff i j, e.beq_iff k j)

  pub lookup-erase :
      (k j : K) (d : Dict K V) → lookup j (erase k d) ≡ (if e.beq k j then none else lookup j d)
  unfolding lookup erase
  lookup-erase k j [] = ground arith
  lookup-erase k j ((i, w) ∷ d) =
      ground (arith, lookup-erase k j d, e.beq_iff i k, e.beq_iff i j, e.beq_iff k j)

  lookup-append_one :
      (k j : K) (v : V) (d : Dict K V)
      → lookup k d ≡ none
      → lookup j (d ++ (k, v) ∷ []) ≡ (if e.beq k j then some v else lookup j d)
  unfolding lookup
  lookup-append_one k j v [] h = refl
  lookup-append_one k j v ((i, w) ∷ d) h =
      ground (arith, lookup-append_one k j v d, e.beq_iff i k, e.beq_iff i j, e.beq_iff k j)

  -- Touching a key changes the order only.
  pub lookup-move_to_end : (k j : K) (d : Dict K V) → lookup j (move_to_end k d) ≡ lookup j d
  unfolding move_to_end
  lookup-move_to_end k j d = elim (Option-cases (lookup k d)) [
    | inl absent ↦ rw (absent, move_to_end)
    | inr (v, found) ↦
        rw (found, move_to_end)
          (ground (
            arith,
            lookup-append_one k j v (erase k d),
            lookup-erase k k d,
            lookup-erase k j d,
            e.beq_iff k j,
            e.beq_iff k k,
          ))
  ]

  pub length-erase : (k : K) (d : Dict K V) → length (erase k d) ≤ length d
  unfolding erase
  length-erase k [] = omega arith
  length-erase k ((j, v) ∷ d) = ground (arith, length-erase k d)

  pub length-erase_lt : (k : K) (d : Dict K V) → contains k d ≡ true → length (erase k d) < length d
  unfolding erase lookup
  length-erase_lt k [] h = cc
  length-erase_lt k ((j, v) ∷ d) h = ground (arith, length-erase_lt k d, length-erase k d)

  pub length-insert :
      (k : K) (v : V) (d : Dict K V)
      → length (insert k v d) ≡ (if contains k d then length d else suc (length d))
  unfolding insert lookup
  length-insert k v [] = refl
  length-insert k v ((j, w) ∷ d) = ground (arith, length-insert k v d)

  -- No key twice, which is what a Python dictionary is.
  unfoldable pub distinct_keys : Dict K V → Bool
  distinct_keys [] = true
  distinct_keys ((k, v) ∷ d) = not (contains k d) && distinct_keys d

  pub distinct_keys-insert :
      (k : K) (v : V) (d : Dict K V) → distinct_keys d ≡ true → distinct_keys (insert k v d) ≡ true
  unfolding distinct_keys insert lookup
  distinct_keys-insert k v [] h = refl
  distinct_keys-insert k v ((j, w) ∷ d) h =
      ground
        (arith, distinct_keys-insert k v d, lookup-insert k j v d, e.beq_iff j k, e.beq_iff k j)

  pub distinct_keys-erase :
      (k : K) (d : Dict K V) → distinct_keys d ≡ true → distinct_keys (erase k d) ≡ true
  unfolding distinct_keys erase lookup
  distinct_keys-erase k [] h = refl
  distinct_keys-erase k ((j, w) ∷ d) h = ground (arith, distinct_keys-erase k d, lookup-erase k j d)

  distinct_keys-append_one :
      (k : K) (v : V) (d : Dict K V)
      → distinct_keys d ≡ true
      → lookup k d ≡ none
      → distinct_keys (d ++ (k, v) ∷ []) ≡ true
  unfolding distinct_keys lookup
  distinct_keys-append_one k v [] h n = refl
  distinct_keys-append_one k v ((j, w) ∷ d) h n = ground (
    arith,
    distinct_keys-append_one k v d,
    lookup-append_one k j v d,
    e.beq_iff j k,
    e.beq_iff k j,
  )

  pub distinct_keys-move_to_end :
      (k : K) (d : Dict K V) → distinct_keys d ≡ true → distinct_keys (move_to_end k d) ≡ true
  distinct_keys-move_to_end k d h = elim (Option-cases (lookup k d)) [
    | inl absent ↦ unfold move_to_end in rw (absent, move_to_end) h
    | inr (v, found) ↦
        unfold move_to_end in
        rw (found, move_to_end)
          (distinct_keys-append_one k v (erase k d) (distinct_keys-erase k d h)
            (ground (arith, lookup-erase k k d, e.beq_iff k k)))
  ]

  pub length-move_to_end : (k : K) (d : Dict K V) → length (move_to_end k d) ≤ length d
  unfolding move_to_end
  length-move_to_end k d = elim (Option-cases (lookup k d)) [
    | inl absent ↦ rw (absent, move_to_end) (omega arith)
    | inr (v, found) ↦
        rw (found, move_to_end)
          (omega (arith, length-append (erase k d) ((k, v) ∷ []), length-erase_lt k d (rw found)))
  ]

  erase_absent : (k : K) (d : Dict K V) → lookup k d ≡ none → erase k d ≡ d
  unfolding erase lookup
  erase_absent k [] h = refl
  erase_absent k ((j, v) ∷ d) h = ground (arith, erase_absent k d)

  -- Deleting a key takes out one entry at most.
  pub length-le-erase :
      (k : K) (d : Dict K V) → distinct_keys d ≡ true → length d ≤ suc (length (erase k d))
  unfolding distinct_keys erase
  length-le-erase k [] h = omega arith
  length-le-erase k ((j, v) ∷ d) h =
      ground (arith, length-le-erase k d, erase_absent k d, e.beq_iff j k)
