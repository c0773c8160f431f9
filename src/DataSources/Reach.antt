-- ===== src/DataSources/Reach.antt =====
-- db_sources.py, `expand_with_connectors`: what the walk reaches, and that it ends.
use pdc_client.Base.{
  ℕ, zero, suc, ◌+◌, ◌-◌, ◌≤◌, ◌<◌, ◌≡◌, refl, ap, ◌⊎◌, inl, inr, Bool, true, not, ◌||◌, List, [],
  ◌∷◌, arith, leb, Bool-cases, Text, nat_Eq, text_Eq, pair_Eq,
}
use pdc_client.Base.Lists.{elem, length, all, length-append}
use pdc_client.Base.Dict.{Dict}
use pdc_client.DataSources.{Table}
use pdc_client.DataSources.Closure.{Walk, pulls, neighbors, add, visit, walk}

pub all_mono {ℓ} :
    {A : Type ℓ} (p q : A → Bool)
    → ((x : A) → p x ≡ true → q x ≡ true)
    → (xs : List A) → all p xs ≡ true
    → all q xs ≡ true
unfolding all
all_mono p q f [] h = refl
all_mono p q f (x ∷ xs) h = ground (arith, h, f x, all_mono p q f xs)

list_cases {ℓ} : {A : Type ℓ} (xs : List A) → (xs ≡ []) ⊎ ((x : A) × (ys : List A) × (xs ≡ x ∷ ys))
list_cases [] = inl refl
list_cases (x ∷ ys) = inr (x, ys, refl)

length_nil {ℓ} : {A : Type ℓ} (xs : List A) → length xs ≤ 0 → xs ≡ []
length_nil [] h = refl
length_nil (x ∷ xs) h = ground (arith, h)

module _ (d : Dict Text Table) (personal : List Text) (cap : ℕ) where
  abbrev pub is_old : Text → Walk → Bool
  is_old n w = elem n w.result || not (pulls d personal n)

  -- What holds of the walk and is kept by each of its steps holds after the neighbours.
  pub visit_keeps {κ} :
      (P : Walk → Type κ)
      → ((n : Text) (w : Walk)
          → pulls d personal n ≡ true
          → w.auto_added < cap
          → P w
          → P (add d personal cap n w))
      → ((w : Walk) → cap ≤ w.auto_added → P w → P (record w { queue = [] }))
      → (ns : List Text) (w : Walk) → P w
      → P (visit d personal cap ns w)
  unfolding visit
  visit_keeps P taken stopped [] w h = h
  visit_keeps P taken stopped (n ∷ ns) w h = elim (Bool-cases (is_old n w)) [
    | inl old ↦ rw old (visit_keeps P taken stopped ns w h)
    | inr new ↦ elim (Bool-cases (leb cap w.auto_added)) [
      | inl full ↦ rw (new, full) (stopped w (ground arith) h)
      | inr room ↦
          rw (new, room)
            (visit_keeps P taken stopped ns (add d personal cap n w)
              (taken n w (ground (arith, new)) (ground (arith, room)) h))
    ]
  ]

  -- What the walk still can do: the queue, and the connectors left to the cap.
  unfoldable pub work : Walk → ℕ
  work w = length w.queue + (cap - w.auto_added)

  unfoldable pub IsBounded : ℕ → Walk → Type 0
  IsBounded m w = (w.auto_added ≤ cap) × (work w ≤ m)

  add-IsBounded :
      (m : ℕ) (n : Text) (w : Walk)
      → pulls d personal n ≡ true
      → w.auto_added < cap
      → IsBounded m w
      → IsBounded m (add d personal cap n w)
  unfolding IsBounded work add
  add-IsBounded m n w p r (a, b) = (omega arith, omega (arith, b, length-append w.queue (n ∷ [])))

  stop-IsBounded :
      (m : ℕ) (w : Walk)
      → cap ≤ w.auto_added
      → IsBounded m w
      → IsBounded m (record w { queue = [] })
  unfolding IsBounded work
  stop-IsBounded m w f (a, b) = (a, omega (arith, b))

  visit-IsBounded :
      (m : ℕ) (ns : List Text) (w : Walk) → IsBounded m w → IsBounded m (visit d personal cap ns w)
  visit-IsBounded m = visit_keeps (IsBounded m) (add-IsBounded m) (stop-IsBounded m)

  -- Every table is a choice of the user or a connector that may be pulled in.
  unfoldable pub is_reached : List Text → Text → Bool
  is_reached seeds tid = elem tid seeds || pulls d personal tid

  unfoldable pub AllReached : List Text → Walk → Type 0
  AllReached seeds w = all (is_reached seeds) w.result ≡ true

  add-AllReached :
      (seeds : List Text) (n : Text) (w : Walk)
      → pulls d personal n ≡ true
      → w.auto_added < cap
      → AllReached seeds w
      → AllReached seeds (add d personal cap n w)
  unfolding AllReached is_reached add all
  add-AllReached seeds n w p r h = ground (arith, p, h)

  visit-AllReached :
      (seeds ns : List Text) (w : Walk)
      → AllReached seeds w
      → AllReached seeds (visit d personal cap ns w)
  unfolding AllReached
  visit-AllReached seeds = visit_keeps (AllReached seeds) (add-AllReached seeds) (λ w f h. h)

  module _ (es : List (Text × Text)) where
    unfoldable pub after_visit : Text → List Text → Walk → Walk
    after_visit tid rest w = visit d personal cap (neighbors es tid) (record w { queue = rest })

    -- What each turn of the outer loop keeps holds at its end.
    pub walk_keeps {κ} :
        (P : Walk → Type κ)
        → ((tid : Text) (rest : List Text) (w : Walk)
            → w.queue ≡ tid ∷ rest
            → P w
            → P (after_visit tid rest w))
        → (fuel : ℕ) (w : Walk) → P w
        → P (walk d personal cap es fuel w)
    unfolding walk after_visit
    walk_keeps P turn zero w h = h
    walk_keeps P turn (suc fuel) w h = elim (list_cases w.queue) [
      | inl done ↦ rw (done, walk) h
      | inr (tid, rest, more) ↦
          rw (more, walk) (walk_keeps P turn fuel (after_visit tid rest w) (turn tid rest w more h))
    ]

    -- A turn takes one table from the queue.
    turn-IsBounded :
        (fuel : ℕ) (tid : Text) (rest : List Text) (w : Walk)
        → w.queue ≡ tid ∷ rest
        → IsBounded (suc fuel) w
        → IsBounded fuel (after_visit tid rest w)
    unfolding after_visit
    turn-IsBounded fuel tid rest w q b =
        visit-IsBounded fuel (neighbors es tid) (record w { queue = rest })
          (unfold IsBounded in unfold work in (b.0, omega (arith, b.1, ap length q)))

    pub walk_ends :
        (fuel : ℕ) (w : Walk) → IsBounded fuel w → (walk d personal cap es fuel w).queue ≡ []
    unfolding walk after_visit
    walk_ends zero w h = length_nil w.queue (unfold IsBounded in unfold work in omega (arith, h.1))
    walk_ends (suc fuel) w h = elim (list_cases w.queue) [
      | inl done ↦ rw (done, walk) done
      | inr (tid, rest, more) ↦
          rw (more, walk)
            (walk_ends fuel (after_visit tid rest w) (turn-IsBounded fuel tid rest w more h))
    ]

    pub walk-AllReached :
        (seeds : List Text) (fuel : ℕ) (w : Walk)
        → AllReached seeds w
        → AllReached seeds (walk d personal cap es fuel w)
    unfolding after_visit
    walk-AllReached seeds = walk_keeps (AllReached seeds) (λ tid rest w q h.
        visit-AllReached seeds (neighbors es tid) (record w { queue = rest })
          (unfold AllReached in h))
