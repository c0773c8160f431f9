-- ===== src/DataSources/Explored.antt =====
-- db_sources.py, `expand_with_connectors`: below its cap the walk explores every table that it reaches.
use pdc_client.Base.{
  ℕ, ◌≤◌, ◌<◌, ◌≡◌, sym, ap, ◌∙◌, inl, inr, Bool, true, not, ◌||◌, List, [], ◌∷◌, ◌++◌, arith, leb,
  Bool-cases, Text, str_eq_iff, str_eq_refl, nat_Eq, text_Eq, pair_Eq, str_eq,
}
use pdc_client.Base.Lists.{elem, all, elem-append}
use pdc_client.Base.Dict.{Dict}
use pdc_client.DataSources.{Table}
use pdc_client.DataSources.Closure.{Walk, pulls, neighbors, add, visit, walk}
use pdc_client.DataSources.Reach.{all_mono, is_old, visit_keeps, after_visit, walk_keeps}

module _ (d : Dict Text Table) (personal : List Text) (cap : ℕ) (es : List (Text × Text)) where
  -- The connectors among the neighbours of a table are all in the result.
  unfoldable pub is_explored : List Text → Text → Bool
  is_explored res tid = all (λ n. not (pulls d personal n) || elem n res) (neighbors es tid)

  abbrev pub waits : List Text → List Text → Text → Bool
  waits q res tid = elem tid q || elem tid personal || is_explored res tid

  -- Unless the cap was met, every table of the result waits, is personal or is explored.
  unfoldable pub Explored : Walk → Type 0
  Explored w = leb cap w.auto_added || all (waits w.queue w.result) w.result ≡ true

  -- The same while one table is being explored.
  Exploring : Text → Walk → Type 0
  Exploring tid w =
      leb cap w.auto_added || all (λ t. str_eq t tid || waits w.queue w.result t) w.result ≡ true

  is_explored-grow :
      (n : Text) (res : List Text) (tid : Text)
      → is_explored res tid ≡ true
      → is_explored (n ∷ res) tid ≡ true
  unfolding is_explored elem
  is_explored-grow n res tid h =
      all_mono (λ m. not (pulls d personal m) || elem m res)
        (λ m. not (pulls d personal m) || elem m (n ∷ res)) (λ m e. ground (arith, e))
        (neighbors es tid) h

  waits-grow :
      (n : Text) (q res : List Text) (t : Text)
      → waits q res t ≡ true
      → waits (q ++ n ∷ []) (n ∷ res) t ≡ true
  waits-grow n q res t h = ground (arith, h, elem-append t q (n ∷ []), is_explored-grow n res t)

  waits_added : (n : Text) (q res : List Text) → waits (q ++ n ∷ []) res n ≡ true
  unfolding elem
  waits_added n q res = ground (arith, elem-append n q (n ∷ []), str_eq_refl n)

  abbrev here_or_waits : Text → List Text → List Text → Text → Bool
  here_or_waits tid q res t = str_eq t tid || waits q res t

  exploring_grow :
      (tid n : Text) (q res : List Text)
      → all (here_or_waits tid q res) res ≡ true
      → all (here_or_waits tid (q ++ n ∷ []) (n ∷ res)) (n ∷ res) ≡ true
  unfolding all
  exploring_grow tid n q res h = ground (
    arith,
    waits_added n q (n ∷ res),
    all_mono (here_or_waits tid q res) (here_or_waits tid (q ++ n ∷ []) (n ∷ res))
        (λ t e. ground (arith, e, waits-grow n q res t)) res h,
  )

  add-Exploring :
      (tid n : Text) (w : Walk)
      → pulls d personal n ≡ true
      → w.auto_added < cap
      → Exploring tid w
      → Exploring tid (add d personal cap n w)
  unfolding Exploring add
  add-Exploring tid n w p r h = ground (arith, r, h, exploring_grow tid n w.queue w.result)

  stop-Exploring :
      (tid : Text) (w : Walk)
      → cap ≤ w.auto_added
      → Exploring tid w
      → Exploring tid (record w { queue = [] })
  unfolding Exploring
  stop-Exploring tid w f h = ground (arith, f)

  visit-Exploring :
      (tid : Text) (ns : List Text) (w : Walk)
      → Exploring tid w
      → Exploring tid (visit d personal cap ns w)
  visit-Exploring tid =
      visit_keeps d personal cap (Exploring tid) (add-Exploring tid) (stop-Exploring tid)

  visit-elem :
      (m : Text) (ns : List Text) (w : Walk)
      → elem m w.result ≡ true
      → elem m (visit d personal cap ns w).result ≡ true
  visit-elem m =
      visit_keeps d personal cap (λ w. elem m w.result ≡ true)
        (λ n w p r h. unfold add in unfold elem in ground (arith, h)) (λ w f h. h)

  added_elem : (n : Text) (w : Walk) → elem n (add d personal cap n w).result ≡ true
  unfolding add elem
  added_elem n w = ground (arith, str_eq_refl n)

  -- Once the cap is met it stays met.
  visit-full :
      (ns : List Text) (w : Walk)
      → leb cap w.auto_added ≡ true
      → leb cap (visit d personal cap ns w).auto_added ≡ true
  visit-full =
      visit_keeps d personal cap (λ w. leb cap w.auto_added ≡ true)
        (λ n w p r h. unfold add in ground (arith, h)) (λ w f h. h)

  -- Unless the cap was met, the visited neighbours that may be pulled in are in the result.
  Covers : List Text → Walk → Type 0
  Covers ns w =
      leb cap w.auto_added || all (λ n. not (pulls d personal n) || elem n w.result) ns ≡ true

  Covers-cons :
      (n : Text) (ns : List Text) (w : Walk)
      → not (pulls d personal n) || elem n w.result ≡ true
      → Covers ns w
      → Covers (n ∷ ns) w
  unfolding Covers all
  Covers-cons n ns w e h = ground (arith, e, h)

  Covers-full : (ns : List Text) (w : Walk) → leb cap w.auto_added ≡ true → Covers ns w
  unfolding Covers
  Covers-full ns w f = ground (arith, f)

  visit-Covers : (ns : List Text) (w : Walk) → Covers ns (visit d personal cap ns w)
  unfolding visit
  visit-Covers [] w = unfold Covers in unfold all in ground arith
  visit-Covers (n ∷ ns) w = elim (Bool-cases (is_old d personal cap n w)) [
    | inl old ↦ rw old (
        Covers-cons n ns (visit d personal cap ns w) (ground (arith, old, visit-elem n ns w))
          (visit-Covers ns w))
    | inr new ↦ elim (Bool-cases (leb cap w.auto_added)) [
      | inl full ↦ rw (new, full) (Covers-full (n ∷ ns) (record w { queue = [] }) full)
      | inr room ↦
          rw (new, room)
            (Covers-cons n ns (visit d personal cap ns (add d personal cap n w))
              (ground (arith, visit-elem n ns (add d personal cap n w) (added_elem n w)))
              (visit-Covers ns (add d personal cap n w)))
    ]
  ]

  explored_as : (t tid : Text) (res : List Text) → t ≡ tid → is_explored res t ≡ is_explored res tid
  explored_as t tid res p = ap (is_explored res) p

  popped_waits :
      (tid : Text) (rest res : List Text) (t : Text)
      → waits (tid ∷ rest) res t ≡ true
      → here_or_waits tid rest res t ≡ true
  unfolding elem
  popped_waits tid rest res t h = ground (arith, h, str_eq_iff tid t, str_eq_iff t tid)

  same_explored :
      (tid : Text) (q res : List Text) (t : Text)
      → is_explored res tid ≡ true
      → here_or_waits tid q res t ≡ true
      → waits q res t ≡ true
  same_explored tid q res t e h = ground (arith, h, e, str_eq_iff t tid, explored_as t tid res)

  popped :
      (tid : Text) (rest : List Text) (w : Walk)
      → w.queue ≡ tid ∷ rest
      → Explored w
      → Exploring tid (record w { queue = rest })
  unfolding Explored Exploring
  popped tid rest w q h = ground (
    arith,
    h,
    all_mono (waits w.queue w.result) (here_or_waits tid rest w.result)
        (λ t e. popped_waits tid rest w.result t (ap (λ l. waits l w.result t) (sym q) ∙ e))
        w.result,
  )

  all_now :
      (tid : Text) (q res : List Text)
      → is_explored res tid ≡ true
      → all (here_or_waits tid q res) res ≡ true
      → all (waits q res) res ≡ true
  all_now tid q res e h =
      all_mono (here_or_waits tid q res) (waits q res) (λ t. same_explored tid q res t e) res h

  Explored-now :
      (tid : Text) (w : Walk) → Exploring tid w → Covers (neighbors es tid) w → Explored w
  unfolding Explored Exploring Covers is_explored
  Explored-now tid w h c = ground (arith, h, c, all_now tid w.queue w.result)

  pub walk-Explored : (fuel : ℕ) (w : Walk) → Explored w → Explored (walk d personal cap es fuel w)
  unfolding after_visit
  walk-Explored = walk_keeps d personal cap es Explored (λ tid rest w q h.
      Explored-now tid (visit d personal cap (neighbors es tid) (record w { queue = rest }))
        (visit-Exploring tid (neighbors es tid) (record w { queue = rest }) (popped tid rest w q h))
        (visit-Covers (neighbors es tid) (record w { queue = rest })))

  pub walk-elem :
      (t : Text) (fuel : ℕ) (w : Walk)
      → elem t w.result ≡ true
      → elem t (walk d personal cap es fuel w).result ≡ true
  unfolding after_visit
  walk-elem t =
      walk_keeps d personal cap es (λ w. elem t w.result ≡ true)
        (λ tid rest w q h. visit-elem t (neighbors es tid) (record w { queue = rest }) h)
