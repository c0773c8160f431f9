-- ===== src/DataSources/Expansion.antt =====
-- db_sources.py, `expand_with_connectors`: the tables that a choice of tables expands to.
use pdc_client.Base.{
  ℕ, ◌+◌, ◌<◌, ◌≡◌, refl, ap, ◌∙◌, Bool, true, not, ◌&&◌, ◌||◌, List, [], ◌∷◌, arith, Text,
  str_eq_iff, str_eq_refl, nat_Eq, text_Eq, pair_Eq, str_eq,
}
use pdc_client.Base.Lists.{elem, filter, length, all, elem-filter}
use pdc_client.Base.Dict.{Dict}
use pdc_client.Dashboards.Sharing.{sorted_set, insert_text}
use pdc_client.Dashboards.Guests.{elem-sorted_set}
use pdc_client.DataSources.{Table, Doc}
use pdc_client.DataSources.Closure.{
  Walk, start, pulls, neighbors, closure, sorted, insert_sorted, expand_with_connectors,
}
use pdc_client.DataSources.Pulled.{
  tables_of, personal_of, edges_in, seeds_in, some_table, has_some_id, is_shared_connector,
  pulled_is_shared_connector, elem-seeds_in, on_owned, is_connector_of, personal_on_owned,
  connector_pulled,
}
use pdc_client.DataSources.Reach.{
  all_mono, is_reached, AllReached, IsBounded, work, walk_ends, walk-AllReached,
}
use pdc_client.DataSources.Explored.{is_explored, waits, Explored, walk-Explored, walk-elem}

elem-insert_sorted :
    (b a : Text) (xs : List Text) → elem b (insert_sorted a xs) ≡ (str_eq a b || elem b xs)
unfolding elem insert_sorted
elem-insert_sorted b a [] = refl
elem-insert_sorted b a (x ∷ xs) = ground (arith, elem-insert_sorted b a xs)

elem-sorted : (b : Text) (xs : List Text) → elem b (sorted xs) ≡ elem b xs
unfolding elem sorted
elem-sorted b [] = refl
elem-sorted b (x ∷ xs) = ground (arith, elem-insert_sorted b x (sorted xs), elem-sorted b xs)

all-insert_text :
    (p : Text → Bool) (a : Text) (xs : List Text) → all p (insert_text a xs) ≡ (p a && all p xs)
unfolding all insert_text
all-insert_text p a [] = refl
all-insert_text p a (x ∷ xs) = ground (arith, all-insert_text p a xs, str_eq_iff x a)

all-sorted_set : (p : Text → Bool) (xs : List Text) → all p (sorted_set xs) ≡ all p xs
unfolding all sorted_set
all-sorted_set p [] = refl
all-sorted_set p (x ∷ xs) = ground (arith, all-insert_text p x (sorted_set xs), all-sorted_set p xs)

all_own : (xs : List Text) → all (λ t. elem t xs) xs ≡ true
unfolding all elem
all_own [] = refl
all_own (x ∷ xs) = ground (
  arith,
  str_eq_refl x,
  all_mono (λ t. elem t xs) (λ t. elem t (x ∷ xs)) (λ t e. ground (arith, e)) xs (all_own xs),
)

start-IsBounded :
    (d : Dict Text Table) (seeds personal : List Text) (cap : ℕ)
    → IsBounded d personal cap (length (start seeds personal).queue + cap) (start seeds personal)
unfolding IsBounded work start
start-IsBounded d seeds personal cap = (omega arith, omega arith)

-- The walk over the relations of the tables ends within its fuel, with nothing left in the queue.
pub closure_ends : (ids : List Text) (cap : ℕ) (doc : Doc) → (closure ids cap doc).queue ≡ []
unfolding closure
closure_ends ids cap doc =
    walk_ends (tables_of doc) (personal_of doc) cap (edges_in doc)
      (length (start (seeds_in ids doc) (personal_of doc)).queue + cap)
      (start (seeds_in ids doc) (personal_of doc))
      (start-IsBounded (tables_of doc) (seeds_in ids doc) (personal_of doc) cap)

seed_waits :
    (d : Dict Text Table) (personal : List Text) (cap : ℕ) (es : List (Text × Text))
    (seeds : List Text) (t : Text)
    → elem t seeds ≡ true
    → waits d personal cap es (sorted (filter (λ u. not (elem u personal)) seeds)) seeds t ≡ true
seed_waits d personal cap es seeds t h = ground (
  arith,
  h,
  elem-sorted t (filter (λ u. not (elem u personal)) seeds),
  elem-filter (λ u. not (elem u personal)) t seeds,
)

start-Explored :
    (d : Dict Text Table) (personal : List Text) (cap : ℕ) (es : List (Text × Text))
    (seeds : List Text)
    → Explored d personal cap es (start seeds personal)
unfolding Explored start
start-Explored d personal cap es seeds = ground (
  arith,
  all_mono (λ t. elem t seeds)
      (waits d personal cap es (sorted (filter (λ u. not (elem u personal)) seeds)) seeds)
      (seed_waits d personal cap es seeds) seeds (all_own seeds),
)

start-AllReached :
    (d : Dict Text Table) (personal : List Text) (cap : ℕ) (seeds : List Text)
    → AllReached d personal cap seeds (start seeds personal)
unfolding AllReached start is_reached
start-AllReached d personal cap seeds =
    all_mono (λ t. elem t seeds) (is_reached d personal cap seeds) (λ t e. ground (arith, e)) seeds
      (all_own seeds)

closure-AllReached :
    (ids : List Text) (cap : ℕ) (doc : Doc)
    → AllReached (tables_of doc) (personal_of doc) cap (seeds_in ids doc) (closure ids cap doc)
unfolding closure
closure-AllReached ids cap doc =
    walk-AllReached (tables_of doc) (personal_of doc) cap (edges_in doc) (seeds_in ids doc)
      (length (start (seeds_in ids doc) (personal_of doc)).queue + cap)
      (start (seeds_in ids doc) (personal_of doc))
      (start-AllReached (tables_of doc) (personal_of doc) cap (seeds_in ids doc))

closure-Explored :
    (ids : List Text) (cap : ℕ) (doc : Doc)
    → Explored (tables_of doc) (personal_of doc) cap (edges_in doc) (closure ids cap doc)
unfolding closure
closure-Explored ids cap doc =
    walk-Explored (tables_of doc) (personal_of doc) cap (edges_in doc)
      (length (start (seeds_in ids doc) (personal_of doc)).queue + cap)
      (start (seeds_in ids doc) (personal_of doc))
      (start-Explored (tables_of doc) (personal_of doc) cap (edges_in doc) (seeds_in ids doc))

module _ (d : Dict Text Table) (personal : List Text) (cap : ℕ) (es : List (Text × Text)) where
  is_explored-sorted_set :
      (res : List Text) (t : Text)
      → is_explored d personal cap es res t ≡ true
      → is_explored d personal cap es (sorted_set res) t ≡ true
  unfolding is_explored
  is_explored-sorted_set res t h =
      all_mono (λ n. not (pulls d personal n) || elem n res)
        (λ n. not (pulls d personal n) || elem n (sorted_set res))
        (λ n e. ground (arith, e, elem-sorted_set n res)) (neighbors es t) h

  all_waited :
      (w : Walk)
      → Explored d personal cap es w
      → w.queue ≡ []
      → w.auto_added < cap
      → all (waits d personal cap es [] w.result) w.result ≡ true
  unfolding Explored
  all_waited w e q h =
      ground (arith, h, e, ap (λ l. all (waits d personal cap es l w.result) w.result) q)

  waits_none :
      (res : List Text) (t : Text)
      → waits d personal cap es [] res t ≡ true
      → elem t personal || is_explored d personal cap es (sorted_set res) t ≡ true
  unfolding elem
  waits_none res t h = ground (arith, h, is_explored-sorted_set res t)

reached_chosen_or_shared :
    (ids : List Text) (cap : ℕ) (doc : Doc) (tid : Text)
    → is_reached (tables_of doc) (personal_of doc) cap (seeds_in ids doc) tid ≡ true
    → (elem tid ids && some_table tid has_some_id doc.tables)
        || some_table tid (is_shared_connector doc.connections) doc.tables
      ≡ true
unfolding is_reached
reached_chosen_or_shared ids cap doc tid h =
    ground (arith, h, elem-seeds_in tid ids doc, pulled_is_shared_connector tid doc)

-- Each id in the expansion of a choice was chosen and is the id of a table of the registry, or is the
-- id of a connector of the registry that is not in the live mode and whose connection has no owner.
pub expansion_pulls_connectors :
    (ids : List Text) (cap : ℕ) (doc : Doc)
    → all
        (λ tid.
          (elem tid ids && some_table tid has_some_id doc.tables)
          || some_table tid (is_shared_connector doc.connections) doc.tables)
        (expand_with_connectors ids cap doc)
      ≡ true
unfolding expand_with_connectors AllReached
expansion_pulls_connectors ids cap doc =
    let goal : Text → Bool = λ tid.
      (elem tid ids && some_table tid has_some_id doc.tables)
      || some_table tid (is_shared_connector doc.connections) doc.tables in
    all-sorted_set goal (closure ids cap doc).result
    ∙ all_mono (is_reached (tables_of doc) (personal_of doc) cap (seeds_in ids doc)) goal
        (reached_chosen_or_shared ids cap doc) (closure ids cap doc).result
        (closure-AllReached ids cap doc)

seed_in_closure :
    (t : Text) (ids : List Text) (cap : ℕ) (doc : Doc)
    → elem t (seeds_in ids doc) ≡ true
    → elem t (closure ids cap doc).result ≡ true
unfolding closure
seed_in_closure t ids cap doc h =
    walk-elem (tables_of doc) (personal_of doc) cap (edges_in doc) t
      (length (start (seeds_in ids doc) (personal_of doc)).queue + cap)
      (start (seeds_in ids doc) (personal_of doc)) (unfold start in h)

chosen_in_expansion :
    (ids : List Text) (cap : ℕ) (doc : Doc) (t : Text)
    → elem t ids ≡ true
    → not (some_table t has_some_id doc.tables) || elem t (expand_with_connectors ids cap doc)
      ≡ true
unfolding expand_with_connectors
chosen_in_expansion ids cap doc t h = ground (
  arith,
  h,
  elem-seeds_in t ids doc,
  seed_in_closure t ids cap doc,
  elem-sorted_set t (closure ids cap doc).result,
)

expansion_explored :
    (ids : List Text) (cap : ℕ) (doc : Doc)
    → (closure ids cap doc).auto_added < cap
    → all
        (λ t.
          elem t (personal_of doc)
          || is_explored
              (tables_of doc)
              (personal_of doc)
              cap
              (edges_in doc)
              (expand_with_connectors ids cap doc)
              t)
        (expand_with_connectors ids cap doc)
      ≡ true
unfolding expand_with_connectors
expansion_explored ids cap doc h =
    let res = (closure ids cap doc).result in
    let goal : Text → Bool = λ t.
      elem t (personal_of doc)
      || is_explored (tables_of doc) (personal_of doc) cap (edges_in doc) (sorted_set res) t in
    all-sorted_set goal res
    ∙ all_mono (waits (tables_of doc) (personal_of doc) cap (edges_in doc) [] res) goal
        (waits_none (tables_of doc) (personal_of doc) cap (edges_in doc) res) res
        (all_waited (tables_of doc) (personal_of doc) cap (edges_in doc) (closure ids cap doc)
          (closure-Explored ids cap doc) (closure_ends ids cap doc) h)

-- Each shared connector related to a table is among `res`.
abbrev pub connectors_in : Doc → List Text → Text → Bool
connectors_in doc res tid =
    all (λ n. not (is_connector_of doc n) || elem n res) (neighbors (edges_in doc) tid)

explored_connectors :
    (doc : Doc) (cap : ℕ) (res : List Text) (tid : Text)
    → elem tid (personal_of doc)
        || is_explored (tables_of doc) (personal_of doc) cap (edges_in doc) res tid
      ≡ true
    → on_owned doc tid || connectors_in doc res tid ≡ true
unfolding is_explored
explored_connectors doc cap res tid h = ground (
  arith,
  h,
  personal_on_owned tid doc,
  all_mono (λ n. not (pulls (tables_of doc) (personal_of doc) n) || elem n res)
      (λ n. not (is_connector_of doc n) || elem n res)
      (λ n e. ground (arith, e, connector_pulled n doc)) (neighbors (edges_in doc) tid),
)

-- When fewer connectors were pulled in than the cap allows, the expansion of a choice holds every chosen
-- id that is the id of a table of the registry, and is closed: for each id in it, unless its table
-- is on a connection with an owner, it holds each neighbour that is a connector, is not in the live
-- mode and is on a connection without an owner.
pub expansion_is_closed :
    (ids : List Text) (cap : ℕ) (doc : Doc)
    → (closure ids cap doc).auto_added < cap
    → (all
          (λ t.
            not (some_table t has_some_id doc.tables)
            || elem t (expand_with_connectors ids cap doc))
          ids
        ≡ true)
      × (all
            (λ t. on_owned doc t || connectors_in doc (expand_with_connectors ids cap doc) t)
            (expand_with_connectors ids cap doc)
          ≡ true)
expansion_is_closed ids cap doc h =
    let res = expand_with_connectors ids cap doc in
    (
      all_mono (λ t. elem t ids) (λ t. not (some_table t has_some_id doc.tables) || elem t res)
          (chosen_in_expansion ids cap doc) ids (all_own ids),
      all_mono
          (λ t.
            elem t (personal_of doc)
            || is_explored (tables_of doc) (personal_of doc) cap (edges_in doc) res t)
          (λ t. on_owned doc t || connectors_in doc res t) (explored_connectors doc cap res) res
          (expansion_explored ids cap doc h),
    )
