-- ===== src/DataSources/Pulled.antt =====
-- db_sources.py, `expand_with_connectors`: the tables that may be pulled in, read off the registry.
use pdc_client.Base.{
  ◌≡◌, refl, sym, ◌∙◌, inl, inr, Bool, true, false, not, ◌&&◌, ◌||◌, Option, none, some, List, [],
  ◌∷◌, arith, Option-cases, Text, str_eq_iff, nat_Eq, text_Eq, pair_Eq, str_eq,
}
use pdc_client.Base.Lists.{any, is_nil, elem, filter, elem-filter}
use pdc_client.Base.Dict.{
  Dict, lookup, insert, contains, lookup-insert, distinct_keys, distinct_keys-insert,
}
use pdc_client.Base.Strings.{codes, strip}
use pdc_client.DataSources.Modes.{is_live_mode}
use pdc_client.DataSources.{Table, Connection, Doc}
use pdc_client.DataSources.Closure.{
  seeds_of, by_id, by_name, personal_ids, personal_tables, pulls, all_edges,
}

abbrev pub tables_of : Doc → Dict Text Table
tables_of doc = by_id doc.tables []

abbrev pub personal_of : Doc → List Text
personal_of doc = personal_tables (personal_ids doc.connections) (tables_of doc)

abbrev pub edges_in : Doc → List (Text × Text)
edges_in doc = all_edges (tables_of doc) (by_name (tables_of doc) []) (tables_of doc)

abbrev pub seeds_in : List Text → Doc → List Text
seeds_in ids doc = seeds_of ids (tables_of doc)

-- Whether some table of the registry with this id has a property.
abbrev pub some_table : Text → (Table → Bool) → List Table → Bool
some_table tid p ts = any (λ (t : Table). str_eq t.table_id tid && p t) ts

abbrev pub has_some_id : Table → Bool
has_some_id t = not (is_nil t.table_id)

-- Whether some entry of a connection with this id names an owner.
abbrev pub is_owned : Text → List Connection → Bool
is_owned cid cs =
    any
      (λ (c : Connection).
        str_eq c.connection_id cid && not (is_nil c.connection_id) && not (is_nil (strip c.owner)))
      cs

abbrev pub says_live : Option Text → Bool
says_live none = false
says_live (some m) = str_eq m (codes "live")

-- A connector that is not in the live mode and whose connection has no owner.
abbrev pub is_shared_connector : List Connection → Table → Bool
is_shared_connector cs t =
    t.is_connector && not (says_live t.mode) && not (is_owned t.connection_id cs)

abbrev pub holds : (Table → Bool) → Option Table → Bool
holds p none = false
holds p (some t) = p t

contains-by_id :
    (tid : Text) (ts : List Table) (d : Dict Text Table)
    → contains tid (by_id ts d) ≡ (some_table tid has_some_id ts || contains tid d)
unfolding by_id any
contains-by_id tid [] d = refl
contains-by_id tid (t ∷ ts) d = ground (
  arith,
  contains-by_id tid ts d,
  contains-by_id tid ts (insert t.table_id t d),
  lookup-insert t.table_id tid t d,
)

holds-by_id :
    (p : Table → Bool) (tid : Text) (ts : List Table) (d : Dict Text Table)
    → holds p (lookup tid (by_id ts d)) ≡ true
    → some_table tid p ts || holds p (lookup tid d) ≡ true
unfolding by_id any
holds-by_id p tid [] d h = h
holds-by_id p tid (t ∷ ts) d h = ground (
  arith,
  h,
  holds-by_id p tid ts d,
  holds-by_id p tid ts (insert t.table_id t d),
  lookup-insert t.table_id tid t d,
)

elem-personal_ids :
    (cid : Text) (cs : List Connection) → elem cid (personal_ids cs) ≡ is_owned cid cs
unfolding personal_ids elem filter any
elem-personal_ids cid [] = refl
elem-personal_ids cid (c ∷ cs) = ground (arith, elem-personal_ids cid cs)

personal_listed :
    (tid : Text) (t : Table) (ids : List Text) (d : Dict Text Table)
    → lookup tid d ≡ some t
    → elem t.connection_id ids ≡ true
    → elem tid (personal_tables ids d) ≡ true
unfolding personal_tables lookup elem
personal_listed tid t ids [] h e = cc
personal_listed tid t ids ((j, u) ∷ d) h e =
    ground (arith, h, e, personal_listed tid t ids d, str_eq_iff j tid)

pulled_holds :
    (tid : Text) (doc : Doc)
    → pulls (tables_of doc) (personal_of doc) tid ≡ true
    → holds (is_shared_connector doc.connections) (lookup tid (tables_of doc)) ≡ true
unfolding pulls is_live_mode
pulled_holds tid doc h = elim (Option-cases (lookup tid (tables_of doc))) [
  | inl absent ↦ ground (arith, h, absent)
  | inr (t, found) ↦ rw found (
      ground (
        arith,
        h,
        found,
        personal_listed tid t (personal_ids doc.connections) (tables_of doc) found,
        elem-personal_ids t.connection_id doc.connections,
      ))
]

pub pulled_is_shared_connector :
    (tid : Text) (doc : Doc)
    → pulls (tables_of doc) (personal_of doc) tid ≡ true
    → some_table tid (is_shared_connector doc.connections) doc.tables ≡ true
unfolding lookup
pulled_is_shared_connector tid doc h = ground (
  arith,
  holds-by_id (is_shared_connector doc.connections) tid doc.tables [] (pulled_holds tid doc h),
)

pub elem-seeds_in :
    (tid : Text) (ids : List Text) (doc : Doc)
    → elem tid (seeds_in ids doc) ≡ (elem tid ids && some_table tid has_some_id doc.tables)
unfolding lookup
elem-seeds_in tid ids doc =
    ground (
      arith,
      elem-filter (λ t. contains t (tables_of doc)) tid ids,
      contains-by_id tid doc.tables [],
    )

distinct_keys-by_id :
    (ts : List Table) (d : Dict Text Table)
    → distinct_keys d ≡ true
    → distinct_keys (by_id ts d) ≡ true
unfolding by_id
distinct_keys-by_id [] d h = h
distinct_keys-by_id (t ∷ ts) d h = ground (
  arith,
  distinct_keys-by_id ts d h,
  distinct_keys-by_id ts (insert t.table_id t d) (distinct_keys-insert t.table_id t d h),
)

personal_contained :
    (tid : Text) (ids : List Text) (d : Dict Text Table)
    → elem tid (personal_tables ids d) ≡ true
    → contains tid d ≡ true
unfolding personal_tables lookup elem
personal_contained tid ids [] h = cc
personal_contained tid ids ((j, u) ∷ d) h = ground (arith, h, personal_contained tid ids d)

-- In a dictionary a personal id leads to a table on a personal connection.
personal_found :
    (tid : Text) (ids : List Text) (d : Dict Text Table)
    → distinct_keys d ≡ true
    → elem tid (personal_tables ids d) ≡ true
    → holds (λ t. elem t.connection_id ids) (lookup tid d) ≡ true
unfolding personal_tables lookup elem distinct_keys
personal_found tid ids [] k h = cc
personal_found tid ids ((j, u) ∷ d) k h =
    ground (arith, k, h, personal_found tid ids d, personal_contained tid ids d, str_eq_iff j tid)

abbrev pub on_owned : Doc → Text → Bool
on_owned doc tid =
    holds (λ t. is_owned t.connection_id doc.connections) (lookup tid (tables_of doc))

abbrev pub is_connector_of : Doc → Text → Bool
is_connector_of doc tid = holds (is_shared_connector doc.connections) (lookup tid (tables_of doc))

found_personal :
    (tid : Text) (doc : Doc)
    → holds (λ t. elem t.connection_id (personal_ids doc.connections)) (lookup tid (tables_of doc))
      ≡ on_owned doc tid
found_personal tid doc = elim (Option-cases (lookup tid (tables_of doc))) [
  | inl absent ↦ rw absent refl
  | inr (t, found) ↦ rw found (elem-personal_ids t.connection_id doc.connections)
]

pub personal_on_owned :
    (tid : Text) (doc : Doc) → elem tid (personal_of doc) ≡ true → on_owned doc tid ≡ true
unfolding distinct_keys
personal_on_owned tid doc h =
    sym (found_personal tid doc)
    ∙ personal_found tid (personal_ids doc.connections) (tables_of doc)
        (distinct_keys-by_id doc.tables [] refl) h

pub connector_pulled :
    (tid : Text) (doc : Doc)
    → is_connector_of doc tid ≡ true
    → pulls (tables_of doc) (personal_of doc) tid ≡ true
unfolding pulls is_live_mode
connector_pulled tid doc h = elim (Option-cases (lookup tid (tables_of doc))) [
  | inl absent ↦ ground (arith, h, absent)
  | inr (t, found) ↦ ground (arith, h, found, personal_on_owned tid doc)
]
