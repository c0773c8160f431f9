-- ===== src/DataSources/Closure.antt =====
-- db_sources.py, `expand_with_connectors`: the connector tables that come with a choice of tables. A
-- set is the list of its elements, sorted where the code sorts it.
use pdc_client.Base.{
  ℕ, zero, suc, ◌+◌, Bool, false, not, ◌&&◌, ◌||◌, Option, none, some, List, [], ◌∷◌, ◌++◌, map,
  leb, if◌then◌else◌, Text, nat_Eq, text_Eq, pair_Eq, str_eq,
}
use pdc_client.Base.Lists.{elem, filter, length, is_nil}
use pdc_client.Base.Strings.{lower, strip, codes}
use pdc_client.Base.Dict.{Dict, lookup, insert, contains}
use pdc_client.Dashboards.Sharing.{text_lt, sorted_set}
use pdc_client.DataSources.{Relation, Table, Connection, Doc}
use pdc_client.DataSources.Modes.{is_live_mode}

-- `personal_connection_ids`
unfoldable pub personal_ids : List Connection → List Text
personal_ids cs =
    map (λ (c : Connection). c.connection_id)
      (filter (λ (c : Connection). not (is_nil c.connection_id) && not (is_nil (strip c.owner))) cs)

unfoldable pub by_id : List Table → Dict Text Table → Dict Text Table
by_id [] d = d
by_id (t ∷ ts) d = by_id ts (if is_nil t.table_id then d else insert t.table_id t d)

unfoldable pub by_name : Dict Text Table → Dict Text Text → Dict Text Text
by_name [] names = names
by_name ((tid, t) ∷ d) names = by_name d (
    insert (lower t.table_name) t.table_id
      (insert (lower (t.schema ++ codes "." ++ t.table_name)) t.table_id names))

-- `rel.get("related_table_id") or rel.get("related_table")`
related : Relation → Text
related r = if is_nil r.related_table_id then r.related_table else r.related_table_id

unfoldable pub resolve : Dict Text Table → Dict Text Text → Relation → Option Text
unfolding related
resolve d names r =
    if contains (related r) d then some (related r) else lookup (lower (related r)) names

edges_to : Text → Option Text → List (Text × Text)
edges_to tid none = []
edges_to tid (some other) = (tid, other) ∷ (other, tid) ∷ []

edges_of : Dict Text Table → Dict Text Text → Text → List Relation → List (Text × Text)
edges_of d names tid [] = []
edges_of d names tid (r ∷ rs) = edges_to tid (resolve d names r) ++ edges_of d names tid rs

unfoldable pub all_edges : Dict Text Table → Dict Text Text → Dict Text Table → List (Text × Text)
unfolding edges_to edges_of
all_edges d names [] = []
all_edges d names ((tid, t) ∷ rest) =
    edges_of d names t.table_id t.relations ++ all_edges d names rest

ends_at : Text → List (Text × Text) → List Text
ends_at tid [] = []
ends_at tid ((a, b) ∷ es) = let rest = ends_at tid es in if str_eq a tid then b ∷ rest else rest

-- `sorted(neighbors.get(tid, ()))`
unfoldable pub neighbors : List (Text × Text) → Text → List Text
unfolding ends_at
neighbors es tid = sorted_set (ends_at tid es)

pub record Walk : Type 0 where
  pub result : List Text
  pub queue : List Text
  pub auto_added : ℕ

abbrev pub is_pullable : Option Table → Bool
is_pullable none = false
is_pullable (some t) = t.is_connector && not (is_live_mode t.mode)

-- A neighbour that the walk pulls in.
unfoldable pub pulls : Dict Text Table → List Text → Text → Bool
pulls d personal nid = not (elem nid personal) && is_pullable (lookup nid d)

module _ (d : Dict Text Table) (personal : List Text) (cap : ℕ) where
  unfoldable pub add : Text → Walk → Walk
  add nid w = record w {
    result = nid ∷ w.result;
    queue = w.queue ++ nid ∷ [];
    auto_added = suc w.auto_added;
  }

  -- The loop over the neighbours; the cap clears the queue and ends it.
  unfoldable pub visit : List Text → Walk → Walk
  unfolding add
  visit [] w = w
  visit (nid ∷ ns) w =
      let skipped = visit ns w in
      let taken = visit ns (add nid w) in
      if elem nid w.result || not (pulls d personal nid)
      then skipped
      else if leb cap w.auto_added
      then record w { queue = [] }
      else taken

  -- `while queue`
  unfoldable pub walk : List (Text × Text) → ℕ → Walk → Walk
  walk es zero w = w
  walk es (suc fuel) w = elim w.queue [
    | [] ↦ w
    | tid ∷ rest ↦ walk es fuel (visit (neighbors es tid) (record w { queue = rest }))
  ]

unfoldable pub insert_sorted : Text → List Text → List Text
insert_sorted a [] = a ∷ []
insert_sorted a (b ∷ bs) =
    let rest = insert_sorted a bs in if text_lt b a then b ∷ rest else a ∷ b ∷ bs

unfoldable pub sorted : List Text → List Text
unfolding insert_sorted
sorted [] = []
sorted (a ∷ bs) = insert_sorted a (sorted bs)

-- The ids of tables on personal connections.
unfoldable pub personal_tables : List Text → Dict Text Table → List Text
personal_tables ids [] = []
personal_tables ids ((tid, t) ∷ d) =
    let rest = personal_tables ids d in if elem t.connection_id ids then tid ∷ rest else rest

abbrev pub seeds_of : List Text → Dict Text Table → List Text
seeds_of ids d = filter (λ tid. contains tid d) ids

unfoldable pub start : List Text → List Text → Walk
start seeds personal = record {
  result = seeds;
  queue = sorted (filter (λ t. not (elem t personal)) seeds);
  auto_added = 0;
}

-- The walk over the tables of a registry; the fuel is what the queue and the cap allow.
unfoldable pub closure : List Text → ℕ → Doc → Walk
unfolding all_edges personal_tables
closure ids cap doc =
    let d = by_id doc.tables [] in
    let personal = personal_tables (personal_ids doc.connections) d in
    let w = start (seeds_of ids d) personal in
    walk d personal cap (all_edges d (by_name d []) d) (length w.queue + cap) w

unfoldable pub expand_with_connectors : List Text → ℕ → Doc → List Text
expand_with_connectors ids cap doc = sorted_set (closure ids cap doc).result
