-- ===== src/DataSources/Removal.antt =====
-- db_sources.py: what is left of a connection that was deleted.
use pdc_client.Base.{
  ◌≡◌, refl, ap, Bool, true, false, not, ◌&&◌, some, List, [], ◌∷◌, map, arith, ltb, Text,
  str_eq_refl, nat_Eq, text_Eq, pair_Eq, str_eq,
}
use pdc_client.Base.Lists.{all, any, filter, length, elem}
use pdc_client.DataSources.{Table, Rec, Doc}
use pdc_client.DataSources.Recommended.{rec_key, Key, settle, reconcile_recommendations}
use pdc_client.DataSources.Registry.{
  of_connection, has_connection_id, recommends, table_ids, kept_tables, without_connection,
  delete_connection,
}
use pdc_client.DataSources.Settled.{rec_key-settle}
use pdc_client.DataSources.Runs.{if_true, lt→ltb, length-filter_lt}

any-filter-not {ℓ} :
    {A : Type ℓ} (p : A → Bool) (xs : List A) → any p (filter (λ x. not (p x)) xs) ≡ false
unfolding any filter
any-filter-not p [] = refl
any-filter-not p (x ∷ xs) = ground (arith, any-filter-not p xs)

-- The ids of tables of a connection hold the id of each of them.
id_dropped :
    (cid : Text) (ids : List Text) (ts : List Table)
    → all (λ t. elem t.table_id ids) (filter (of_connection cid) ts) ≡ true
    → any (of_connection cid) (filter (λ t. not (elem t.table_id ids)) ts) ≡ false
unfolding all any filter
id_dropped cid ids [] h = refl
id_dropped cid ids (t ∷ ts) h = ground (arith, h, id_dropped cid ids ts)

ids_weaken :
    (i : Text) (ids : List Text) (ts : List Table)
    → all (λ t. elem t.table_id ids) ts ≡ true
    → all (λ t. elem t.table_id (i ∷ ids)) ts ≡ true
unfolding all elem
ids_weaken i ids [] h = refl
ids_weaken i ids (t ∷ ts) h = ground (arith, h, ids_weaken i ids ts)

ids_listed : (ts : List Table) → all (λ t. elem t.table_id (table_ids ts)) ts ≡ true
unfolding all table_ids elem
ids_listed [] = refl
ids_listed (t ∷ ts) =
    ground (arith, str_eq_refl t.table_id, ids_weaken t.table_id (table_ids ts) ts (ids_listed ts))

kept_tables-free :
    (cid : Text) (ts : List Table) → any (of_connection cid) (kept_tables cid ts) ≡ false
unfolding kept_tables
kept_tables-free cid ts =
    id_dropped cid (table_ids (filter (of_connection cid) ts)) ts
      (ids_listed (filter (of_connection cid) ts))

recommends-settle :
    (cid : Text) (ts : List Table) (r : Rec) → recommends cid (settle ts r) ≡ recommends cid r
unfolding rec_key
recommends-settle cid ts r = ap (λ (k : Key). str_eq k.connection_id cid) (rec_key-settle ts r)

settled_free :
    (cid : Text) (ts : List Table) (rs : List Rec)
    → any (recommends cid) (map (settle ts) rs) ≡ any (recommends cid) rs
unfolding any
settled_free cid ts [] = refl
settled_free cid ts (r ∷ rs) = rw (recommends-settle cid ts r, settled_free cid ts rs) refl

-- No table is of the connection, no entry is the connection's, and no recommendation is for a table of
-- it. (The evidence of other recommendations may name it still.)
abbrev pub nothing_of : Text → Doc → Bool
nothing_of cid doc =
    not (any (of_connection cid) doc.tables)
    && not (any (has_connection_id cid) doc.connections)
    && not (any (recommends cid) doc.recommendations)

without_connection-nothing_of :
    (cid : Text) (doc : Doc)
    → any (has_connection_id cid) doc.connections ≡ true
    → nothing_of cid (without_connection cid doc) ≡ true
unfolding without_connection
without_connection-nothing_of cid doc there =
    let cs = filter (λ c. not (has_connection_id cid c)) doc.connections in
    let rs = filter (λ r. not (recommends cid r)) doc.recommendations in
    let next = record doc { connections = cs; tables = kept_tables cid doc.tables } in
    if_true (λ d. nothing_of cid d ≡ true) (ltb (length cs) (length doc.connections))
      (reconcile_recommendations (record next { recommendations = rs })) next
      (lt→ltb (length cs) (length doc.connections)
        (length-filter_lt (has_connection_id cid) doc.connections there))
      (unfold reconcile_recommendations in
        ground (
          arith,
          kept_tables-free cid doc.tables,
          any-filter-not (has_connection_id cid) doc.connections,
          any-filter-not (recommends cid) doc.recommendations,
          settled_free cid (kept_tables cid doc.tables) rs,
        ))

allowed :
    (cid : Text) (cascade : Bool) (doc d : Doc)
    → delete_connection cid cascade doc ≡ some d
    → d ≡ without_connection cid doc
unfolding delete_connection
allowed cid cascade doc d h = ground (arith, h)

-- When a connection exists and its deletion is not refused, the connection is gone afterwards, with every
-- table of it and every recommendation for a table of it. (The evidence of other recommendations may
-- name it still.)
pub deleted_connection_is_gone :
    (cid : Text) (cascade : Bool) (doc d : Doc)
    → any (has_connection_id cid) doc.connections ≡ true
    → delete_connection cid cascade doc ≡ some d
    → nothing_of cid d ≡ true
deleted_connection_is_gone cid cascade doc d there h =
    rw (allowed cid cascade doc d h) (without_connection-nothing_of cid doc there)
