-- ===== src/DataSources/Registry.antt =====
-- db_sources.py, class DataSourceStore: saving and deleting tables, and deleting connections.
use pdc_client.Base.{
  Bool, true, false, not, ◌&&◌, Option, none, some, List, [], ◌∷◌, ◌++◌, map, ltb, if◌then◌else◌,
  Text, nat_Eq, text_Eq, pair_Eq, str_eq,
}
use pdc_client.Base.Lists.{elem, filter, any, length}
use pdc_client.Base.Ids.{is_id}
use pdc_client.DataSources.{Table, Connection, Rec, Doc, change_first}
use pdc_client.DataSources.Modes.{has_id, table_mode, valid_mode_fields}
use pdc_client.DataSources.Recommended.{reconcile_recommendations}

-- `secrets.token_hex(8)` when the id is none.
unfoldable pub with_id : Text → Table → Table
with_id fresh t = if is_id t.table_id then t else record t { table_id = fresh }

unfoldable pub put_table : Table → List Table → List Table
put_table t ts =
    if any (has_id t.table_id) ts
    then change_first (has_id t.table_id) (λ old. t) ts
    else ts ++ t ∷ []

-- `none`: the mode fields are refused.
unfoldable pub upsert_table : Text → Table → Doc → Option Doc
upsert_table fresh t doc =
    if valid_mode_fields t
    then some (
        reconcile_recommendations (record doc {
          tables =
              put_table (with_id fresh (record t { mode = some (table_mode t.mode) })) doc.tables;
        }))
    else none

unfoldable pub without_table : Text → List Table → List Table
without_table tid ts = filter (λ t. not (has_id tid t)) ts

-- The document, and whether the table was there.
unfoldable pub delete_table : Text → Doc → Doc × Bool
unfolding without_table
delete_table tid doc =
    if ltb (length (without_table tid doc.tables)) (length doc.tables)
    then (reconcile_recommendations (record doc { tables = without_table tid doc.tables }), true)
    else (doc, false)

abbrev pub of_connection : Text → Table → Bool
of_connection cid t = str_eq t.connection_id cid

abbrev pub has_connection_id : Text → Connection → Bool
has_connection_id cid c = str_eq c.connection_id cid

abbrev pub recommends : Text → Rec → Bool
recommends cid r = str_eq r.connection_id cid

unfoldable pub table_ids : List Table → List Text
table_ids ts = map (λ (t : Table). t.table_id) ts

-- `doc["tables"]` after the cascade
unfoldable pub kept_tables : Text → List Table → List Table
kept_tables cid ts =
    filter (λ t. not (elem t.table_id (table_ids (filter (of_connection cid) ts)))) ts

unfoldable pub without_connection : Text → Doc → Doc
without_connection cid doc =
    let cs = filter (λ c. not (has_connection_id cid c)) doc.connections in
    let next = record doc { connections = cs; tables = kept_tables cid doc.tables } in
    if ltb (length cs) (length doc.connections)
    then reconcile_recommendations
        (record next { recommendations = filter (λ r. not (recommends cid r)) doc.recommendations })
    else next

-- `none`: tables still reference the connection. Without such tables the cascade drops none.
unfoldable pub delete_connection : Text → Bool → Doc → Option Doc
delete_connection cid cascade doc =
    if any (of_connection cid) doc.tables && not cascade
    then none
    else some (without_connection cid doc)
