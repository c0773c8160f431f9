-- ===== src/DataSources/Tests.antt =====
-- db_sources.py on a concrete registry.
use pdc_client.Base.{
  ◌<◌, ◌≡◌, refl, Bool, true, false, not, ◌&&◌, ◌||◌, none, some, List, [], ◌∷◌, map, arith, Text,
  nat_Eq, text_Eq, pair_Eq, str_eq,
}
use pdc_client.Base.Lists.{elem, filter, all, any}
use pdc_client.Base.Ids.{is_id, chomp}
use pdc_client.Base.Strings.{codes, strip, lower, lower_char, is_space}
use pdc_client.Base.Dict.{lookup, insert}
use pdc_client.Dashboards.Sharing.{sorted_set, insert_text, text_lt}
use pdc_client.DataSources.{
  Relation, Table, Connection, open_rec, dismissed, registered, Rec, Doc, change_first, find,
}
use pdc_client.DataSources.Modes.{has_id, table_mode, is_live_mode, valid_mode_fields}
use pdc_client.DataSources.Recommended.{
  table_key, rec_key, key_eq, names_table, hit, settle, settle_by, mark_registered,
  reconcile_recommendations,
}
use pdc_client.DataSources.Registry.{
  with_id, put_table, upsert_table, delete_table, delete_connection, without_connection,
  kept_tables, table_ids, has_connection_id,
}
use pdc_client.DataSources.Merge.{Item}
use pdc_client.DataSources.Settled.{
  agrees, is_settled, is_clean, IsSettled, clean_fields, no_table, no_prior,
}
use pdc_client.DataSources.Runs.{
  Call, saving, removing, dropping, setting_status, syncing, recommending, after, run, or_old,
  run-IsSettled, spares_orphans, all_spare_orphans,
}
use pdc_client.DataSources.Restored.{new_table_undone, saved_row}
use pdc_client.DataSources.Removal.{nothing_of, deleted_connection_is_gone}
use pdc_client.DataSources.Closure.{
  walk, visit, add, start, by_id, by_name, personal_ids, personal_tables, resolve, all_edges,
  closure, sorted, insert_sorted, expand_with_connectors, pulls, neighbors,
}
use pdc_client.DataSources.Expansion.{
  closure_ends, expansion_pulls_connectors, expansion_is_closed, connectors_in,
}
use pdc_client.DataSources.Pulled.{some_table, has_some_id, is_shared_connector, on_owned}
use pdc_client.DataSources.Recommended.{set_recommendation_status}
use pdc_client.DataSources.Merge.{
  item_key, merge_items, merge_item, merge_found, upsert_recommendations,
}

abbrev table : Text → Text → Bool → List Relation → Table
table tid name is_connector relations = record {
  table_id = tid;
  connection_id = codes "c1";
  schema = codes "Public";
  table_name = name;
  is_connector = is_connector;
  mode = none;
  live_reason = none;
  live_set_by = none;
  live_set_at = none;
  live_profiled_at = none;
  live_sample_rows = none;
  row_count = none;
  registered_by = [];
  relations = relations;
  schedule = none;
  schedule_last_fired_at = none;
  last_checked_at = none;
  other_fields = [];
}

abbrev related_to : Text → Relation
related_to tid = record { related_table_id = tid; related_table = [] }

abbrev named : Text → Relation
named name = record { related_table_id = []; related_table = name }

abbrev orders : Table
orders =
    table (codes "aaaaaaaaaaaaaaa1") (codes "Orders") false
      (related_to (codes "aaaaaaaaaaaaaaa2") ∷ [])

-- Connects the orders to the customers, whom it names.
abbrev order_customer : Table
order_customer =
    table (codes "aaaaaaaaaaaaaaa2") (codes "Order_Customer") true
      (named (codes "Public.Customers") ∷ [])

abbrev customers : Table
customers = table (codes "aaaaaaaaaaaaaaa3") (codes "Customers") false []

abbrev warehouse : Connection
warehouse = record { connection_id = codes "c1"; owner = []; other_fields = [] }

-- The customers were recommended and dismissed.
abbrev customers_rec : Rec
customers_rec = record {
  rec_id = codes "r1";
  connection_id = codes "c1";
  schema = codes "PUBLIC";
  table = codes "customers";
  status = dismissed;
  prior_status = none;
  registered_table_id = none;
  sources = [];
  frequency = 2;
  evidence = [];
}

abbrev registry : Doc
registry = record {
  connections = warehouse ∷ [];
  tables = orders ∷ order_customer ∷ [];
  recommendations = customers_rec ∷ [];
}

registry-IsSettled : IsSettled registry
unfolding is_settled is_clean agrees hit find table_key rec_key key_eq names_table lower lower_char
    str_eq clean_fields no_table no_prior all
registry-IsSettled = refl

abbrev country_item : Item
country_item = record {
  connection_id = codes "c1";
  schema = codes "Public";
  table = codes "Countries";
  source = codes "joins";
  frequency = 3;
  evidence = [];
}

abbrev calls : List Call
calls =
    recommending ((codes "r2", country_item) ∷ [])
    ∷ saving (codes "f") customers
    ∷ setting_status (codes "r1") open_rec
    ∷ removing customers.table_id
    ∷ dropping (codes "c1") true
    ∷ syncing
    ∷ []

calls_spare_orphans : all_spare_orphans calls registry ≡ true
unfolding all_spare_orphans spares_orphans run after or_old upsert_recommendations merge_items
    merge_item merge_found upsert_table valid_mode_fields put_table with_id is_id chomp
    reconcile_recommendations settle settle_by mark_registered hit find table_key rec_key key_eq
    names_table lower lower_char str_eq change_first all any filter table_mode is_live_mode
    set_recommendation_status delete_table item_key
calls_spare_orphans = refl

run-IsSettled_example : IsSettled (run calls registry)
run-IsSettled_example = run-IsSettled calls registry calls_spare_orphans registry-IsSettled

-- Saving the customers registers their recommendation.
registered_test :
    map (λ (r : Rec). r.status) (run (saving (codes "f") customers ∷ []) registry).recommendations
    ≡ registered ∷ []
unfolding run after or_old upsert_table valid_mode_fields put_table with_id is_id chomp
    reconcile_recommendations settle settle_by mark_registered hit find table_key rec_key key_eq
    names_table lower lower_char str_eq change_first all any table_mode is_live_mode
registered_test = refl

customers_valid : valid_mode_fields customers ≡ true
unfolding valid_mode_fields
customers_valid = refl

customers_new : any (has_id (saved_row (codes "f") customers).table_id) registry.tables ≡ false
unfolding with_id is_id chomp all any str_eq
customers_new = refl

new_table_undone_example :
    delete_table
      (saved_row (codes "f") customers).table_id
      (or_old registry (upsert_table (codes "f") customers registry))
    ≡ (registry, true)
new_table_undone_example =
    new_table_undone (codes "f") customers registry registry-IsSettled customers_valid customers_new

abbrev registry_without : Doc
registry_without = record { connections = []; tables = []; recommendations = [] }

dropped : delete_connection (codes "c1") true registry ≡ some registry_without
unfolding delete_connection without_connection kept_tables table_ids reconcile_recommendations
    filter any elem str_eq
dropped = refl

warehouse_there : any (has_connection_id (codes "c1")) registry.connections ≡ true
unfolding any str_eq
warehouse_there = refl

deleted_connection_is_gone_example : nothing_of (codes "c1") registry_without ≡ true
deleted_connection_is_gone_example =
    deleted_connection_is_gone (codes "c1") true registry registry_without warehouse_there dropped

abbrev choice : List Text
choice = orders.table_id ∷ []

expanded : expand_with_connectors choice 5 registry ≡ orders.table_id ∷ order_customer.table_id ∷ []
unfolding expand_with_connectors closure walk visit add start by_id by_name personal_ids
    personal_tables resolve all_edges sorted insert_sorted pulls neighbors sorted_set insert_text
    text_lt lookup insert elem filter str_eq lower lower_char strip is_space is_live_mode
expanded = refl

closure_ends_example : (closure choice 5 registry).queue ≡ []
closure_ends_example = closure_ends choice 5 registry

expansion_pulls_connectors_example :
    all
      (λ tid.
        (elem tid choice && some_table tid has_some_id registry.tables)
        || some_table tid (is_shared_connector registry.connections) registry.tables)
      (expand_with_connectors choice 5 registry)
    ≡ true
expansion_pulls_connectors_example = expansion_pulls_connectors choice 5 registry

under_the_cap : (closure choice 5 registry).auto_added < 5
unfolding closure walk visit start by_id by_name personal_ids personal_tables resolve sorted pulls
    neighbors sorted_set insert_text text_lt lookup insert elem filter str_eq lower lower_char strip
    is_space is_live_mode
under_the_cap = omega arith

expansion_is_closed_example :
    (all
        (λ t.
          not (some_table t has_some_id registry.tables)
          || elem t (expand_with_connectors choice 5 registry))
        choice
      ≡ true)
    × (all
          (λ t.
            on_owned registry t
            || connectors_in registry (expand_with_connectors choice 5 registry) t)
          (expand_with_connectors choice 5 registry)
        ≡ true)
expansion_is_closed_example = expansion_is_closed choice 5 registry under_the_cap
