-- ===== src/DataSources/Recommended.antt =====
-- db_sources.py, class DataSourceStore: the recommended tables, which follow the registry.
use pdc_client.Base.{
  Bool, true, false, not, ◌&&◌, ◌||◌, Option, none, some, List, map, if◌then◌else◌, Text, nat_Eq,
  text_Eq, pair_Eq, str_eq,
}
use pdc_client.Base.Lists.{any, is_nil}
use pdc_client.Base.Strings.{lower}
use pdc_client.DataSources.{Table, Status, open_rec, registered, Rec, Doc, change_first, find}

-- `_rec_phys_key`
pub record Key : Type 0 where
  pub connection_id : Text
  pub schema : Text
  pub name : Text

unfoldable pub table_key : Table → Key
table_key t = record {
  connection_id = t.connection_id;
  schema = lower t.schema;
  name = lower t.table_name;
}

unfoldable pub rec_key : Rec → Key
rec_key r = record {
  connection_id = r.connection_id;
  schema = lower r.schema;
  name = lower r.table;
}

unfoldable pub key_eq : Key → Key → Bool
key_eq k j =
    str_eq k.connection_id j.connection_id && str_eq k.schema j.schema && str_eq k.name j.name

-- `k[0] and k[2]`
unfoldable pub names_table : Key → Bool
names_table k = not (is_nil k.connection_id) && not (is_nil k.name)

-- `reg.get(k)`: the first table of the key.
unfoldable pub hit : Key → List Table → Option Table
hit k ts = find (λ t. names_table (table_key t) && key_eq (table_key t) k) ts

abbrev pub is_registered : Status → Bool
is_registered registered = true
is_registered _ = false

unfoldable pub mark_registered : Table → Rec → Rec
mark_registered t r =
    if is_registered r.status
    then record r { registered_table_id = some t.table_id }
    else record r {
      prior_status = some r.status;
      status = registered;
      registered_table_id = some t.table_id;
    }

-- `r.pop("prior_status", "open") or "open"`
unfoldable pub prior_or_open : Option Status → Status
prior_or_open none = open_rec
prior_or_open (some s) = s

unfoldable pub revert : Rec → Rec
revert r =
    if is_registered r.status
    then record r {
      status = prior_or_open r.prior_status;
      prior_status = none;
      registered_table_id = none;
    }
    else r

unfoldable pub settle_by : Option Table → Rec → Rec
settle_by none r = revert r
settle_by (some t) r = mark_registered t r

unfoldable pub settle : List Table → Rec → Rec
settle ts r = if names_table (rec_key r) then settle_by (hit (rec_key r) ts) r else r

-- `registered_table_id` is the id given
unfoldable pub has_table_id : Option Text → Text → Bool
has_table_id none tid = false
has_table_id (some i) tid = str_eq i tid

-- Whether `_reconcile_recommendations` sets `changed`.
unfoldable pub changed_by : Option Table → Rec → Bool
unfolding has_table_id
changed_by none r = is_registered r.status
changed_by (some t) r =
    not (is_registered r.status) || not (has_table_id r.registered_table_id t.table_id)

unfoldable pub changes : List Table → Rec → Bool
changes ts r = names_table (rec_key r) && changed_by (hit (rec_key r) ts) r

unfoldable pub reconcile_recommendations : Doc → Doc
reconcile_recommendations doc = record doc {
  recommendations = map (settle doc.tables) doc.recommendations;
}

unfoldable pub sync_recommendations : Doc → Doc
sync_recommendations doc =
    if any (changes doc.tables) doc.recommendations then reconcile_recommendations doc else doc

abbrev pub has_rec_id : Text → Rec → Bool
has_rec_id rid r = str_eq r.rec_id rid

unfoldable pub with_status : Status → Rec → Rec
with_status s r = record r { status = s }

unfoldable pub status_set : Text → Status → Doc → Option Rec → Option Doc
status_set rid s doc none = none
status_set rid s doc (some r) =
    if is_registered r.status
    then none
    else some (record doc {
      recommendations = change_first (has_rec_id rid) (with_status s) doc.recommendations;
    })

-- `none`: nothing is written. The status that is asked for is one of the three.
unfoldable pub set_recommendation_status : Text → Status → Doc → Option Doc
unfolding with_status status_set
set_recommendation_status rid s doc =
    if is_registered s
    then none
    else status_set rid s doc (find (has_rec_id rid) doc.recommendations)
