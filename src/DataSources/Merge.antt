-- ===== src/DataSources/Merge.antt =====
-- db_sources.py, class DataSourceStore: `upsert_recommendations`.
use pdc_client.Base.{
  ℕ, suc, ◌+◌, Bool, true, false, ◌&&◌, ◌||◌, Option, none, some, List, [], ◌∷◌, ◌++◌,
  if◌then◌else◌, is_some, Text, nat_Eq, text_Eq, pair_Eq, str_eq,
}
use pdc_client.Base.Lists.{elem, any, is_nil}
use pdc_client.Base.Strings.{lower}
use pdc_client.Dashboards.Sharing.{text_lt}
use pdc_client.DataSources.{Table, open_rec, Evidence, Rec, Doc, change_first, find}
use pdc_client.DataSources.Recommended.{Key, rec_key, key_eq, names_table, hit, is_registered}

-- One entry of a batch.
pub record Item : Type 0 where
  pub connection_id : Text
  pub schema : Text
  pub table : Text
  pub source : Text
  pub frequency : ℕ
  pub evidence : List Evidence

pair_lt : Text × Text → Text × Text → Bool
pair_lt p q = text_lt p.0 q.0 || str_eq p.0 q.0 && text_lt p.1 q.1

insert_pair : Text × Text → List (Text × Text) → List (Text × Text)
insert_pair p [] = p ∷ []
insert_pair p (q ∷ qs) = let rest = insert_pair p qs in if pair_lt q p then q ∷ rest else p ∷ q ∷ qs

sorted_pairs : List (Text × Text) → List (Text × Text)
sorted_pairs [] = []
sorted_pairs (p ∷ ps) = insert_pair p (sorted_pairs ps)

pairs_eq : List (Text × Text) → List (Text × Text) → Bool
pairs_eq [] [] = true
pairs_eq (p ∷ ps) (q ∷ qs) = str_eq p.0 q.0 && str_eq p.1 q.1 && pairs_eq ps qs
pairs_eq _ _ = false

-- Two entries with one `_rec_evidence_key`.
unfoldable pub same_evidence : Evidence → Evidence → Bool
unfolding pair_lt insert_pair sorted_pairs pairs_eq
same_evidence a b =
    str_eq a.origin b.origin
    && str_eq a.other_connection b.other_connection
    && str_eq (lower a.other_schema) (lower b.other_schema)
    && str_eq (lower a.other_table) (lower b.other_table)
    && pairs_eq (sorted_pairs a.pairs) (sorted_pairs b.pairs)

-- An entry that is known adds its count; another one is appended.
unfoldable pub merge_one : Evidence → List Evidence → List Evidence
merge_one ev es =
    if any (same_evidence ev) es
    then change_first (same_evidence ev) (λ old. record old { count = old.count + ev.count }) es
    else es ++ ev ∷ []

unfoldable pub merge_evidence : List Evidence → List Evidence → List Evidence
merge_evidence [] es = es
merge_evidence (ev ∷ evs) es = merge_evidence evs (merge_one ev es)

unfoldable pub merge_source : Text → List Text → List Text
merge_source src ss = if is_nil src || elem src ss then ss else ss ++ src ∷ []

unfoldable pub merged : Item → Rec → Rec
merged item r = record r {
  sources = merge_source item.source r.sources;
  frequency = r.frequency + item.frequency;
  evidence = merge_evidence item.evidence r.evidence;
}

unfoldable pub item_key : Item → Key
item_key i = record {
  connection_id = i.connection_id;
  schema = lower i.schema;
  name = lower i.table;
}

-- `fresh` is `secrets.token_hex(8)`.
unfoldable pub new_rec : Text → Item → Rec
new_rec fresh i = record {
  rec_id = fresh;
  connection_id = i.connection_id;
  schema = i.schema;
  table = i.table;
  status = open_rec;
  prior_status = none;
  registered_table_id = none;
  sources = [];
  frequency = 0;
  evidence = [];
}

-- The recommendations with the counts of those that were created and updated.
pub record Batch : Type 0 where
  pub recs : List Rec
  pub created : ℕ
  pub updated : ℕ

abbrev pub has_key : Key → Rec → Bool
has_key k r = key_eq (rec_key r) k

unfoldable pub merge_found : List Table → Text → Item → Batch → Option Rec → Batch
merge_found ts fresh item b none = if is_some (hit (item_key item) ts) then b else record b {
  recs = b.recs ++ merged item (new_rec fresh item) ∷ [];
  created = suc b.created;
}
merge_found ts fresh item b (some r) = if is_registered r.status then b else record b {
  recs = change_first (has_key (item_key item)) (merged item) b.recs;
  updated = suc b.updated;
}

unfoldable pub merge_item : List Table → Text → Item → Batch → Batch
merge_item ts fresh item b =
    if names_table (item_key item)
    then merge_found ts fresh item b (find (has_key (item_key item)) b.recs)
    else b

-- Each item comes with the id that a new recommendation would get.
unfoldable pub merge_items : List Table → List (Text × Item) → Batch → Batch
merge_items ts [] b = b
merge_items ts ((fresh, item) ∷ items) b = merge_items ts items (merge_item ts fresh item b)

unfoldable pub upsert_recommendations : List (Text × Item) → Doc → Doc × ℕ × ℕ
upsert_recommendations batch doc =
    let b =
      merge_items doc.tables batch
        (record { recs = doc.recommendations; created = 0; updated = 0 }) in
    (record doc { recommendations = b.recs }, b.created, b.updated)
