-- ===== src/DataSources.antt =====
-- db_sources.py, class DataSourceStore: the registry of connections, tables and recommended tables.
-- An absent text reads as the empty one, an absent status of a recommendation as open, and `other_fields`
-- are the keys that the store only carries. The lock makes each operation one step; the audit rows, the
-- log lines and the snapshot files are left out.
pub mod Recommended
pub mod Registry
pub mod Merge
pub mod Modes
pub mod Settled
pub mod Merged
pub mod Runs
pub mod Restored
pub mod Removal
pub mod Closure
pub mod Reach
pub mod Explored
pub mod Expansion
pub mod Pulled
mod Tests
use pdc_client.Base.{
  ℕ, zero, suc, ◌+◌, ◌-◌, ◌*◌, ◌/◌, ◌%◌, ◌^◌, ◌≤◌, ◌<◌, min, max, ◌≡◌, refl, sym, ap, ◌∙◌, ◌≢◌, ◌↔◌,
  ◌⊎◌, inl, inr, Bool, true, false, not, ◌&&◌, ◌||◌, Option, none, some, List, [], ◌∷◌, ◌++◌, map,
  arith, ltb, leb, ◌==◌, if◌then◌else◌, leb→le, le→leb, ltb→lt, ==_iff, Bool-cases, Option-cases,
  is_some, if_both, Eq, Text, str_eq_iff, str_eq_refl, nat_Eq, text_Eq, pair_Eq, str_eq,
}
use pdc_client.Base.Dict.{Dict}
use pdc_client.Schedules.{Schedule}

-- A relation of a table: `related_table_id` and `related_table`.
pub record Relation : Type 0 where
  pub related_table_id : Text
  pub related_table : Text

pub record Table : Type 0 where
  pub table_id : Text
  pub connection_id : Text
  pub schema : Text
  pub table_name : Text
  pub is_connector : Bool
  pub mode : Option Text
  pub live_reason : Option Text
  pub live_set_by : Option Text
  pub live_set_at : Option ℕ
  pub live_profiled_at : Option Text
  pub live_sample_rows : Option ℕ
  pub row_count : Option ℕ
  pub registered_by : Text
  pub relations : List Relation
  pub schedule : Option Schedule
  pub schedule_last_fired_at : Option Text
  pub last_checked_at : Option ℕ
  pub other_fields : Dict Text Text

pub record Connection : Type 0 where
  pub connection_id : Text
  pub owner : Text
  pub other_fields : Dict Text Text

pub data Status : Type 0 where
  open_rec : Status
  dismissed : Status
  registered : Status

-- Why a table is recommended: another table that joins with it, on pairs of columns.
pub record Evidence : Type 0 where
  pub origin : Text
  pub other_connection : Text
  pub other_schema : Text
  pub other_table : Text
  pub pairs : List (Text × Text)
  pub count : ℕ

-- One recommended table, without the times at which it was seen.
pub record Rec : Type 0 where
  pub rec_id : Text
  pub connection_id : Text
  pub schema : Text
  pub table : Text
  pub status : Status
  pub prior_status : Option Status
  pub registered_table_id : Option Text
  pub sources : List Text
  pub frequency : ℕ
  pub evidence : List Evidence

pub record Doc : Type 0 where
  pub connections : List Connection
  pub tables : List Table
  pub recommendations : List Rec

-- The loop that changes the first entry of a list with a property.
unfoldable pub change_first {ℓ} : {A : Type ℓ} → (A → Bool) → (A → A) → List A → List A
change_first p f [] = []
change_first p f (x ∷ xs) = let rest = change_first p f xs in if p x then f x ∷ xs else x ∷ rest

unfoldable pub find {ℓ} : {A : Type ℓ} → (A → Bool) → List A → Option A
find p [] = none
find p (x ∷ xs) = let rest = find p xs in if p x then some x else rest
