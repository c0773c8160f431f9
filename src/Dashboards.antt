-- ===== src/Dashboards.antt =====
-- local_store.py, class DashboardStore: the dashboards under each account's folder, with the index of
-- the listing and one document for each own dashboard. The `dash_id` inside a document is its file's
-- name. A missing index and an unreadable one read alike, and so do an absent sharing section and an
-- empty one. `updated_at`, which no decision reads, is left out. The lock makes each operation one step.
pub mod Boards
pub mod Tiles
pub mod Sharing
pub mod Grants
pub mod Revoked
pub mod Laws
pub mod Access
pub mod Guests
pub mod Placement
pub mod Handover
pub mod Kept
pub mod Deliberate
mod Tests
use pdc_client.Base.{
  ℕ, zero, suc, ◌+◌, ◌-◌, ◌*◌, ◌/◌, ◌%◌, ◌^◌, ◌≤◌, ◌<◌, min, max, ◌≡◌, refl, sym, ap, ◌∙◌, ◌≢◌, ◌↔◌,
  ◌⊎◌, inl, inr, Bool, true, false, not, ◌&&◌, ◌||◌, Option, none, some, List, [], ◌∷◌, ◌++◌, map,
  arith, ltb, leb, ◌==◌, if◌then◌else◌, leb→le, le→leb, ltb→lt, ==_iff, Bool-cases, Option-cases,
  is_some, if_both, Eq, Text, str_eq_iff, str_eq_refl, nat_Eq, text_Eq, pair_Eq, str_eq,
}
use pdc_client.Base.Ids.{is_id}
use pdc_client.Base.Dict.{Dict, lookup, insert}
use pdc_client.Accounts.{safe_email}

-- A row of the index; a row with `shared_by` points to the document of another owner. An absent text
-- reads as the empty one.
pub record Row : Type 0 where
  pub dash_id : Text
  pub name : Text
  pub owner : Text
  pub shared_by : Text
  pub created_at : ℕ
  pub last_used_at : Option ℕ
  pub tile_count : ℕ

-- A place in the grid of 12 columns.
pub record Layout : Type 0 where
  pub x : ℕ
  pub y : ℕ
  pub w : ℕ
  pub h : ℕ

-- `fields` are the keys that the store only carries.
pub record Tile : Type 0 where
  pub tile_id : Text
  pub chat_id : Text
  pub kind : Text
  pub frozen : Bool
  pub frozen_reason : Option Text
  pub fields : Dict Text Text
  pub layout : Option Layout

pub record Doc : Type 0 where
  pub name : Text
  pub owner : Text
  pub last_used_at : ℕ
  pub shared_with : List Text
  pub chat_grants : Dict Text (List Text)
  pub tiles : List Tile

-- `none` is a document that cannot be read.
pub record Home : Type 0 where
  pub index : Option (List Row)
  pub docs : Dict Text (Option Doc)

-- The dashboards folder of each account.
abbrev pub Store : Type 0
Store = Dict Text Home

abbrev pub empty_home : Home
empty_home = record { index = none; docs = [] }

abbrev pub home_or_empty : Option Home → Home
home_or_empty none = empty_home
home_or_empty (some home) = home

-- `_dir`
unfoldable pub home_of : Text → Store → Home
home_of email st = home_or_empty (lookup (safe_email email) st)

abbrev pub rows_or_none : Option (List Row) → List Row
rows_or_none none = []
rows_or_none (some rows) = rows

-- `_read_index`
unfoldable pub read_index : Text → Store → List Row
read_index email st = rows_or_none (home_of email st).index

-- `_write_index`
unfoldable pub write_index : Text → List Row → Store → Store
write_index email rows st =
    insert (safe_email email) (record (home_of email st) { index = some rows }) st

abbrev pub readable_doc : Option (Option Doc) → Option Doc
readable_doc none = none
readable_doc (some doc) = doc

-- `_read_doc`
unfoldable pub read_doc : Text → Text → Store → Option Doc
read_doc email dash_id st =
    if is_id dash_id then readable_doc (lookup dash_id (home_of email st).docs) else none

-- `_write_doc`
unfoldable pub write_doc : Text → Text → Doc → Store → Store
write_doc email dash_id doc st =
    let home = home_of email st in
    insert (safe_email email) (record home { docs = insert dash_id (some doc) home.docs }) st

-- `_doc_path(…).exists()`
unfoldable pub doc_exists : Text → Text → Store → Bool
doc_exists email dash_id st = is_some (lookup dash_id (home_of email st).docs)

-- Python's truth of a text.
abbrev pub filled : Text → Bool
filled [] = false
filled (c ∷ s) = true
