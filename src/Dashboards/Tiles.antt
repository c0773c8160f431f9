-- ===== src/Dashboards/Tiles.antt =====
-- local_store.py, class DashboardStore: the tiles of a dashboard and their layout.
use pdc_client.Base.{
  ℕ, ◌+◌, min, max, Bool, true, false, not, ◌&&◌, Option, none, some, List, [], ◌∷◌, ◌++◌, map, leb,
  ◌==◌, if◌then◌else◌, Text, nat_Eq, text_Eq, pair_Eq, str_eq,
}
use pdc_client.Base.Lists.{length, filter}
use pdc_client.Base.Strings.{codes, lower}
use pdc_client.Base.Dict.{Dict, lookup, insert}
use pdc_client.Accounts.{safe_email}
use pdc_client.Dashboards.{
  Row, Layout, Doc, Tile, Store, read_index, write_index, read_doc, write_doc, filled,
}

abbrev pub default_w : ℕ
default_w = 6

abbrev pub default_h : ℕ
default_h = 5

abbrev pub counted_row : Text → ℕ → Row → Row
counted_row dash_id n row =
    if str_eq row.dash_id dash_id then record row { tile_count = n } else row

-- `_sync_tile_count`
unfoldable pub sync_tile_count : Text → Text → Doc → Store → Store
sync_tile_count email dash_id doc st =
    write_index email (map (counted_row dash_id (length doc.tiles)) (read_index email st)) st

-- The lower end of a tile; a tile without a layout is taken to stand at the top.
abbrev pub lower_end : Option Layout → ℕ
lower_end none = default_h
lower_end (some layout) = layout.y + layout.h

-- The loop for `bottom`.
unfoldable pub bottom : List Tile → ℕ
bottom [] = 0
bottom (tile ∷ tiles) = max (lower_end tile.layout) (bottom tiles)

-- A tile of the request, before it is placed; absent `frozen` keys are `none`.
pub record NewTile : Type 0 where
  pub chat_id : Text
  pub kind : Text
  pub frozen : Option Bool
  pub frozen_reason : Option Text
  pub fields : Dict Text Text

abbrev pub last_tile : List Tile → Option Tile
last_tile [] = none
last_tile (tile ∷ []) = some tile
last_tile (tile ∷ next ∷ tiles) = last_tile (next ∷ tiles)

-- Whether a chart stands in the left half.
abbrev pub in_left_half : Option Layout → Bool
in_left_half none = false
in_left_half (some layout) = leb layout.w default_w && layout.x == 0

-- The row of the previous chart, where it leaves the right half free.
unfoldable pub paired_y : Option Tile → Option ℕ
paired_y none = none
paired_y (some tile) =
    if str_eq (lower tile.kind) (codes "chart") && in_left_half tile.layout
    then elim tile.layout [ none ↦ none | some layout ↦ some layout.y ]
    else none

abbrev pub chart_place : Option ℕ → ℕ → Layout
chart_place (some y) below = record { x = default_w; y = y; w = default_w; h = default_h }
chart_place none below = record { x = 0; y = below; w = default_w; h = default_h }

-- The place of a new tile of the kind.
unfoldable pub place : Text → List Tile → Layout
place kind tiles =
    let below = bottom tiles in
    if str_eq (lower kind) (codes "chart")
    then chart_place (paired_y (last_tile tiles)) below
    else if str_eq (lower kind) (codes "text")
    then record { x = 0; y = below; w = 12; h = 2 }
    else record { x = 0; y = below; w = 12; h = default_h }

abbrev pub or_false : Option Bool → Bool
or_false none = false
or_false (some b) = b

unfoldable pub placed_tile : Text → NewTile → List Tile → Tile
placed_tile tile_id new tiles = record {
  tile_id = tile_id;
  chat_id = new.chat_id;
  kind = new.kind;
  frozen = or_false new.frozen;
  frozen_reason = new.frozen_reason;
  fields = new.fields;
  layout = some (place new.kind tiles);
}

abbrev pub with_tile : Text → Text → Tile → Doc → Store → Store
with_tile me dash_id tile doc st =
    let grown = record doc { tiles = doc.tiles ++ tile ∷ [] } in
    sync_tile_count me dash_id grown (write_doc me dash_id grown st)

abbrev pub added_tile : Text → Text → Text → NewTile → Option Doc → Store → Option Tile × Store
added_tile me dash_id tile_id new none st = (none, st)
added_tile me dash_id tile_id new (some doc) st =
    let tile = placed_tile tile_id new doc.tiles in (some tile, with_tile me dash_id tile doc st)

-- `add_tile`, with the id that was drawn.
unfoldable pub add_tile : Text → Text → Text → NewTile → Store → Option Tile × Store
add_tile email dash_id tile_id new st =
    let me = safe_email email in added_tile me dash_id tile_id new (read_doc me dash_id st) st

abbrev pub other_tile : Text → Tile → Bool
other_tile tile_id tile = not (str_eq tile.tile_id tile_id)

abbrev pub removed_tile : Text → Text → Text → Option Doc → Store → Bool × Store
removed_tile me dash_id tile_id none st = (false, st)
removed_tile me dash_id tile_id (some doc) st =
    let keep = filter (other_tile tile_id) doc.tiles in
    let shrunk = record doc { tiles = keep } in
    if length keep == length doc.tiles
    then (false, st)
    else (true, sync_tile_count me dash_id shrunk (write_doc me dash_id shrunk st))

-- `remove_tile`
unfoldable pub remove_tile : Text → Text → Text → Store → Bool × Store
remove_tile email dash_id tile_id st =
    let me = safe_email email in removed_tile me dash_id tile_id (read_doc me dash_id st) st

-- What `int(value)` answers on a value of the request.
pub data RawInt : Type 0 where
  absent junk negative : RawInt
  number : ℕ → RawInt

pub record RawLayout : Type 0 where
  pub tile_id : Text
  pub x : RawInt
  pub y : RawInt
  pub w : RawInt
  pub h : RawInt

-- `max(low, int(value))`, with the default of an absent key.
abbrev pub at_least : ℕ → ℕ → RawInt → Option ℕ
at_least low default absent = some (max low default)
at_least low default junk = none
at_least low default negative = some low
at_least low default (number n) = some (max low n)

abbrev pub clamped : Option ℕ → Option ℕ → Option ℕ → Option ℕ → Option Layout
clamped (some x) (some y) (some w) (some h) =
    some (record { x = x; y = y; w = min 12 w; h = min 50 h })
clamped _ _ _ _ = none

unfoldable pub clamp_layout : RawLayout → Option Layout
clamp_layout raw =
    clamped (at_least 0 0 raw.x) (at_least 0 0 raw.y) (at_least 1 default_w raw.w)
      (at_least 1 default_h raw.h)

abbrev pub add_layout : Text → Option Layout → Dict Text Layout → Dict Text Layout
add_layout tile_id none by_id = by_id
add_layout tile_id (some layout) by_id =
    if filled tile_id then insert tile_id layout by_id else by_id

-- The loop for `by_id`.
unfoldable pub layouts_by_id : List RawLayout → Dict Text Layout → Dict Text Layout
layouts_by_id [] by_id = by_id
layouts_by_id (raw ∷ raws) by_id =
    layouts_by_id raws (add_layout raw.tile_id (clamp_layout raw) by_id)

abbrev pub laid_out : Dict Text Layout → Tile → Tile
laid_out by_id tile = elim (lookup tile.tile_id by_id) [
  | none ↦ tile
  | some layout ↦ record tile { layout = some layout }
]

abbrev pub laid_out_doc : Text → Text → Dict Text Layout → Option Doc → Store → Bool × Store
laid_out_doc me dash_id by_id none st = (false, st)
laid_out_doc me dash_id by_id (some doc) st =
    (true, write_doc me dash_id (record doc { tiles = map (laid_out by_id) doc.tiles }) st)

-- `update_layout`
unfoldable pub update_layout : Text → Text → List RawLayout → Store → Bool × Store
update_layout email dash_id layouts st =
    let me = safe_email email in
    laid_out_doc me dash_id (layouts_by_id layouts []) (read_doc me dash_id st) st

-- The keys of a patch that the store reads, and the others.
pub record Patch : Type 0 where
  pub frozen : Option Bool
  pub frozen_reason : Option (Option Text)
  pub fields : Dict Text Text

abbrev pub given {ℓ} : {A : Type ℓ} → Option A → A → A
given none a = a
given (some b) a = b

unfoldable pub merged : Dict Text Text → Dict Text Text → Dict Text Text
merged [] fields = fields
merged ((k, v) ∷ patch) fields = merged patch (insert k v fields)

abbrev pub patched : Patch → Tile → Tile
patched patch tile = record tile {
  frozen = given patch.frozen tile.frozen;
  frozen_reason = given patch.frozen_reason tile.frozen_reason;
  fields = merged patch.fields tile.fields;
}

-- The first tile of the id is patched.
unfoldable pub patch_tile : Text → Patch → List Tile → Option (List Tile)
patch_tile tile_id patch [] = none
patch_tile tile_id patch (tile ∷ tiles) =
    let rest = patch_tile tile_id patch tiles in
    if str_eq tile.tile_id tile_id
    then some (patched patch tile ∷ tiles)
    else elim rest [ none ↦ none | some found ↦ some (tile ∷ found) ]

abbrev pub with_tiles : Text → Text → Doc → Option (List Tile) → Store → Bool × Store
with_tiles me dash_id doc none st = (false, st)
with_tiles me dash_id doc (some tiles) st =
    (true, write_doc me dash_id (record doc { tiles = tiles }) st)

abbrev pub patched_doc : Text → Text → Text → Patch → Option Doc → Store → Bool × Store
patched_doc me dash_id tile_id patch none st = (false, st)
patched_doc me dash_id tile_id patch (some doc) st =
    with_tiles me dash_id doc (patch_tile tile_id patch doc.tiles) st

-- `update_tile`
unfoldable pub update_tile : Text → Text → Text → Patch → Store → Bool × Store
update_tile email dash_id tile_id patch st =
    let me = safe_email email in patched_doc me dash_id tile_id patch (read_doc me dash_id st) st
