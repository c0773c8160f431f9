-- ===== src/Dashboards/Placement.antt =====
-- local_store.py, class DashboardStore: where tiles stand in the grid.
use pdc_client.Base.{
  ℕ, ◌+◌, ◌≤◌, ◌≡◌, refl, sym, ◌∙◌, ◌⊎◌, inl, inr, Bool, true, false, ◌&&◌, ◌||◌, ◌==◌, Option,
  none, some, List, [], ◌∷◌, arith, leb, Bool-cases, Option-cases, if_both, Text, nat_Eq, text_Eq,
  pair_Eq, str_eq,
}
use pdc_client.Base.Lists.{all}
use pdc_client.Base.Strings.{codes, lower}
use pdc_client.Base.Dict.{Dict, lookup, insert, lookup-insert}
use pdc_client.Dashboards.{Layout, Tile, filled}
use pdc_client.Dashboards.Tiles.{
  bottom, last_tile, paired_y, place, RawLayout, clamp_layout, layouts_by_id, laid_out, add_layout,
  default_w, default_h, in_left_half,
}

-- Whether two places share no cell.
abbrev pub clear_of : Layout → Option Layout → Bool
clear_of a none = true
clear_of a (some b) =
    leb (a.x + a.w) b.x || leb (b.x + b.w) a.x || leb (a.y + a.h) b.y || leb (b.y + b.h) a.y

below_all :
    (a : Layout) (tiles : List Tile)
    → bottom tiles ≤ a.y
    → all (λ (t : Tile). clear_of a t.layout) tiles ≡ true
unfolding all bottom
below_all a [] h = refl
below_all a (t ∷ tiles) h = elim (Option-cases t.layout) [
  | inl floating ↦ rw floating (ground (arith, h, below_all a tiles))
  | inr (b, placed) ↦ rw placed (ground (arith, h, placed, below_all a tiles))
]

-- Whether a place lies in the row of another one, to the right of it.
abbrev pub right_of : Layout → Option Layout → Bool
right_of a none = false
right_of a (some b) = a.y == b.y && leb (b.x + b.w) a.x

-- Whether a place lies in the row of a chart, to the right of it.
abbrev pub right_of_chart : Layout → Option Tile → Bool
right_of_chart a none = false
right_of_chart a (some t) = str_eq (lower t.kind) (codes "chart") && right_of a t.layout

left_half-right_of :
    (o : Option Layout) (y : ℕ)
    → in_left_half o ≡ true
    → (elim o [ none ↦ none | some layout ↦ some layout.y ]) ≡ some y
    → right_of (record { x = default_w; y = y; w = default_w; h = default_h }) o ≡ true
left_half-right_of none y l h = cc
left_half-right_of (some b) y l h = ground (arith, l, h)

paired_layout :
    (t : Tile)
    → str_eq (lower t.kind) (codes "chart") && in_left_half t.layout ≡ true
    → paired_y (some t) ≡ (elim t.layout [ none ↦ none | some layout ↦ some layout.y ])
unfolding paired_y
paired_layout t left = rw left refl

paired_right :
    (o : Option Tile) (y : ℕ)
    → paired_y o ≡ some y
    → right_of_chart (record { x = default_w; y = y; w = default_w; h = default_h }) o ≡ true
unfolding paired_y
paired_right none y h = cc
paired_right (some t) y h =
    elim (Bool-cases (str_eq (lower t.kind) (codes "chart") && in_left_half t.layout)) [
      | inl left ↦ ground (
        arith,
        left,
        left_half-right_of t.layout y (ground (arith, left)) (sym (paired_layout t left) ∙ h),
      )
      | inr free ↦ ground (arith, free, h)
    ]

-- A new tile stays within the 12 columns. It shares no cell with any tile that has a place, or it is a
-- chart in the row of the last tile, another chart, to the right of it.
pub new_tile_stands_clear :
    (kind : Text) (tiles : List Tile)
    → ((place kind tiles).x + (place kind tiles).w ≤ 12)
      × ((all (λ (t : Tile). clear_of (place kind tiles) t.layout) tiles
            || str_eq (lower kind) (codes "chart")
              && right_of_chart (place kind tiles) (last_tile tiles))
          ≡ true)
unfolding place
new_tile_stands_clear kind tiles =
    let at_bottom : ℕ → ℕ → Layout = λ w h. record { x = 0; y = bottom tiles; w = w; h = h } in
    elim (Bool-cases (str_eq (lower kind) (codes "chart"))) [
      | inl chart ↦ rw chart (elim (Option-cases (paired_y (last_tile tiles))) [
        | inl alone ↦ rw alone (
          omega arith,
          ground (arith, below_all (at_bottom default_w default_h) tiles (omega arith)),
        )
        | inr (y, paired) ↦
            rw paired (omega arith, ground (arith, paired_right (last_tile tiles) y paired))
      ])
      | inr other ↦ rw other (elim (Bool-cases (str_eq (lower kind) (codes "text"))) [
        | inl words ↦
            rw words (omega arith, ground (arith, below_all (at_bottom 12 2) tiles (omega arith)))
        | inr wide ↦
            rw wide
              (omega arith, ground (arith, below_all (at_bottom 12 default_h) tiles (omega arith)))
      ])
    ]

-- A layout that was clamped.
pub IsClamped : Layout → Type 0
IsClamped a = (1 ≤ a.w) × (a.w ≤ 12) × (1 ≤ a.h) × (a.h ≤ 50)

clamp_layout-IsClamped : (raw : RawLayout) (a : Layout) → clamp_layout raw ≡ some a → IsClamped a
unfolding clamp_layout IsClamped
clamp_layout-IsClamped raw a h = ground (arith, h)

-- Whether the layouts of a dictionary are clamped.
abbrev AllClamped : Dict Text Layout → Type 0
AllClamped by_id = (id : Text) (a : Layout) → lookup id by_id ≡ some a → IsClamped a

AllClamped-add_layout :
    (tile_id : Text) (new : Option Layout) (by_id : Dict Text Layout)
    → ((a : Layout) → new ≡ some a → IsClamped a)
    → AllClamped by_id
    → AllClamped (add_layout tile_id new by_id)
AllClamped-add_layout tile_id none by_id clamps h = h
AllClamped-add_layout tile_id (some b) by_id clamps h =
    if_both AllClamped (filled tile_id) (insert tile_id b by_id) by_id
      (λ id a found.
        ground (arith, lookup-insert tile_id id b by_id, found, h id a, clamps a, clamps b refl))
      h

AllClamped-layouts_by_id :
    (raws : List RawLayout) (by_id : Dict Text Layout)
    → AllClamped by_id
    → AllClamped (layouts_by_id raws by_id)
unfolding layouts_by_id
AllClamped-layouts_by_id [] by_id h = h
AllClamped-layouts_by_id (raw ∷ raws) by_id h =
    AllClamped-layouts_by_id raws (add_layout raw.tile_id (clamp_layout raw) by_id)
      (AllClamped-add_layout raw.tile_id (clamp_layout raw) by_id (clamp_layout-IsClamped raw) h)

empty_clamped : AllClamped []
unfolding lookup
empty_clamped id a found = cc

-- Whatever layouts are sent, a tile either keeps its layout or gets one that is between 1 and 12
-- columns wide and between 1 and 50 rows high.
pub saved_layouts-IsClamped :
    (raws : List RawLayout) (tile : Tile)
    → (laid_out (layouts_by_id raws []) tile ≡ tile)
      ⊎ ((a : Layout) × (laid_out (layouts_by_id raws []) tile ≡ record tile { layout = some a })
          × IsClamped a)
saved_layouts-IsClamped raws tile =
    elim (Option-cases (lookup tile.tile_id (layouts_by_id raws []))) [
      | inl unknown ↦ inl (rw (unknown, laid_out) refl)
      | inr (a, sent) ↦ inr (
        a,
        rw (sent, laid_out) refl,
        AllClamped-layouts_by_id raws [] empty_clamped tile.tile_id a sent,
      )
    ]
