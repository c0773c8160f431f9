-- ===== src/Dashboards/Tests.antt =====
-- The DashboardStore of local_store.py on concrete dashboards.
use pdc_client.Base.{
  ◌+◌, ◌≤◌, ◌≡◌, refl, true, false, not, ◌&&◌, ◌||◌, none, some, [], ◌∷◌, Text, nat_Eq, text_Eq,
  pair_Eq, str_eq,
}
use pdc_client.Base.Lists.{elem, filter, any, all, add_all}
use pdc_client.Base.Ids.{is_id}
use pdc_client.Base.Strings.{codes, strip, lower, lower_char, is_space, fold_case}
use pdc_client.Base.Dict.{lookup, insert, erase}
use pdc_client.Accounts.{safe_email}
use pdc_client.Dashboards.{Doc, Tile, Store, home_of, read_index, write_index, read_doc, write_doc}
use pdc_client.Dashboards.Boards.{create_dashboard, resolve_dashboard, pointer}
use pdc_client.Dashboards.Tiles.{
  last_tile, NewTile, absent, negative, number, RawLayout, add_tile, place, placed_tile, bottom,
  paired_y, sync_tile_count,
}
use pdc_client.Dashboards.Sharing.{
  add_dashboard_share, remove_dashboard_share, sorted_set, new_recipients, add_pointers,
  drop_pointer, is_new, insert_text, add_pointer, text_lt,
}
use pdc_client.Dashboards.Grants.{
  granted, record_chat_grants, forget_chat_grants, record_all, record_one, adds_any, is_shared_with,
  holds_chat,
}
use pdc_client.Dashboards.Revoked.{revoke_chat_grants, hand_over, kept_at, taken_over, is_other_own}
use pdc_client.Dashboards.Access.{points_to, unshared_guest_locked_out}
use pdc_client.Dashboards.Guests.{opened_to, shared_dashboard_opens}
use pdc_client.Dashboards.Placement.{clear_of, right_of_chart, new_tile_stands_clear}
use pdc_client.Dashboards.Handover.{needed_in, revoked_exactly_unneeded}
use pdc_client.Dashboards.Kept.{recorded_in, kept_grant_is_recorded}
use pdc_client.Dashboards.Deliberate.{deliberate_share_is_kept}

-- Opens the code for the runs below.
runs_open : Unit {0}
unfolding elem filter any all str_eq is_id strip lower lower_char is_space lookup insert erase
    add_all safe_email home_of read_index write_index read_doc write_doc create_dashboard
    resolve_dashboard pointer add_tile place placed_tile bottom paired_y sync_tile_count
    add_dashboard_share remove_dashboard_share sorted_set new_recipients add_pointers drop_pointer
    is_new insert_text add_pointer text_lt record_chat_grants record_all record_one adds_any
    revoke_chat_grants hand_over kept_at taken_over is_other_own is_shared_with holds_chat points_to
runs_open = tt

abbrev ann : Text
ann = codes "Ann@x.org"

abbrev bob : Text
bob = codes " Bob@x.org"

abbrev one : Text
one = codes "00000000000000d1"

abbrev two : Text
two = codes "00000000000000d2"

abbrev chat : Text
chat = codes "c1"

abbrev chart : NewTile
chart = record {
  chat_id = chat;
  kind = codes "chart";
  frozen = none;
  frozen_reason = none;
  fields = [];
}

-- Two dashboards with a tile of one chat.
abbrev start : Store
start =
    (add_tile ann two (codes "t2") chart
      (add_tile ann one (codes "t1") chart
        (create_dashboard ann two (codes "Two") 2
          (create_dashboard ann one (codes "One") 1 []).1).1).1).1

abbrev doc_one : Doc
doc_one = record {
  name = codes "One";
  owner = codes "ann@x.org";
  last_used_at = 1;
  shared_with = [];
  chat_grants = [];
  tiles = placed_tile (codes "t1") chart [] ∷ [];
}

one_found : read_doc ann one start ≡ some doc_one
unfolding runs_open
one_found = refl

shared_dashboard_opens_example :
    resolve_dashboard bob one (add_dashboard_share ann one (bob ∷ []) 3 start).1
    ≡ some (opened_to (safe_email ann) (bob ∷ []) doc_one, false)
unfolding runs_open
shared_dashboard_opens_example =
    shared_dashboard_opens ann one bob (bob ∷ []) 3 doc_one start one_found refl refl refl refl refl
      refl

abbrev shared : Store
shared =
    (add_dashboard_share ann two (bob ∷ []) 4 (add_dashboard_share ann one (bob ∷ []) 3 start).1).1

unshared_guest_locked_out_example :
    resolve_dashboard bob one (remove_dashboard_share ann one bob shared).1 ≡ none
unfolding runs_open
unshared_guest_locked_out_example = unshared_guest_locked_out ann one bob shared refl refl

abbrev granting : Store
granting = record_chat_grants ann one ((bob, chat ∷ []) ∷ []) shared

abbrev doc_granting : Doc
doc_granting = record doc_one {
  shared_with = codes "bob@x.org" ∷ [];
  chat_grants = (codes "bob@x.org", chat ∷ []) ∷ [];
}

granting_found : read_doc (safe_email ann) one granting ≡ some doc_granting
unfolding runs_open
granting_found = refl

revoked_exactly_unneeded_example : elem chat (revoke_chat_grants ann one bob granting).0 ≡ (
    elem chat (granted (fold_case bob) doc_granting.chat_grants)
    && not (
        needed_in
          (safe_email ann)
          (fold_case bob)
          one
          chat
          (read_index (safe_email ann) granting)
          granting))
revoked_exactly_unneeded_example =
    revoked_exactly_unneeded ann one bob chat doc_granting granting granting_found

kept_grant_is_recorded_example :
    recorded_in
      (safe_email ann)
      (fold_case bob)
      chat
      one
      (read_index (safe_email ann) granting)
      (revoke_chat_grants ann one bob granting).1
    ≡ true
unfolding runs_open
kept_grant_is_recorded_example =
    kept_grant_is_recorded ann one bob chat doc_granting granting granting_found refl refl

deliberate_share_is_kept_example :
    elem chat (revoke_chat_grants ann one bob (forget_chat_grants ann chat (bob ∷ []) granting)).0
    ≡ false
unfolding runs_open
deliberate_share_is_kept_example =
    deliberate_share_is_kept ann one bob chat (bob ∷ []) granting refl refl refl refl

new_tile_stands_clear_example :
    ((place (codes "table") doc_one.tiles).x + (place (codes "table") doc_one.tiles).w ≤ 12)
    × ((all (λ (t : Tile). clear_of (place (codes "table") doc_one.tiles) t.layout) doc_one.tiles
          || str_eq (lower (codes "table")) (codes "chart")
            && right_of_chart (place (codes "table") doc_one.tiles) (last_tile doc_one.tiles))
        ≡ true)
new_tile_stands_clear_example = new_tile_stands_clear (codes "table") doc_one.tiles

abbrev wide : RawLayout
wide = record { tile_id = codes "t1"; x = negative; y = absent; w = number 40; h = number 0 }

abbrev tile_one : Tile
tile_one = placed_tile (codes "t1") chart []

-- A chart that joins the row of the previous one may cover a tile that was moved to the right.
moved_right_is_covered :
    place (codes "chart") (
      record tile_one { layout = some (record { x = 6; y = 0; w = 6; h = 5 }) }
      ∷ record tile_one { layout = some (record { x = 0; y = 0; w = 6; h = 5 }) }
      ∷ [])
    ≡ record { x = 6; y = 0; w = 6; h = 5 }
unfolding runs_open
moved_right_is_covered = refl
