-- ===== src/Dashboards/Boards.antt =====
-- local_store.py, class DashboardStore: the listing, and the life of a dashboard.
use pdc_client.Base.{
  ℕ, Bool, true, false, not, ◌&&◌, ◌||◌, Option, none, some, List, [], ◌∷◌, ◌++◌, map, leb, ◌==◌,
  if◌then◌else◌, Text, nat_Eq, text_Eq, pair_Eq, str_eq,
}
use pdc_client.Base.Lists.{length, filter, elem}
use pdc_client.Base.Strings.{lower}
use pdc_client.Base.Ids.{is_id}
use pdc_client.Base.Dict.{insert, erase}
use pdc_client.Accounts.{safe_email}
use pdc_client.Dashboards.{
  Row, Doc, Store, home_of, read_index, write_index, read_doc, write_doc, doc_exists, filled,
}

-- What the listing keeps: rows with a valid id whose document, if it is another owner's, is there.
unfoldable pub is_listed : Store → Row → Bool
is_listed st row =
    is_id row.dash_id && (not (filled row.shared_by) || doc_exists row.owner row.dash_id st)

abbrev pub recency : Row → ℕ
recency row = elim row.last_used_at [ none ↦ row.created_at | some t ↦ t ]

unfoldable pub insert_recent : Row → List Row → List Row
insert_recent row [] = row ∷ []
insert_recent row (other ∷ rows) =
    let rest = insert_recent row rows in
    if leb (recency other) (recency row) then row ∷ other ∷ rows else other ∷ rest

-- The stable sort by recency, the latest first.
unfoldable pub sort_recent : List Row → List Row
sort_recent [] = []
sort_recent (row ∷ rows) = insert_recent row (sort_recent rows)

-- `list_dashboards`
unfoldable pub list_dashboards : Text → Store → List Row × Store
list_dashboards email st =
    let rows = read_index email st in
    let keep = filter (is_listed st) rows in
    (sort_recent keep, if length keep == length rows then st else write_index email keep st)

-- `create_dashboard`, with the id that was drawn.
unfoldable pub create_dashboard : Text → Text → Text → ℕ → Store → Row × Store
create_dashboard email dash_id name now st =
    let owner = safe_email email in
    let doc : Doc = record {
      name = name;
      owner = owner;
      last_used_at = now;
      shared_with = [];
      chat_grants = [];
      tiles = [];
    } in
    let row : Row = record {
      dash_id = dash_id;
      name = name;
      owner = [];
      shared_by = [];
      created_at = now;
      last_used_at = some now;
      tile_count = 0;
    } in
    let written = write_doc owner dash_id doc st in
    (row, write_index owner (read_index owner written ++ row ∷ []) written)

-- `get_dashboard`
unfoldable pub get_dashboard : Text → Text → Store → Option Doc
get_dashboard email dash_id st = read_doc email dash_id st

-- The first row that points to the dashboard.
unfoldable pub pointer : Text → List Row → Option Row
pointer dash_id [] = none
pointer dash_id (row ∷ rows) =
    if str_eq row.dash_id dash_id && filled row.shared_by then some row else pointer dash_id rows

-- A shared document, as long as it lists the caller.
abbrev pub as_guest : Text → Option Doc → Option (Doc × Bool)
as_guest me none = none
as_guest me (some doc) = if elem me (map lower doc.shared_with) then some (doc, false) else none

abbrev pub shared_doc : Text → Text → Option Row → Store → Option (Doc × Bool)
shared_doc me dash_id none st = none
shared_doc me dash_id (some row) st = as_guest me (read_doc row.owner dash_id st)

abbrev pub own_or_shared : Text → Text → Option Doc → Store → Option (Doc × Bool)
own_or_shared me dash_id (some doc) st = some (doc, true)
own_or_shared me dash_id none st = shared_doc me dash_id (pointer dash_id (read_index me st)) st

-- `resolve_dashboard`: the document, and whether the caller owns it.
unfoldable pub resolve_dashboard : Text → Text → Store → Option (Doc × Bool)
resolve_dashboard email dash_id st =
    let me = safe_email email in own_or_shared me dash_id (read_doc me dash_id st) st

abbrev live_name : Option Doc → Text → Text
live_name none name = name
live_name (some doc) name = if filled doc.name then doc.name else name

unfoldable pub touched_row : Text → ℕ → Store → Row → Row
touched_row dash_id now st row =
    if str_eq row.dash_id dash_id
    then record row {
      last_used_at = some now;
      name =
          if filled row.shared_by
          then live_name (read_doc row.owner dash_id st) row.name
          else row.name;
    }
    else row

abbrev has_row : Text → List Row → Bool
has_row dash_id [] = false
has_row dash_id (row ∷ rows) = str_eq row.dash_id dash_id || has_row dash_id rows

abbrev used_at : Text → Text → ℕ → Option Doc → Store → Store
used_at me dash_id now none st = st
used_at me dash_id now (some doc) st = write_doc me dash_id (record doc { last_used_at = now }) st

-- `touch_last_used`
unfoldable pub touch_last_used : Text → Text → ℕ → Store → Store
touch_last_used email dash_id now st =
    let me = safe_email email in
    let rows = read_index me st in
    let listed =
      if has_row dash_id rows
      then write_index me (map (touched_row dash_id now st) rows) st
      else st in
    used_at me dash_id now (read_doc me dash_id listed) listed

abbrev pub renamed_row : Text → Text → Row → Row
renamed_row dash_id name row =
    if str_eq row.dash_id dash_id then record row { name = name } else row

abbrev pub renamed : Text → Text → Text → Option Doc → Store → Bool × Store
renamed me dash_id name none st = (false, st)
renamed me dash_id name (some doc) st =
    let written = write_doc me dash_id (record doc { name = name }) st in
    (true, write_index me (map (renamed_row dash_id name) (read_index me written)) written)

-- `rename_dashboard`
unfoldable pub rename_dashboard : Text → Text → Text → Store → Bool × Store
rename_dashboard email dash_id name st =
    let me = safe_email email in renamed me dash_id name (read_doc me dash_id st) st

abbrev pub other_row : Text → Row → Bool
other_row dash_id row = not (str_eq row.dash_id dash_id)

-- `delete_dashboard`
unfoldable pub delete_dashboard : Text → Text → Store → Bool × Store
delete_dashboard email dash_id st =
    let me = safe_email email in
    let home = home_of me st in
    let removed = insert me (record home { docs = erase dash_id home.docs }) st in
    if is_id dash_id
    then (true, write_index me (filter (other_row dash_id) (read_index me removed)) removed)
    else (false, st)

-- `remove_from_index`
unfoldable pub remove_from_index : Text → Text → Store → Bool × Store
remove_from_index email dash_id st =
    let me = safe_email email in
    let rows = read_index me st in
    let keep = filter (other_row dash_id) rows in
    if length keep == length rows then (false, st) else (true, write_index me keep st)
