-- ===== src/Dashboards/Sharing.antt =====
-- local_store.py, class DashboardStore: sharing a dashboard and taking the share back.
use pdc_client.Base.{
  ℕ, Bool, true, false, not, ◌&&◌, ◌||◌, Option, none, some, List, [], ◌∷◌, ◌++◌, map, ltb, ◌==◌,
  if◌then◌else◌, Text, nat_Eq, text_Eq, pair_Eq, str_eq,
}
use pdc_client.Base.Lists.{length, filter, any, elem}
use pdc_client.Base.Strings.{lower, fold_case}
use pdc_client.Accounts.{safe_email}
use pdc_client.Dashboards.{Row, Doc, Store, read_index, write_index, read_doc, write_doc, filled}

-- The order of texts by their characters.
unfoldable pub text_lt : Text → Text → Bool
text_lt s [] = false
text_lt [] (d ∷ t) = true
text_lt (c ∷ s) (d ∷ t) = ltb c d || c == d && text_lt s t

unfoldable pub insert_text : Text → List Text → List Text
insert_text a [] = a ∷ []
insert_text a (b ∷ bs) =
    let rest = insert_text a bs in
    if str_eq b a then b ∷ bs else if text_lt a b then a ∷ b ∷ bs else b ∷ rest

-- `sorted` on the set of the texts.
unfoldable pub sorted_set : List Text → List Text
sorted_set [] = []
sorted_set (a ∷ bs) = insert_text a (sorted_set bs)

-- The recipients that the document does not list yet.
unfoldable pub is_new : Text → List Text → Text → Bool
is_new owner existing r = filled r && not (str_eq r owner) && not (elem r existing)

unfoldable pub new_recipients : Text → List Text → List Text → List Text
new_recipients owner existing recipients =
    filter (is_new owner existing) (map safe_email (filter filled recipients))

abbrev pub pointer_row : Text → Text → Text → ℕ → Row
pointer_row owner dash_id name now = record {
  dash_id = dash_id;
  name = name;
  owner = owner;
  shared_by = owner;
  created_at = now;
  last_used_at = none;
  tile_count = 0;
}

abbrev pub is_row_of : Text → Row → Bool
is_row_of dash_id row = str_eq row.dash_id dash_id

-- One round of the loop over the new recipients.
unfoldable pub add_pointer : Row → Text → Store → Store
add_pointer row rcpt st =
    let rows = read_index rcpt st in
    if any (is_row_of row.dash_id) rows then st else write_index rcpt (rows ++ row ∷ []) st

unfoldable pub add_pointers : Row → List Text → Store → Store
add_pointers row [] st = st
add_pointers row (rcpt ∷ rcpts) st = add_pointers row rcpts (add_pointer row rcpt st)

abbrev pub shared_by_owner : Text → Text → List Text → ℕ → Option Doc → Store → List Text × Store
shared_by_owner me dash_id recipients now none st = ([], st)
shared_by_owner me dash_id recipients now (some doc) st =
    let new = new_recipients me doc.shared_with recipients in
    let listed = record doc { shared_with = sorted_set (doc.shared_with ++ new) } in
    (new, add_pointers (pointer_row me dash_id doc.name now) new (write_doc me dash_id listed st))

-- `add_dashboard_share`
unfoldable pub add_dashboard_share : Text → Text → List Text → ℕ → Store → List Text × Store
add_dashboard_share email dash_id recipients now st =
    let me = safe_email email in
    shared_by_owner me dash_id recipients now (read_doc me dash_id st) st

abbrev pub other_guest : Text → Text → Bool
other_guest rcpt s = not (str_eq (fold_case s) rcpt)

-- The rows that do not point to the dashboard of the owner.
abbrev pub other_pointer : Text → Text → Row → Bool
other_pointer owner dash_id row =
    not (str_eq row.dash_id dash_id && str_eq (lower row.shared_by) owner)

-- The recipient's index is rewritten where it changes.
unfoldable pub drop_pointer : Text → Text → Text → Store → Store
drop_pointer owner dash_id rcpt st =
    let rows = read_index rcpt st in
    let keep = filter (other_pointer owner dash_id) rows in
    if length keep == length rows then st else write_index rcpt keep st

abbrev pub unshared : Text → Text → Text → Option Doc → Store → Option (List Text) × Store
unshared me dash_id rcpt none st = (none, st)
unshared me dash_id rcpt (some doc) st =
    let remaining = filter (other_guest rcpt) doc.shared_with in
    let listed =
      if length remaining == length doc.shared_with
      then st
      else write_doc me dash_id (record doc { shared_with = remaining }) st in
    (some remaining, drop_pointer me dash_id rcpt listed)

-- `remove_dashboard_share`
unfoldable pub remove_dashboard_share : Text → Text → Text → Store → Option (List Text) × Store
remove_dashboard_share email dash_id recipient st =
    let me = safe_email email in
    unshared me dash_id (safe_email recipient) (read_doc me dash_id st) st
