-- ===== src/Dashboards/Grants.antt =====
-- local_store.py, class DashboardStore: the grants on source chats that a share created. A grant is
-- recorded on the document, for the recipient.
use pdc_client.Base.{
  Bool, false, not, ◌&&◌, ◌||◌, Option, none, some, List, [], ◌∷◌, map, if◌then◌else◌, Text, nat_Eq,
  text_Eq, pair_Eq, str_eq,
}
use pdc_client.Base.Lists.{filter, any, elem, add_all, is_nil}
use pdc_client.Base.Strings.{fold_case}
use pdc_client.Base.Dict.{Dict, lookup, insert, erase}
use pdc_client.Accounts.{safe_email}
use pdc_client.Dashboards.{Row, Doc, Tile, Store, read_index, read_doc, write_doc, filled}

abbrev pub list_or_empty : Option (List Text) → List Text
list_or_empty none = []
list_or_empty (some xs) = xs

-- The chats that are recorded for a recipient.
abbrev pub granted : Text → Dict Text (List Text) → List Text
granted rcpt grants = list_or_empty (lookup rcpt grants)

-- The loop over the grants of one recipient, and over the recipients.
unfoldable pub record_one : Text → List Text → Dict Text (List Text) → Dict Text (List Text)
record_one rcpt chats grants =
    let have = add_all (filter filled chats) (granted rcpt grants) in
    if is_nil have then grants else insert rcpt have grants

unfoldable pub record_all : List (Text × List Text) → Dict Text (List Text) → Dict Text (List Text)
record_all [] grants = grants
record_all ((rcpt, chats) ∷ more) grants =
    record_all more (record_one (fold_case rcpt) chats grants)

-- Whether one of the grants is not recorded yet.
unfoldable pub adds_any : List (Text × List Text) → Dict Text (List Text) → Bool
adds_any [] grants = false
adds_any ((rcpt, chats) ∷ more) grants =
    any (λ c. not (elem c (granted (fold_case rcpt) grants))) (filter filled chats)
    || adds_any more (record_one (fold_case rcpt) chats grants)

abbrev pub recorded : Text → Text → List (Text × List Text) → Option Doc → Store → Store
recorded me dash_id grants none st = st
recorded me dash_id grants (some doc) st =
    if adds_any grants doc.chat_grants
    then write_doc me dash_id (record doc { chat_grants = record_all grants doc.chat_grants }) st
    else st

-- `record_chat_grants`
unfoldable pub record_chat_grants : Text → Text → List (Text × List Text) → Store → Store
record_chat_grants email dash_id grants st =
    let me = safe_email email in recorded me dash_id grants (read_doc me dash_id st) st

abbrev pub other_chat : Text → Text → Bool
other_chat chat c = not (str_eq c chat)

-- One recipient's record without the chat; an empty record goes.
unfoldable pub forget_one : Text → Text → Dict Text (List Text) → Dict Text (List Text)
forget_one chat rcpt grants =
    let have = filter (other_chat chat) (granted rcpt grants) in
    if elem chat (granted rcpt grants)
    then if is_nil have then erase rcpt grants else insert rcpt have grants
    else grants

unfoldable pub forget_all : Text → List Text → Dict Text (List Text) → Dict Text (List Text)
forget_all chat [] grants = grants
forget_all chat (rcpt ∷ rcpts) grants = forget_all chat rcpts (forget_one chat rcpt grants)

abbrev pub names_any : Text → List Text → Dict Text (List Text) → Bool
names_any chat rcpts grants = any (λ rcpt. elem chat (granted rcpt grants)) rcpts

-- A row of an own dashboard.
abbrev pub is_own_row : Row → Bool
is_own_row row = not (filled row.shared_by) && filled row.dash_id

abbrev pub forgotten : Text → Text → Text → List Text → Option Doc → Store → Store
forgotten me dash_id chat rcpts none st = st
forgotten me dash_id chat rcpts (some doc) st =
    if names_any chat rcpts doc.chat_grants
    then write_doc me dash_id (record doc { chat_grants = forget_all chat rcpts doc.chat_grants })
        st
    else st

-- The loop over the index.
unfoldable pub forget_in : Text → Text → List Text → List Row → Store → Store
forget_in me chat rcpts [] st = st
forget_in me chat rcpts (row ∷ rows) st =
    let next =
      if is_own_row row
      then forgotten me row.dash_id chat rcpts (read_doc me row.dash_id st) st
      else st in
    forget_in me chat rcpts rows next

abbrev pub addresses : List Text → List Text
addresses recipients = map fold_case (filter filled recipients)

-- `forget_chat_grants`
unfoldable pub forget_chat_grants : Text → Text → List Text → Store → Store
forget_chat_grants email chat recipients st =
    let me = safe_email email in
    let targets = addresses recipients in
    if filled chat && not (is_nil targets)
    then forget_in me chat targets (read_index me st) st
    else st

-- Whether a document is shared with the recipient.
unfoldable pub is_shared_with : Text → Doc → Bool
is_shared_with rcpt doc = elem rcpt (map fold_case doc.shared_with)

unfoldable pub holds_chat : Text → Doc → Bool
holds_chat chat doc = any (λ (t : Tile). str_eq t.chat_id chat) doc.tiles

abbrev pub needs_chat : Text → Text → Option Doc → Bool
needs_chat chat rcpt none = false
needs_chat chat rcpt (some doc) = is_shared_with rcpt doc && holds_chat chat doc

-- The loop over the index.
unfoldable pub needing : Text → Text → Text → List Row → Store → Option Text
needing me chat rcpt [] st = none
needing me chat rcpt (row ∷ rows) st =
    if is_own_row row && needs_chat chat rcpt (read_doc me row.dash_id st)
    then some row.dash_id
    else needing me chat rcpt rows st

-- `dashboard_needing_chat`
unfoldable pub dashboard_needing_chat : Text → Text → Text → Store → Option Text
dashboard_needing_chat email chat recipient st =
    let me = safe_email email in
    let rcpt = fold_case recipient in
    if filled chat && filled rcpt then needing me chat rcpt (read_index me st) st else none
