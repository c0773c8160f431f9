-- ===== src/Dashboards/Revoked.antt =====
-- local_store.py, class DashboardStore: taking back the grants on source chats that a share created.
use pdc_client.Base.{
  Bool, not, ◌&&◌, Option, none, some, List, [], ◌∷◌, ◌++◌, if◌then◌else◌, Text, nat_Eq, text_Eq,
  pair_Eq, str_eq,
}
use pdc_client.Base.Lists.{filter, elem, add_all, is_nil}
use pdc_client.Base.Strings.{fold_case}
use pdc_client.Base.Dict.{insert, erase}
use pdc_client.Accounts.{safe_email}
use pdc_client.Dashboards.{Row, Doc, Store, read_index, read_doc, write_doc}
use pdc_client.Dashboards.Grants.{granted, is_own_row, is_shared_with, holds_chat}

-- The candidates that another dashboard takes over.
unfoldable pub taken_over : Text → List Text → List Text → Doc → List Text
taken_over rcpt candidates still doc =
    if is_shared_with rcpt doc
    then filter (λ c. holds_chat c doc && not (elem c still)) candidates
    else []

-- The record moves to the other dashboard.
abbrev pub with_grants : Text → List Text → Doc → Doc
with_grants rcpt kept doc = record doc {
  chat_grants = insert rcpt (add_all kept (granted rcpt doc.chat_grants)) doc.chat_grants;
}

abbrev pub moved_to : Text → Text → Text → List Text → Option Doc → Store → Store
moved_to me dash_id rcpt kept none st = st
moved_to me dash_id rcpt kept (some doc) st =
    if is_nil kept then st else write_doc me dash_id (with_grants rcpt kept doc) st

abbrev pub taken_or_none : Text → List Text → List Text → Option Doc → List Text
taken_or_none rcpt candidates still none = []
taken_or_none rcpt candidates still (some doc) = taken_over rcpt candidates still doc

-- A row of another own dashboard.
unfoldable pub is_other_own : Text → Row → Bool
is_other_own dash_id row = is_own_row row && not (str_eq row.dash_id dash_id)

-- What one row of the index takes over.
unfoldable pub kept_at : Text → Text → List Text → List Text → Row → Option Doc → List Text
kept_at dash_id rcpt candidates still row other =
    if is_other_own dash_id row then taken_or_none rcpt candidates still other else []

-- The loop over the index: the chats that stay needed, and the store.
unfoldable pub hand_over :
    Text → Text → Text → List Text → List Text → List Row → Store → List Text × Store
hand_over me dash_id rcpt candidates still [] st = (still, st)
hand_over me dash_id rcpt candidates still (row ∷ rows) st =
    let other = read_doc me row.dash_id st in
    let kept = kept_at dash_id rcpt candidates still row other in
    hand_over me dash_id rcpt candidates (still ++ kept) rows
      (moved_to me row.dash_id rcpt kept other st)

abbrev pub not_needed : List Text → Text → Bool
not_needed still c = not (elem c still)

abbrev pub revoked_from : Text → Text → Text → Option Doc → Store → List Text × Store
revoked_from me dash_id rcpt none st = ([], st)
revoked_from me dash_id rcpt (some doc) st =
    let candidates = granted rcpt doc.chat_grants in
    let moved = hand_over me dash_id rcpt candidates [] (read_index me st) st in
    let cleared = record doc { chat_grants = erase rcpt doc.chat_grants } in
    if is_nil candidates
    then ([], st)
    else (filter (not_needed moved.0) candidates, write_doc me dash_id cleared moved.1)

-- `revoke_chat_grants`: the chats to which the recipient loses the access. The calls that take the
-- address off those chats are not part of this store.
unfoldable pub revoke_chat_grants : Text → Text → Text → Store → List Text × Store
revoke_chat_grants email dash_id recipient st =
    let me = safe_email email in
    revoked_from me dash_id (fold_case recipient) (read_doc me dash_id st) st
