-- ===== src/Dashboards/Guests.antt =====
-- local_store.py, class DashboardStore: a dashboard that was shared opens for the recipient.
use pdc_client.Base.{
  ℕ, ◌≡◌, refl, sym, ap, ◌∙◌, Bool, true, false, not, ◌&&◌, ◌||◌, none, some, List, [], ◌∷◌, ◌++◌,
  map, arith, if◌then◌else◌, Text, str_eq_iff, str_eq_refl, nat_Eq, text_Eq, pair_Eq, str_eq,
}
use pdc_client.Base.Lists.{filter, any, elem, any-append, elem-append}
use pdc_client.Base.Strings.{lower}
use pdc_client.Accounts.{safe_email}
use pdc_client.Accounts.Laws.{safe_email_idem, fold_case-safe_email, safe_email-ne-nil}
use pdc_client.Dashboards.{Row, Doc, Store, read_index, read_doc, write_doc, filled}
use pdc_client.Dashboards.Laws.{
  same_home, read_index-write_index, read_index-write_doc, read_doc-write_index, read_doc-write_doc,
  read_doc-safe_email, read_index-safe_email, is_id-read_doc,
}
use pdc_client.Dashboards.Boards.{pointer, resolve_dashboard}
use pdc_client.Dashboards.Sharing.{
  sorted_set, insert_text, is_new, new_recipients, pointer_row, is_row_of, add_pointer,
  add_pointers, add_dashboard_share,
}
use pdc_client.Dashboards.Access.{lower_folded}

elem-insert_text :
    (r a : Text) (xs : List Text) → elem r (insert_text a xs) ≡ (str_eq a r || elem r xs)
unfolding insert_text elem
elem-insert_text r a [] = refl
elem-insert_text r a (b ∷ xs) =
    ground (arith, elem-insert_text r a xs, str_eq_iff b a, str_eq_iff b r, str_eq_iff a r)

pub elem-sorted_set : (r : Text) (xs : List Text) → elem r (sorted_set xs) ≡ elem r xs
unfolding sorted_set elem
elem-sorted_set r [] = refl
elem-sorted_set r (a ∷ xs) =
    ground (arith, elem-sorted_set r xs, elem-insert_text r a (sorted_set xs))

elem-map-lower :
    (r : Text) (xs : List Text) → elem r xs ≡ true → elem (lower r) (map lower xs) ≡ true
unfolding elem
elem-map-lower r [] h = ground (arith, h)
elem-map-lower r (x ∷ xs) h = ground (
  arith,
  h,
  elem-map-lower r xs,
  str_eq_iff x r,
  str_eq_iff (lower x) (lower r),
  str_eq_refl (lower r),
)

read_doc-add_pointer :
    (b id : Text) (row : Row) (rcpt : Text) (st : Store)
    → read_doc b id (add_pointer row rcpt st) ≡ read_doc b id st
unfolding add_pointer
read_doc-add_pointer b id row rcpt st =
    ground (arith, read_doc-write_index rcpt b st id (read_index rcpt st ++ row ∷ []))

read_doc-add_pointers :
    (b id : Text) (row : Row) (rcpts : List Text) (st : Store)
    → read_doc b id (add_pointers row rcpts st) ≡ read_doc b id st
unfolding add_pointers
read_doc-add_pointers b id row [] st = refl
read_doc-add_pointers b id row (rcpt ∷ rcpts) st =
    read_doc-add_pointers b id row rcpts (add_pointer row rcpt st)
    ∙ read_doc-add_pointer b id row rcpt st

-- Whether the index has a row of the row's dashboard.
has_row_of : Row → Text → Store → Bool
has_row_of row g st = any (is_row_of row.dash_id) (read_index g st)

same_index :
    (g rcpt : Text) (st : Store) → same_home g rcpt ≡ true → read_index rcpt st ≡ read_index g st
same_index g rcpt st h =
    sym (read_index-safe_email rcpt st)
    ∙ ap (λ n. read_index n st) (sym ((str_eq_iff (safe_email g) (safe_email rcpt)).0 h))
    ∙ read_index-safe_email g st

index-add_pointer :
    (g : Text) (row : Row) (rcpt : Text) (st : Store)
    → read_index g (add_pointer row rcpt st) ≡ (
        if same_home g rcpt && not (has_row_of row g st)
        then read_index g st ++ row ∷ []
        else read_index g st)
unfolding add_pointer has_row_of
index-add_pointer g row rcpt st = ground (
  arith,
  read_index-write_index rcpt g st (read_index rcpt st ++ row ∷ []),
  same_index g rcpt st,
  str_eq_iff (safe_email g) (safe_email rcpt),
  str_eq_iff (safe_email rcpt) (safe_email g),
)

index-add_pointers :
    (g : Text) (row : Row) (rcpts : List Text) (st : Store)
    → read_index g (add_pointers row rcpts st) ≡ (
        if any (same_home g) rcpts && not (has_row_of row g st)
        then read_index g st ++ row ∷ []
        else read_index g st)
unfolding add_pointers any has_row_of
index-add_pointers g row [] st = refl
index-add_pointers g row (rcpt ∷ rcpts) st = ground (
  arith,
  index-add_pointers g row rcpts (add_pointer row rcpt st),
  index-add_pointer g row rcpt st,
  any-append (is_row_of row.dash_id) (read_index g st) (row ∷ []),
  str_eq_refl row.dash_id,
)

pointer-appended :
    (id : Text) (row : Row) (rows : List Row)
    → any (is_row_of id) rows ≡ false
    → row.dash_id ≡ id
    → filled row.shared_by ≡ true
    → pointer id (rows ++ row ∷ []) ≡ some row
unfolding any pointer
pointer-appended id row [] h same shared = rw shared (ground (arith, same, str_eq_refl id))
pointer-appended id row (r ∷ rows) h same shared =
    ground (arith, h, pointer-appended id row rows, same, shared)

-- The names of the folders are folded, so a recipient is found as it was given.
new-same_home :
    (owner r : Text) (existing recipients : List Text)
    → elem r recipients ≡ true
    → filled r ≡ true
    → str_eq (safe_email r) owner ≡ false
    → elem (safe_email r) existing ≡ false
    → (any (same_home (safe_email r)) (new_recipients owner existing recipients) ≡ true)
      × (elem (safe_email r) (new_recipients owner existing recipients) ≡ true)
unfolding new_recipients filter elem any is_new
new-same_home owner r existing [] h f o e = ground (arith, h)
new-same_home owner r existing (x ∷ recipients) h f o e = ground (
  arith,
  h,
  f,
  o,
  e,
  new-same_home owner r existing recipients,
  str_eq_iff x r,
  str_eq_refl (safe_email r),
  safe_email_idem r,
  str_eq_refl (safe_email (safe_email r)),
  safe_email-ne-nil r,
)

-- The document after the recipients were added.
abbrev pub opened_to : Text → List Text → Doc → Doc
opened_to me recipients doc = record doc {
  shared_with = sorted_set (doc.shared_with ++ new_recipients me doc.shared_with recipients);
}

-- A dashboard that is shared with a new address opens for it, as a guest, with the document of the
-- owner. (The address is not the owner's, and it has no dashboard and no index row of that id.)
pub shared_dashboard_opens :
    (owner dash_id r : Text) (recipients : List Text) (now : ℕ) (doc : Doc) (st : Store)
    → read_doc owner dash_id st ≡ some doc
    → elem r recipients ≡ true
    → filled r ≡ true
    → str_eq (safe_email r) (safe_email owner) ≡ false
    → elem (safe_email r) doc.shared_with ≡ false
    → read_doc r dash_id st ≡ none
    → any (is_row_of dash_id) (read_index r st) ≡ false
    → resolve_dashboard r dash_id (add_dashboard_share owner dash_id recipients now st).1
      ≡ some (opened_to (safe_email owner) recipients doc, false)
unfolding resolve_dashboard add_dashboard_share
shared_dashboard_opens owner dash_id r recipients now doc st found asked named other absent missing
      unlisted =
    let me = safe_email owner in
    let g = safe_email r in
    let new = new_recipients me doc.shared_with recipients in
    let row = pointer_row me dash_id doc.name now in
    let listed = opened_to me recipients doc in
    let written = write_doc me dash_id listed st in
    let after = add_pointers row new written in
    let read : read_doc me dash_id st ≡ some doc = read_doc-safe_email owner dash_id st ∙ found in
    let valid = is_id-read_doc me dash_id doc st read in
    let is_new = new-same_home me r doc.shared_with recipients asked named other absent in
    let no_own : read_doc g dash_id after ≡ none =
      read_doc-add_pointers g dash_id row new written
      ∙ read_doc-write_doc me g st dash_id dash_id listed
      ∙ ground (
        arith,
        other,
        safe_email_idem owner,
        safe_email_idem r,
        str_eq_iff me g,
        read_doc-safe_email r dash_id st,
        missing,
      ) in
    let before : read_index g written ≡ read_index r st =
      read_index-write_doc me g st dash_id listed ∙ read_index-safe_email r st in
    let no_row : has_row_of row g written ≡ false =
      unfold has_row_of in (ap (any (is_row_of dash_id)) before ∙ unlisted) in
    let index : read_index g after ≡ read_index g written ++ row ∷ [] =
      index-add_pointers g row new written ∙ ground (arith, is_new.0, no_row) in
    let first : pointer dash_id (read_index g after) ≡ some row =
      ap (pointer dash_id) index
      ∙ pointer-appended dash_id row (read_index g written) (unfold has_row_of in no_row) refl
          (safe_email-ne-nil owner) in
    let shared : read_doc me dash_id after ≡ some listed =
      read_doc-add_pointers me dash_id row new written
      ∙ read_doc-write_doc me me st dash_id dash_id listed
      ∙ ground (arith, valid, str_eq_refl dash_id, str_eq_refl (safe_email me)) in
    let guest : elem g (map lower listed.shared_with) ≡ true =
      ap (λ n. elem n (map lower listed.shared_with))
        (sym (lower_folded g (fold_case-safe_email r)))
      ∙ elem-map-lower g listed.shared_with (
          elem-sorted_set g (doc.shared_with ++ new)
          ∙ elem-append g doc.shared_with new
          ∙ ground (arith, is_new.1)) in
    rw read (rw no_own (rw first (rw shared (rw guest refl))))
