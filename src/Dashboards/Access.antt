-- ===== src/Dashboards/Access.antt =====
-- local_store.py, class DashboardStore: who may open a shared dashboard.
use pdc_client.Base.{
  ◌≡◌, refl, sym, ap, ◌∙◌, inl, inr, Bool, true, false, not, ◌&&◌, ◌||◌, Option, none, some, List,
  [], ◌∷◌, map, arith, ◌==◌, if◌then◌else◌, ==_iff, Option-cases, if_both, Text, str_eq_iff,
  str_eq_refl, nat_Eq, text_Eq, pair_Eq, str_eq,
}
use pdc_client.Base.Lists.{length, filter, all, elem, filter-length}
use pdc_client.Base.Strings.{lower, fold_case, strip, strip_idem, lower_idem, strip-lower}
use pdc_client.Accounts.{safe_email}
use pdc_client.Accounts.Laws.{safe_email_idem, fold_case-safe_email}
use pdc_client.Dashboards.{Row, Doc, Store, read_index, write_index, read_doc, write_doc, filled}
use pdc_client.Dashboards.Laws.{
  same_home, read_index-write_index, read_index-write_doc, read_doc-write_index, read_doc-write_doc,
  read_doc-safe_email, read_index-safe_email, is_id-read_doc, same_doc,
}
use pdc_client.Dashboards.Boards.{pointer, shared_doc, own_or_shared, resolve_dashboard}
use pdc_client.Dashboards.Sharing.{other_guest, other_pointer, drop_pointer, remove_dashboard_share}

-- The row is no pointer to the dashboard, or it points to a document of the owner.
unfoldable pub points_to : Text → Text → Row → Bool
points_to owner dash_id row =
    not (str_eq row.dash_id dash_id && filled row.shared_by) || same_home row.owner owner

pointed :
    (owner dash_id : Text) (rows : List Row) (row : Row)
    → all (points_to owner dash_id) rows ≡ true
    → pointer dash_id rows ≡ some row
    → same_home row.owner owner ≡ true
unfolding all points_to pointer
pointed owner dash_id [] row h found = cc
pointed owner dash_id (r ∷ rows) row h found =
    ground (arith, h, found, pointed owner dash_id rows row)

all-kept : (p q : Row → Bool) (rows : List Row) → all p rows ≡ true → all p (filter q rows) ≡ true
unfolding all filter
all-kept p q [] h = refl
all-kept p q (r ∷ rows) h = ground (arith, h, all-kept p q rows)

strip_folded : (g : Text) → fold_case g ≡ g → strip g ≡ g
strip_folded g h = ap strip (sym h) ∙ strip-lower (strip g) ∙ ap lower (strip_idem g) ∙ h

pub lower_folded : (g : Text) → fold_case g ≡ g → lower g ≡ g
lower_folded g h = ap lower (sym h) ∙ lower_idem (strip g) ∙ h

folded_lower : (x g : Text) → fold_case g ≡ g → lower x ≡ g → fold_case x ≡ g
folded_lower x g h e = sym (strip-lower x) ∙ ap strip e ∙ strip_folded g h

lower_is_guest :
    (x g : Text) → fold_case g ≡ g → str_eq (lower x) g ≡ true → str_eq (fold_case x) g ≡ true
lower_is_guest x g h e =
    (str_eq_iff (fold_case x) g).1 (folded_lower x g h ((str_eq_iff (lower x) g).0 e))

-- An address that was filtered out is on the list in no case.
guest_gone :
    (g : Text) (xs : List Text)
    → fold_case g ≡ g
    → elem g (map lower (filter (other_guest g) xs)) ≡ false
unfolding elem filter
guest_gone g [] h = refl
guest_gone g (x ∷ xs) h = ground (arith, guest_gone g xs h, lower_is_guest x g h)

module _ (owner dash_id g : Text) (st : Store) where
  read_doc-drop_pointer :
      (b other : Text) → read_doc b other (drop_pointer owner dash_id g st) ≡ read_doc b other st
  unfolding drop_pointer
  read_doc-drop_pointer b other =
      if_both (λ s. read_doc b other s ≡ read_doc b other st) _ st _ refl
        (read_doc-write_index g b st other _)

  all-drop_pointer :
      (p : Row → Bool)
      → all p (read_index g st) ≡ true
      → all p (read_index g (drop_pointer owner dash_id g st)) ≡ true
  unfolding drop_pointer
  all-drop_pointer p h =
      let kept = filter (other_pointer owner dash_id) (read_index g st) in
      if_both (λ s. all p (read_index g s) ≡ true) _ st (write_index g kept st) h
        (rw (read_index-write_index g g st kept) (
          rw (str_eq_refl (safe_email g))
            (all-kept p (other_pointer owner dash_id) (read_index g st) h)))

-- The document of the owner after the share was taken back, with the list without the address.
abbrev pub closed_to : Text → Doc → Doc
closed_to g doc = record doc { shared_with = filter (other_guest g) doc.shared_with }

module _ (owner dash_id g : Text) (doc : Doc) (st : Store) where
  -- The store after the document was written, where the list changed.
  closed : Store
  closed =
      if length (filter (other_guest g) doc.shared_with) == length doc.shared_with
      then st
      else write_doc owner dash_id (closed_to g doc) st

  read_doc-closed :
      (b : Text)
      → read_doc owner dash_id st ≡ some doc
      → same_home b owner ≡ true
      → read_doc b dash_id closed ≡ some (closed_to g doc)
  unfolding closed
  read_doc-closed b found same = ground (
    arith,
    found,
    same,
    same_doc b owner dash_id st same,
    is_id-read_doc owner dash_id doc st found,
    read_doc-write_doc owner b st dash_id dash_id (closed_to g doc),
    str_eq_refl dash_id,
    str_eq_iff (safe_email owner) (safe_email b),
    str_eq_iff (safe_email b) (safe_email owner),
    ==_iff (length (filter (other_guest g) doc.shared_with)) (length doc.shared_with),
    filter-length (other_guest g) doc.shared_with,
  )

  read_doc-closed_other :
      (b : Text)
      → read_doc owner dash_id st ≡ some doc
      → read_doc b dash_id st ≡ none
      → read_doc b dash_id closed ≡ none
  unfolding closed
  read_doc-closed_other b found missing = ground (
    arith,
    found,
    missing,
    same_doc owner b dash_id st,
    read_doc-write_doc owner b st dash_id dash_id (closed_to g doc),
  )

  read_index-closed : (b : Text) → read_index b closed ≡ read_index b st
  unfolding closed
  read_index-closed b = ground (arith, read_index-write_doc owner b st dash_id (closed_to g doc))

no_guest :
    (g owner dash_id : Text) (row : Option Row) (doc : Doc) (st : Store)
    → fold_case g ≡ g
    → ((r : Row) → row ≡ some r → read_doc r.owner dash_id st ≡ some (closed_to g doc))
    → shared_doc g dash_id row st ≡ none
no_guest g owner dash_id none doc st folded reads = refl
no_guest g owner dash_id (some row) doc st folded reads =
    rw (reads row refl) (rw (guest_gone g doc.shared_with folded) refl)

locked_out :
    (owner dash_id g : Text) (doc : Doc) (st : Store)
    → fold_case g ≡ g
    → read_doc owner dash_id st ≡ some doc
    → read_doc g dash_id st ≡ none
    → all (points_to owner dash_id) (read_index g st) ≡ true
    → own_or_shared g dash_id
        (read_doc g dash_id (drop_pointer owner dash_id g (closed owner dash_id g doc st)))
        (drop_pointer owner dash_id g (closed owner dash_id g doc st))
      ≡ none
locked_out owner dash_id g doc st folded found missing points =
    let before = closed owner dash_id g doc st in
    let after = drop_pointer owner dash_id g before in
    let listed : all (points_to owner dash_id) (read_index g after) ≡ true =
      all-drop_pointer owner dash_id g before (points_to owner dash_id)
        (rw (read_index-closed owner dash_id g doc st g) points) in
    rw (read_doc-drop_pointer owner dash_id g before g dash_id) (
      rw (read_doc-closed_other owner dash_id g doc st g found missing) (
        no_guest g owner dash_id (pointer dash_id (read_index g after)) doc after folded (λ row e.
          read_doc-drop_pointer owner dash_id g before row.owner dash_id
          ∙ read_doc-closed owner dash_id g doc st row.owner found
              (pointed owner dash_id (read_index g after) row listed e))))

no_owner :
    (owner dash_id g : Text) (row : Option Row) (st : Store)
    → ((r : Row) → row ≡ some r → read_doc r.owner dash_id st ≡ none)
    → shared_doc g dash_id row st ≡ none
no_owner owner dash_id g none st reads = refl
no_owner owner dash_id g (some row) st reads = rw (reads row refl) refl

points_to-safe_email :
    (owner dash_id : Text) (rows : List Row)
    → all (points_to (safe_email owner) dash_id) rows ≡ all (points_to owner dash_id) rows
unfolding points_to
points_to-safe_email owner dash_id rows =
    ap
      (λ (n : Text).
        all
          (λ (row : Row).
            not (str_eq row.dash_id dash_id && filled row.shared_by)
            || str_eq (safe_email row.owner) n)
          rows)
      (safe_email_idem owner)

-- After a share was taken back, the recipient opens nothing under the dashboard's id, whatever the
-- case or the spaces of the address on the list. (The recipient has no dashboard of that id, and its
-- index points for that id to no other owner.)
pub unshared_guest_locked_out :
    (owner dash_id rcpt : Text) (st : Store)
    → read_doc rcpt dash_id st ≡ none
    → all (points_to owner dash_id) (read_index rcpt st) ≡ true
    → resolve_dashboard rcpt dash_id (remove_dashboard_share owner dash_id rcpt st).1 ≡ none
unfolding resolve_dashboard remove_dashboard_share
unshared_guest_locked_out owner dash_id rcpt st missing points =
    let me = safe_email owner in
    let g = safe_email rcpt in
    let absent : read_doc g dash_id st ≡ none = read_doc-safe_email rcpt dash_id st ∙ missing in
    let listed : all (points_to me dash_id) (read_index g st) ≡ true =
      points_to-safe_email owner dash_id (read_index g st)
      ∙ ap (all (points_to owner dash_id)) (read_index-safe_email rcpt st)
      ∙ points in
    elim (Option-cases (read_doc me dash_id st)) [
      | inl nothing ↦ rw nothing (
          rw absent (
            no_owner me dash_id g (pointer dash_id (read_index g st)) st (λ row e.
              same_doc row.owner me dash_id st (pointed me dash_id (read_index g st) row listed e)
              ∙ nothing)))
      | inr (doc, found) ↦ rw found (
          unfold closed in
          locked_out me dash_id g doc st (fold_case-safe_email rcpt) found absent listed)
    ]
