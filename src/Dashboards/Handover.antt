-- ===== src/Dashboards/Handover.antt =====
-- local_store.py, class DashboardStore: which source-chat grants a revocation takes back, and where
-- the others go.
use pdc_client.Base.{
  ◌≡◌, refl, ◌∙◌, inl, inr, Bool, true, false, not, ◌&&◌, ◌||◌, Option, none, some, List, [], ◌∷◌,
  ◌++◌, arith, Bool-cases, Option-cases, if_both, Text, str_eq_iff, nat_Eq, text_Eq, pair_Eq,
}
use pdc_client.Base.Lists.{any, elem, elem-filter, elem-append, is_nil}
use pdc_client.Base.Strings.{fold_case}
use pdc_client.Accounts.{safe_email}
use pdc_client.Dashboards.{Row, Doc, Store, read_index, read_doc, write_doc}
use pdc_client.Dashboards.Laws.{read_doc-write_doc}
use pdc_client.Dashboards.Grants.{granted, is_shared_with, holds_chat, needs_chat}
use pdc_client.Dashboards.Revoked.{
  taken_over, with_grants, moved_to, taken_or_none, is_other_own, kept_at, hand_over, not_needed,
  revoke_chat_grants,
}

needs_chat-with_grants :
    (c rcpt r : Text) (kept : List Text) (doc : Doc)
    → needs_chat c rcpt (some (with_grants r kept doc)) ≡ needs_chat c rcpt (some doc)
unfolding is_shared_with holds_chat
needs_chat-with_grants c rcpt r kept doc = refl

pub nothing_held : (c : Text) (xs : List Text) → is_nil xs ≡ true → elem c xs ≡ false
unfolding elem
nothing_held c [] h = refl
nothing_held c (x ∷ xs) h = cc

bools : (s c o n m : Bool) → ((s || (o && n && not s && c)) || c && m) ≡ (s || c && (o && n || m))
bools s c o n m = ground arith

module _ (me rcpt : Text) where
  -- Moving a record changes no tile and no share.
  needs_chat-moved_to :
      (c id other : Text) (kept : List Text) (st : Store)
      → needs_chat c rcpt (read_doc me other (moved_to me id rcpt kept (read_doc me id st) st))
        ≡ needs_chat c rcpt (read_doc me other st)
  needs_chat-moved_to c id other kept st = elim (Option-cases (read_doc me id st)) [
    | inl nothing ↦ rw nothing refl
    | inr (doc, found) ↦ rw found (
        if_both
          (λ s. needs_chat c rcpt (read_doc me other s) ≡ needs_chat c rcpt (read_doc me other st))
          (is_nil kept) st (write_doc me id (with_grants rcpt kept doc) st) refl
          (rw (read_doc-write_doc me me st id other (with_grants rcpt kept doc)) (
            ground
              (arith, found, str_eq_iff id other, needs_chat-with_grants c rcpt rcpt kept doc))))
  ]

  -- Whether one of the rows is another own dashboard, shared with the recipient, that holds the chat.
  pub needed_in : Text → Text → List Row → Store → Bool
  needed_in dash_id c rows st =
      any
        (λ (row : Row). is_other_own dash_id row && needs_chat c rcpt (read_doc me row.dash_id st))
        rows

  needed_in-moved_to :
      (dash_id c id : Text) (kept : List Text) (rows : List Row) (st : Store)
      → needed_in dash_id c rows (moved_to me id rcpt kept (read_doc me id st) st)
        ≡ needed_in dash_id c rows st
  unfolding needed_in any
  needed_in-moved_to dash_id c id kept [] st = refl
  needed_in-moved_to dash_id c id kept (row ∷ rows) st = ground (
    arith,
    needs_chat-moved_to c id row.dash_id kept st,
    needed_in-moved_to dash_id c id kept rows st,
  )

  elem-taken :
      (c : Text) (candidates still : List Text) (doc : Option Doc)
      → elem c (taken_or_none rcpt candidates still doc)
        ≡ (needs_chat c rcpt doc && not (elem c still) && elem c candidates)
  unfolding taken_over elem
  elem-taken c candidates still none = refl
  elem-taken c candidates still (some doc) =
      ground (arith, elem-filter (λ d. holds_chat d doc && not (elem d still)) c candidates)

  pub elem-kept_at :
      (dash_id c : Text) (candidates still : List Text) (row : Row) (doc : Option Doc)
      → elem c (kept_at dash_id rcpt candidates still row doc) ≡ (
          is_other_own dash_id row
          && needs_chat c rcpt doc
          && not (elem c still)
          && elem c candidates)
  unfolding kept_at elem
  elem-kept_at dash_id c candidates still row doc = elim (Bool-cases (is_other_own dash_id row)) [
    | inl visited ↦ rw visited (elem-taken c candidates still doc)
    | inr passed ↦ rw passed refl
  ]

  -- What stays needed after the loop: a candidate that one of the dashboards needs.
  elem-hand_over :
      (dash_id c : Text) (candidates still : List Text) (rows : List Row) (st : Store)
      → elem c (hand_over me dash_id rcpt candidates still rows st).0
        ≡ (elem c still || elem c candidates && needed_in dash_id c rows st)
  unfolding hand_over
  elem-hand_over dash_id c candidates still [] st = unfold needed_in any in ground arith
  elem-hand_over dash_id c candidates still (row ∷ rows) st =
      let other = read_doc me row.dash_id st in
      let kept = kept_at dash_id rcpt candidates still row other in
      let cons : needed_in dash_id c (row ∷ rows) st
          ≡ (is_other_own dash_id row && needs_chat c rcpt other || needed_in dash_id c rows st) =
        unfold needed_in any in refl in
      elem-hand_over dash_id c candidates (still ++ kept) rows
        (moved_to me row.dash_id rcpt kept other st)
      ∙ rw (needed_in-moved_to dash_id c row.dash_id kept rows st) (
          rw (elem-append c still kept) (
            rw (elem-kept_at dash_id c candidates still row other) (
              rw cons (
                bools (elem c still) (elem c candidates) (is_other_own dash_id row)
                  (needs_chat c rcpt other) (needed_in dash_id c rows st)))))

-- A revocation takes back exactly the grants that the dashboard's share recorded for the recipient and
-- that no other own dashboard, shared with the recipient, needs.
pub revoked_exactly_unneeded :
    (owner dash_id recipient c : Text) (doc : Doc) (st : Store)
    → read_doc (safe_email owner) dash_id st ≡ some doc
    → elem c (revoke_chat_grants owner dash_id recipient st).0 ≡ (
        elem c (granted (fold_case recipient) doc.chat_grants)
        && not (
            needed_in
              (safe_email owner)
              (fold_case recipient)
              dash_id
              c
              (read_index (safe_email owner) st)
              st))
unfolding revoke_chat_grants
revoked_exactly_unneeded owner dash_id recipient c doc st found =
    let me = safe_email owner in
    let rcpt = fold_case recipient in
    let rows = read_index me st in
    let candidates = granted rcpt doc.chat_grants in
    let still = (hand_over me dash_id rcpt candidates [] rows st).0 in
    rw found (elim (Bool-cases (is_nil candidates)) [
      | inl nothing ↦ rw nothing (unfold elem in ground (arith, nothing_held c candidates nothing))
      | inr something ↦ rw something (
          elem-filter (not_needed still) c candidates
          ∙ rw (elem-hand_over me rcpt dash_id c candidates [] rows st)
              (unfold elem in ground arith))
    ])
