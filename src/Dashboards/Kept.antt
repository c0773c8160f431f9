-- ===== src/Dashboards/Kept.antt =====
-- local_store.py, class DashboardStore: a grant that is not taken back is recorded elsewhere.
use pdc_client.Base.{
  ◌≡◌, refl, ◌∙◌, inl, inr, Bool, true, false, ◌&&◌, ◌||◌, Option, none, some, List, [], ◌∷◌, ◌++◌,
  arith, Bool-cases, Option-cases, is_some, Text, str_eq_iff, str_eq_refl, nat_Eq, text_Eq, pair_Eq,
  str_eq,
}
use pdc_client.Base.Lists.{any, elem, elem-filter, elem-append, add_all, elem-add_all, is_nil}
use pdc_client.Base.Strings.{fold_case}
use pdc_client.Base.Dict.{lookup-insert}
use pdc_client.Accounts.{safe_email}
use pdc_client.Dashboards.{Row, Doc, Store, read_index, read_doc, write_doc}
use pdc_client.Dashboards.Laws.{read_doc-write_doc, is_id-read_doc}
use pdc_client.Dashboards.Grants.{granted, needs_chat}
use pdc_client.Dashboards.Revoked.{
  with_grants, moved_to, is_other_own, kept_at, hand_over, not_needed, revoke_chat_grants,
}
use pdc_client.Dashboards.Handover.{elem-kept_at, nothing_held}

-- Whether a document records the grant for the recipient.
abbrev pub records : Text → Text → Option Doc → Bool
records c rcpt none = false
records c rcpt (some doc) = elem c (granted rcpt doc.chat_grants)

records-with_grants :
    (c rcpt : Text) (kept : List Text) (doc : Doc)
    → records c rcpt (some (with_grants rcpt kept doc)) ≡ (records c rcpt (some doc) || elem c kept)
records-with_grants c rcpt kept doc =
    rw (lookup-insert rcpt rcpt (add_all kept (granted rcpt doc.chat_grants)) doc.chat_grants)
      (rw (str_eq_refl rcpt) (elem-add_all c kept (granted rcpt doc.chat_grants)))

needed_is_some :
    (c rcpt : Text) (doc : Option Doc) → needs_chat c rcpt doc ≡ true → is_some doc ≡ true
needed_is_some c rcpt none h = h
needed_is_some c rcpt (some doc) h = refl

module _ (me rcpt c : Text) where
  -- A move adds the grants at the document and takes none away.
  records-moved_to :
      (id other : Text) (kept : List Text) (st : Store)
      → records c rcpt (read_doc me other (moved_to me id rcpt kept (read_doc me id st) st)) ≡ (
          records c rcpt (read_doc me other st)
          || str_eq id other && is_some (read_doc me id st) && elem c kept)
  records-moved_to id other kept st = elim (Option-cases (read_doc me id st)) [
    | inl nothing ↦ rw nothing (ground arith)
    | inr (doc, found) ↦ rw found (elim (Bool-cases (is_nil kept)) [
      | inl empty ↦ rw empty (ground (arith, nothing_held c kept empty))
      | inr more ↦ rw more (
          rw (read_doc-write_doc me me st id other (with_grants rcpt kept doc)) (
            ground (
              arith,
              found,
              str_eq_iff id other,
              str_eq_refl (safe_email me),
              is_id-read_doc me id doc st found,
              records-with_grants c rcpt kept doc,
            )))
    ])
  ]

  records-hand_over :
      (dash_id other : Text) (candidates still : List Text) (rows : List Row) (st : Store)
      → records c rcpt (read_doc me other st) ≡ true
      → records c rcpt (read_doc me other (hand_over me dash_id rcpt candidates still rows st).1)
        ≡ true
  unfolding hand_over
  records-hand_over dash_id other candidates still [] st h = h
  records-hand_over dash_id other candidates still (row ∷ rows) st h =
      let doc = read_doc me row.dash_id st in
      let kept = kept_at dash_id rcpt candidates still row doc in
      records-hand_over dash_id other candidates (still ++ kept) rows
        (moved_to me row.dash_id rcpt kept doc st)
        (records-moved_to row.dash_id other kept st ∙ ground (arith, h))

  -- Whether one of the rows is another own dashboard that records the grant.
  pub recorded_in : Text → List Row → Store → Bool
  recorded_in dash_id rows st =
      any (λ (row : Row). is_other_own dash_id row && records c rcpt (read_doc me row.dash_id st))
        rows

  recorded-hand_over :
      (dash_id : Text) (candidates still : List Text) (rows : List Row) (st : Store)
      → elem c (hand_over me dash_id rcpt candidates still rows st).0 ≡ true
      → elem c still ≡ false
      → recorded_in dash_id rows (hand_over me dash_id rcpt candidates still rows st).1 ≡ true
  unfolding hand_over
  recorded-hand_over dash_id candidates still [] st moved new = cc (moved, new)
  recorded-hand_over dash_id candidates still (row ∷ rows) st moved new =
      let doc = read_doc me row.dash_id st in
      let kept = kept_at dash_id rcpt candidates still row doc in
      let next = moved_to me row.dash_id rcpt kept doc st in
      let after = (hand_over me dash_id rcpt candidates (still ++ kept) rows next).1 in
      let cons : recorded_in dash_id (row ∷ rows) after ≡ (
          is_other_own dash_id row && records c rcpt (read_doc me row.dash_id after)
          || recorded_in dash_id rows after) =
        unfold recorded_in any in refl in
      elim (Bool-cases (elem c kept)) [
        | inl here ↦
            let facts = elem-kept_at me rcpt dash_id c candidates still row doc in
            let needed : needs_chat c rcpt doc ≡ true = ground (arith, facts, here) in
            let written : records c rcpt (read_doc me row.dash_id next) ≡ true =
              records-moved_to row.dash_id row.dash_id kept st
              ∙ ground (arith, here, needed_is_some c rcpt doc needed, str_eq_refl row.dash_id) in
            cons
            ∙ ground (
              arith,
              facts,
              here,
              records-hand_over dash_id row.dash_id candidates (still ++ kept) rows next written,
            )
        | inr later ↦
            cons
            ∙ ground (
              arith,
              recorded-hand_over dash_id candidates (still ++ kept) rows next moved
                  (elem-append c still kept ∙ ground (arith, new, later)),
            )
      ]

  recorded-write_doc :
      (dash_id : Text) (doc : Doc) (rows : List Row) (st : Store)
      → recorded_in dash_id rows (write_doc me dash_id doc st) ≡ recorded_in dash_id rows st
  unfolding recorded_in any is_other_own
  recorded-write_doc dash_id doc [] st = refl
  recorded-write_doc dash_id doc (row ∷ rows) st = ground (
    arith,
    recorded-write_doc dash_id doc rows st,
    read_doc-write_doc me me st dash_id row.dash_id doc,
    str_eq_iff row.dash_id dash_id,
    str_eq_iff dash_id row.dash_id,
  )

-- A recorded grant that a revocation does not take back is afterwards recorded on another own dashboard
-- of the index, whose own revocation will reach it.
pub kept_grant_is_recorded :
    (owner dash_id recipient c : Text) (doc : Doc) (st : Store)
    → read_doc (safe_email owner) dash_id st ≡ some doc
    → elem c (granted (fold_case recipient) doc.chat_grants) ≡ true
    → elem c (revoke_chat_grants owner dash_id recipient st).0 ≡ false
    → recorded_in
        (safe_email owner)
        (fold_case recipient)
        c
        dash_id
        (read_index (safe_email owner) st)
        (revoke_chat_grants owner dash_id recipient st).1
      ≡ true
unfolding revoke_chat_grants
kept_grant_is_recorded owner dash_id recipient c doc st found held kept =
    let me = safe_email owner in
    let rcpt = fold_case recipient in
    let rows = read_index me st in
    let candidates = granted rcpt doc.chat_grants in
    elim (Bool-cases (is_nil candidates)) [
      | inl nothing ↦ cc (nothing_held c candidates nothing, held)
      | inr something ↦
          let moved = hand_over me dash_id rcpt candidates [] rows st in
          let still : elem c moved.0 ≡ true = ground (
            arith,
            held,
            elem-filter (not_needed moved.0) c candidates,
            rw something at (rw found at kept),
          ) in
          rw found (
            rw something (
              recorded-write_doc me rcpt c dash_id _ rows moved.1
              ∙ recorded-hand_over me rcpt c dash_id candidates [] rows st still
                  (unfold elem in refl)))
    ]
