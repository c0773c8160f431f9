-- ===== src/Dashboards/Deliberate.antt =====
-- local_store.py, class DashboardStore: a direct share of a chat makes the access deliberate.
use pdc_client.Base.{
  ◌≡◌, refl, ◌∙◌, inl, inr, true, false, not, ◌&&◌, Option, none, some, List, [], ◌∷◌, arith,
  Bool-cases, Option-cases, Text, str_eq_iff, str_eq_refl, nat_Eq, text_Eq, pair_Eq, str_eq,
}
use pdc_client.Base.Lists.{filter, any, elem, elem-filter, is_nil}
use pdc_client.Base.Strings.{fold_case}
use pdc_client.Base.Dict.{Dict, lookup-insert, lookup-erase}
use pdc_client.Accounts.{safe_email}
use pdc_client.Dashboards.{Row, Doc, Store, read_index, read_doc, filled}
use pdc_client.Dashboards.Laws.{read_doc-write_doc, is_id-read_doc}
use pdc_client.Dashboards.Grants.{
  granted, other_chat, forget_one, forget_all, names_any, is_own_row, forgotten, forget_in,
  addresses, forget_chat_grants,
}
use pdc_client.Dashboards.Handover.{revoked_exactly_unneeded}
use pdc_client.Dashboards.Revoked.{revoke_chat_grants}
use pdc_client.Dashboards.Kept.{records}

module _ (chat r : Text) where
  granted-forget_one :
      (rcpt : Text) (grants : Dict Text (List Text))
      → elem chat (granted r (forget_one chat rcpt grants))
        ≡ (elem chat (granted r grants) && not (str_eq rcpt r))
  unfolding forget_one elem
  granted-forget_one rcpt grants = ground (
    arith,
    lookup-insert rcpt r (filter (other_chat chat) (granted rcpt grants)) grants,
    lookup-erase rcpt r grants,
    str_eq_iff rcpt r,
    elem-filter (other_chat chat) chat (granted rcpt grants),
    str_eq_refl chat,
  )

  granted-forget_all :
      (rcpts : List Text) (grants : Dict Text (List Text))
      → elem chat (granted r (forget_all chat rcpts grants))
        ≡ (elem chat (granted r grants) && not (elem r rcpts))
  unfolding forget_all elem
  granted-forget_all [] grants = ground arith
  granted-forget_all (rcpt ∷ rcpts) grants = ground (
    arith,
    granted-forget_all rcpts (forget_one chat rcpt grants),
    granted-forget_one rcpt grants,
  )

  named_any :
      (rcpts : List Text) (grants : Dict Text (List Text))
      → elem r rcpts ≡ true
      → elem chat (granted r grants) ≡ true
      → names_any chat rcpts grants ≡ true
  unfolding any elem
  named_any [] grants h g = h
  named_any (rcpt ∷ rcpts) grants h g =
      ground (arith, h, g, named_any rcpts grants, str_eq_iff rcpt r)

  module _ (me : Text) (rcpts : List Text) (listed : elem r rcpts ≡ true) where
    -- One round: the document of the row no longer records the chat, and none gains it.
    records-forgotten :
        (id other : Text) (st : Store)
        → records chat r (read_doc me other (forgotten me id chat rcpts (read_doc me id st) st))
          ≡ (records chat r (read_doc me other st) && not (str_eq id other))
    records-forgotten id other st = elim (Option-cases (read_doc me id st)) [
      | inl nothing ↦ rw nothing (ground (arith, nothing, str_eq_iff id other))
      | inr (doc, found) ↦ rw found (elim (Bool-cases (names_any chat rcpts doc.chat_grants)) [
        | inl named ↦ rw named (
            rw
              (read_doc-write_doc me me st id other
                (record doc { chat_grants = forget_all chat rcpts doc.chat_grants }))
              (ground (
                arith,
                found,
                listed,
                granted-forget_all rcpts doc.chat_grants,
                str_eq_iff id other,
                str_eq_refl (safe_email me),
                is_id-read_doc me id doc st found,
              )))
        | inr clean ↦ rw clean (
            ground
              (arith, found, clean, str_eq_iff id other, named_any rcpts doc.chat_grants listed))
      ])
    ]

    -- The whole loop: the documents of the own rows no longer record the chat.
    records-forget_in :
        (other : Text) (rows : List Row) (st : Store)
        → records chat r (read_doc me other (forget_in me chat rcpts rows st)) ≡ (
            records chat r (read_doc me other st)
            && not (any (λ (row : Row). is_own_row row && str_eq row.dash_id other) rows))
    unfolding forget_in any
    records-forget_in other [] st = ground arith
    records-forget_in other (row ∷ rows) st =
        let next = forgotten me row.dash_id chat rcpts (read_doc me row.dash_id st) st in
        elim (Bool-cases (is_own_row row)) [
          | inl own ↦ rw own (
              records-forget_in other rows next
              ∙ ground (arith, own, records-forgotten row.dash_id other st))
          | inr passed ↦ rw passed (records-forget_in other rows st ∙ ground (arith, passed))
        ]

elem-addresses :
    (recipient : Text) (recipients : List Text)
    → elem recipient recipients ≡ true
    → filled recipient ≡ true
    → elem (fold_case recipient) (addresses recipients) ≡ true
unfolding elem filter
elem-addresses recipient [] h f = h
elem-addresses recipient (x ∷ recipients) h f = ground (
  arith,
  h,
  f,
  elem-addresses recipient recipients,
  str_eq_iff x recipient,
  str_eq_refl (fold_case recipient),
)

some_there : (r : Text) (xs : List Text) → elem r xs ≡ true → is_nil xs ≡ false
unfolding elem
some_there r [] h = cc
some_there r (x ∷ xs) h = refl

no_record_no_revoke :
    (owner dash_id recipient c : Text) (found : Option Doc) (st : Store)
    → read_doc (safe_email owner) dash_id st ≡ found
    → records c (fold_case recipient) found ≡ false
    → elem c (revoke_chat_grants owner dash_id recipient st).0 ≡ false
no_record_no_revoke owner dash_id recipient c none st e h =
    unfold revoke_chat_grants in rw e (unfold elem in refl)
no_record_no_revoke owner dash_id recipient c (some doc) st e h =
    revoked_exactly_unneeded owner dash_id recipient c doc st e ∙ ground (arith, h)

-- After a chat was shared directly with an address, revoking the share of a dashboard that stands in the
-- owner's index as an own one does not take the chat back from that address.
pub deliberate_share_is_kept :
    (owner dash_id recipient chat : Text) (recipients : List Text) (st : Store)
    → elem recipient recipients ≡ true
    → filled recipient ≡ true
    → filled chat ≡ true
    → any
        (λ (row : Row). is_own_row row && str_eq row.dash_id dash_id)
        (read_index (safe_email owner) st)
      ≡ true
    → elem chat
        (revoke_chat_grants owner dash_id recipient (forget_chat_grants owner chat recipients st)).0
      ≡ false
unfolding forget_chat_grants
deliberate_share_is_kept owner dash_id recipient chat recipients st asked named is_chat own =
    let me = safe_email owner in
    let targets = addresses recipients in
    let listed = elem-addresses recipient recipients asked named in
    rw is_chat (
      rw (some_there (fold_case recipient) targets listed) (
        no_record_no_revoke owner dash_id recipient chat _
          (forget_in me chat targets (read_index me st) st) refl
          (records-forget_in chat (fold_case recipient) me targets listed dash_id (read_index me st)
              st
            ∙ ground (arith, own))))
