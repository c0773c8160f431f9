-- ===== src/Dashboards/Laws.antt =====
-- local_store.py, class DashboardStore: reading an index or a document after a write.
use pdc_client.Base.{
  ◌≡◌, refl, Bool, true, ◌&&◌, some, List, arith, if◌then◌else◌, Text, str_eq_iff, nat_Eq, text_Eq,
  pair_Eq, str_eq,
}
use pdc_client.Base.Ids.{is_id}
use pdc_client.Base.Dict.{insert, lookup-insert}
use pdc_client.Accounts.{safe_email}
use pdc_client.Accounts.Laws.{safe_email_idem}
use pdc_client.Dashboards.{
  Row, Doc, Home, Store, home_of, read_index, write_index, read_doc, write_doc,
}

-- Two addresses of one folder.
abbrev pub same_home : Text → Text → Bool
same_home a b = str_eq (safe_email a) (safe_email b)

home_of-insert :
    (a b : Text) (home : Home) (st : Store)
    → home_of b (insert (safe_email a) home st) ≡ (if same_home a b then home else home_of b st)
unfolding home_of
home_of-insert a b home st = rw (lookup-insert (safe_email a) (safe_email b) home st) (ground arith)

module _ (a b : Text) (st : Store) where
  pub read_index-write_index :
      (rows : List Row)
      → read_index b (write_index a rows st) ≡ (if same_home a b then rows else read_index b st)
  unfolding read_index write_index
  read_index-write_index rows =
      ground (arith, home_of-insert a b (record (home_of a st) { index = some rows }) st)

  pub read_index-write_doc :
      (id : Text) (doc : Doc) → read_index b (write_doc a id doc st) ≡ read_index b st
  unfolding read_index write_doc home_of
  read_index-write_doc id doc = ground (
    arith,
    home_of-insert a b (record (home_of a st) { docs = insert id (some doc) (home_of a st).docs })
        st,
    str_eq_iff (safe_email a) (safe_email b),
  )

  pub read_doc-write_index :
      (id : Text) (rows : List Row) → read_doc b id (write_index a rows st) ≡ read_doc b id st
  unfolding read_doc write_index home_of
  read_doc-write_index id rows = ground (
    arith,
    home_of-insert a b (record (home_of a st) { index = some rows }) st,
    str_eq_iff (safe_email a) (safe_email b),
  )

  pub read_doc-write_doc :
      (id other : Text) (doc : Doc)
      → read_doc b other (write_doc a id doc st) ≡ (
          if same_home a b && str_eq id other && is_id other then some doc else read_doc b other st)
  unfolding read_doc write_doc home_of
  read_doc-write_doc id other doc = ground (
    arith,
    home_of-insert a b (record (home_of a st) { docs = insert id (some doc) (home_of a st).docs })
        st,
    lookup-insert id other (some doc) (home_of a st).docs,
    str_eq_iff (safe_email a) (safe_email b),
  )

-- The folder of an address and the folder of its name are one.
pub read_doc-safe_email :
    (a id : Text) (st : Store) → read_doc (safe_email a) id st ≡ read_doc a id st
unfolding read_doc home_of
read_doc-safe_email a id st = rw (safe_email_idem a) refl

pub read_index-safe_email : (a : Text) (st : Store) → read_index (safe_email a) st ≡ read_index a st
unfolding read_index home_of
read_index-safe_email a st = rw (safe_email_idem a) refl

-- A document that reads has a valid id.
pub is_id-read_doc :
    (a id : Text) (doc : Doc) (st : Store) → read_doc a id st ≡ some doc → is_id id ≡ true
unfolding read_doc
is_id-read_doc a id doc st h = ground (arith, h)

pub same_doc :
    (a b id : Text) (st : Store) → same_home a b ≡ true → read_doc a id st ≡ read_doc b id st
unfolding read_doc home_of
same_doc a b id st h = rw ((str_eq_iff (safe_email a) (safe_email b)).0 h) refl
