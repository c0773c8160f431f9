-- ===== src/DataSources/Runs.antt =====
-- db_sources.py: sequences of calls on the registry and the recommended tables.
use pdc_client.Base.{
  ℕ, ◌<◌, ◌≡◌, refl, inl, inr, Bool, true, false, not, ◌&&◌, ◌||◌, Option, none, some, List, [],
  ◌∷◌, arith, ltb, if◌then◌else◌, Bool-cases, if_both, Text, nat_Eq, text_Eq, pair_Eq,
}
use pdc_client.DataSources.Modes.{valid_mode_fields}
use pdc_client.Base.Lists.{length-filter, all, any, filter, length, elem}
use pdc_client.DataSources.{Table, Status, Rec, Doc, change_first, find}
use pdc_client.DataSources.Merge.{Item, upsert_recommendations}
use pdc_client.DataSources.Merged.{upsert_recommendations-IsSettled}
use pdc_client.DataSources.Recommended.{
  rec_key, hit, is_registered, reconcile_recommendations, sync_recommendations, has_rec_id,
  with_status, status_set, set_recommendation_status, changes,
}
use pdc_client.DataSources.Registry.{
  upsert_table, delete_connection, of_connection, delete_table, without_table, without_connection,
  has_connection_id, recommends, kept_tables, table_ids,
}
use pdc_client.DataSources.Settled.{
  agrees, is_settled, is_clean, clean_open, is_sound, IsSettled, all_clean, reconcile-IsSettled,
}

-- What is refused leaves the document.
unfoldable pub or_old : Doc → Option Doc → Doc
or_old doc none = doc
or_old doc (some d) = d

upsert_table-IsSettled :
    (fresh : Text) (t : Table) (doc : Doc)
    → IsSettled doc
    → IsSettled (or_old doc (upsert_table fresh t doc))
unfolding upsert_table or_old
upsert_table-IsSettled fresh t doc h = elim (Bool-cases (valid_mode_fields t)) [
  | inl valid ↦
      rw (valid, or_old) (reconcile-IsSettled _ (all_clean doc.tables doc.recommendations h))
  | inr bad ↦ rw (bad, or_old) h
]

delete_table-IsSettled :
    (tid : Text) (doc : Doc) → IsSettled doc → IsSettled (delete_table tid doc).0
unfolding delete_table
delete_table-IsSettled tid doc h =
    if_both (λ (x : Doc × Bool). IsSettled x.0)
      (ltb (length (without_table tid doc.tables)) (length doc.tables))
      (reconcile_recommendations (record doc { tables = without_table tid doc.tables }), true)
      (doc, false) (reconcile-IsSettled _ (all_clean doc.tables doc.recommendations h)) h

all-filter_of {ℓ} :
    {A : Type ℓ} (p q : A → Bool) (xs : List A) → all p xs ≡ true → all p (filter q xs) ≡ true
unfolding all filter
all-filter_of p q [] h = refl
all-filter_of p q (x ∷ xs) h = ground (arith, h, all-filter_of p q xs)

pub length-filter_lt {ℓ} :
    {A : Type ℓ} (p : A → Bool) (xs : List A)
    → any p xs ≡ true
    → length (filter (λ x. not (p x)) xs) < length xs
unfolding any filter
length-filter_lt p [] h = cc
length-filter_lt p (x ∷ xs) h =
    ground (arith, h, length-filter_lt p xs, length-filter (λ y. not (p y)) xs)

pub lt→ltb : (a b : ℕ) → a < b → ltb a b ≡ true
lt→ltb a b h = ground arith

ltb_same : (n : ℕ) → ltb n n ≡ false
ltb_same n = ground arith

pub if_true {ℓ κ} :
    {A : Type ℓ} (P : A → Type κ) (b : Bool) (x y : A) → b ≡ true → P x → P (if b then x else y)
if_true P true x y h p = p
if_true P false x y h p = cc

without_connection-IsSettled :
    (cid : Text) (doc : Doc)
    → any (has_connection_id cid) doc.connections ≡ true
    → IsSettled doc
    → IsSettled (without_connection cid doc)
unfolding without_connection
without_connection-IsSettled cid doc there h =
    let cs = filter (λ c. not (has_connection_id cid c)) doc.connections in
    let rs = filter (λ r. not (recommends cid r)) doc.recommendations in
    let next = record doc { connections = cs; tables = kept_tables cid doc.tables } in
    if_true IsSettled (ltb (length cs) (length doc.connections))
      (reconcile_recommendations (record next { recommendations = rs })) next
      (lt→ltb (length cs) (length doc.connections)
        (length-filter_lt (has_connection_id cid) doc.connections there))
      (reconcile-IsSettled (record next { recommendations = rs })
        (all-filter_of is_clean (λ r. not (recommends cid r)) doc.recommendations
          (all_clean doc.tables doc.recommendations h)))

filter_none {ℓ} : {A : Type ℓ} (p : A → Bool) (xs : List A) → any p xs ≡ false → filter p xs ≡ []
unfolding any filter
filter_none p [] h = refl
filter_none p (x ∷ xs) h = ground (arith, h, filter_none p xs)

length-filter_none {ℓ} :
    {A : Type ℓ} (p : A → Bool) (xs : List A)
    → any p xs ≡ false
    → length (filter (λ x. not (p x)) xs) ≡ length xs
unfolding any filter
length-filter_none p [] h = refl
length-filter_none p (x ∷ xs) h = ground (arith, h, length-filter_none p xs)

keep_each : (ts : List Table) → filter (λ t. not (elem t.table_id [])) ts ≡ ts
unfolding filter elem
keep_each [] = refl
keep_each (t ∷ ts) = rw (keep_each ts)

-- A connection without tables takes none with it.
kept_tables-unused :
    (cid : Text) (ts : List Table) → any (of_connection cid) ts ≡ false → kept_tables cid ts ≡ ts
unfolding kept_tables table_ids
kept_tables-unused cid ts h = rw (filter_none (of_connection cid) ts h) (keep_each ts)

-- Deleting what is not there changes nothing, when no table is left for the cascade.
without_absent-IsSettled :
    (cid : Text) (doc : Doc)
    → any (has_connection_id cid) doc.connections ≡ false
    → any (of_connection cid) doc.tables ≡ false
    → IsSettled doc
    → IsSettled (without_connection cid doc)
unfolding without_connection
without_absent-IsSettled cid doc absent unused h =
    rw
      (
        length-filter_none (has_connection_id cid) doc.connections absent,
        kept_tables-unused cid doc.tables unused,
        ltb_same (length doc.connections),
      )
      h

sync-IsSettled : (doc : Doc) → IsSettled doc → IsSettled (sync_recommendations doc)
unfolding sync_recommendations
sync-IsSettled doc h =
    if_both IsSettled (any (changes doc.tables) doc.recommendations) (reconcile_recommendations doc)
      doc (reconcile-IsSettled doc (all_clean doc.tables doc.recommendations h)) h

agrees-with_status :
    (s : Status) (o : Option Table) (r : Rec)
    → is_registered s ≡ false
    → is_registered r.status ≡ false
    → agrees o r ≡ true
    → agrees o (with_status s r) ≡ true
unfolding agrees with_status
agrees-with_status s none r n m h = ground (arith, n, h)
agrees-with_status s (some t) r n m h = ground (arith, m, h)

is_clean-with_status :
    (s : Status) (r : Rec)
    → is_registered s ≡ false
    → is_registered r.status ≡ false
    → is_clean r ≡ true
    → is_clean (with_status s r) ≡ true
unfolding is_clean with_status
is_clean-with_status s r n m h = ground (
  arith,
  n,
  m,
  h,
  clean_open s r.prior_status r.registered_table_id,
  clean_open r.status r.prior_status r.registered_table_id,
)

rec_key-with_status : (s : Status) (r : Rec) → rec_key (with_status s r) ≡ rec_key r
unfolding rec_key with_status
rec_key-with_status s r = refl

with_status-is_sound :
    (s : Status) (ts : List Table) (r : Rec)
    → is_registered s ≡ false
    → is_registered r.status ≡ false
    → is_sound ts r ≡ true
    → is_sound ts (with_status s r) ≡ true
unfolding is_settled
with_status-is_sound s ts r n m h =
    rw (rec_key-with_status s r) (
      ground
        (arith, n, m, h, agrees-with_status s (hit (rec_key r) ts) r, is_clean-with_status s r))

change_first-settled :
    (rid : Text) (s : Status) (ts : List Table) (rs : List Rec) (r : Rec)
    → is_registered s ≡ false
    → find (has_rec_id rid) rs ≡ some r
    → is_registered r.status ≡ false
    → all (is_sound ts) rs ≡ true
    → all (is_sound ts) (change_first (has_rec_id rid) (with_status s) rs) ≡ true
unfolding change_first find all
change_first-settled rid s ts [] r n f m h = h
change_first-settled rid s ts (x ∷ rs) r n f m h =
    ground (arith, h, f, m, n, with_status-is_sound s ts x, change_first-settled rid s ts rs r)

status_set-IsSettled :
    (rid : Text) (s : Status) (doc : Doc) (o : Option Rec)
    → is_registered s ≡ false
    → find (has_rec_id rid) doc.recommendations ≡ o
    → IsSettled doc
    → IsSettled (or_old doc (status_set rid s doc o))
unfolding status_set or_old
status_set-IsSettled rid s doc none n e h = h
status_set-IsSettled rid s doc (some r) n e h = elim (Bool-cases (is_registered r.status)) [
  | inl m ↦ rw (m, or_old) h
  | inr m ↦ rw (m, or_old) (change_first-settled rid s doc.tables doc.recommendations r n e m h)
]

set_status-IsSettled :
    (rid : Text) (s : Status) (doc : Doc)
    → IsSettled doc
    → IsSettled (or_old doc (set_recommendation_status rid s doc))
unfolding set_recommendation_status or_old
set_status-IsSettled rid s doc h = elim (Bool-cases (is_registered s)) [
  | inl m ↦ rw (m, or_old) h
  | inr m ↦
      rw m (status_set-IsSettled rid s doc (find (has_rec_id rid) doc.recommendations) m refl h)
]

-- The calls that change the registry or the recommended tables.
pub data Call : Type 0 where
  saving : Text → Table → Call
  removing : Text → Call
  dropping : Text → Bool → Call
  setting_status : Text → Status → Call
  syncing : Call
  recommending : List (Text × Item) → Call

unfoldable pub after : Call → Doc → Doc
after (saving fresh t) doc = or_old doc (upsert_table fresh t doc)
after (removing tid) doc = (delete_table tid doc).0
after (dropping cid cascade) doc = or_old doc (delete_connection cid cascade doc)
after (setting_status rid s) doc = or_old doc (set_recommendation_status rid s doc)
after syncing doc = sync_recommendations doc
after (recommending batch) doc = (upsert_recommendations batch doc).0

unfoldable pub run : List Call → Doc → Doc
run [] doc = doc
run (c ∷ cs) doc = run cs (after c doc)

-- Not the deletion, with its cascade, of a connection that is no longer there and has tables still.
unfoldable pub spares_orphans : Call → Doc → Bool
spares_orphans (saving fresh t) doc = true
spares_orphans (removing tid) doc = true
spares_orphans (dropping cid cascade) doc =
    any (has_connection_id cid) doc.connections
    || not cascade
    || not (any (of_connection cid) doc.tables)
spares_orphans (setting_status rid s) doc = true
spares_orphans syncing doc = true
spares_orphans (recommending batch) doc = true

-- The same of each call of a run, on the document that it meets.
unfoldable pub all_spare_orphans : List Call → Doc → Bool
all_spare_orphans [] doc = true
all_spare_orphans (c ∷ cs) doc = spares_orphans c doc && all_spare_orphans cs (after c doc)

drop-IsSettled :
    (cid : Text) (cascade : Bool) (doc : Doc)
    → spares_orphans (dropping cid cascade) doc ≡ true
    → IsSettled doc
    → IsSettled (after (dropping cid cascade) doc)
unfolding after delete_connection or_old spares_orphans
drop-IsSettled cid cascade doc ok h =
    elim (Bool-cases (any (of_connection cid) doc.tables && not cascade)) [
      | inl busy ↦ rw (busy, or_old) h
      | inr idle ↦ elim (Bool-cases (any (has_connection_id cid) doc.connections)) [
        | inl there ↦ rw (idle, or_old) (without_connection-IsSettled cid doc there h)
        | inr absent ↦
            rw (idle, or_old)
              (without_absent-IsSettled cid doc absent (ground (arith, ok, idle, absent)) h)
      ]
    ]

after-IsSettled :
    (c : Call) (doc : Doc) → spares_orphans c doc ≡ true → IsSettled doc → IsSettled (after c doc)
unfolding after
after-IsSettled (saving fresh t) doc ok h = upsert_table-IsSettled fresh t doc h
after-IsSettled (removing tid) doc ok h = delete_table-IsSettled tid doc h
after-IsSettled (dropping cid cascade) doc ok h = drop-IsSettled cid cascade doc ok h
after-IsSettled (setting_status rid s) doc ok h = set_status-IsSettled rid s doc h
after-IsSettled syncing doc ok h = sync-IsSettled doc h
after-IsSettled (recommending batch) doc ok h = upsert_recommendations-IsSettled batch doc h

-- From a document in which it holds, over any sequence of calls that change the registry or the
-- recommended tables, in which no deletion with cascade is of a connection that is no longer there
-- and has tables still: each recommendation whose connection and table have names is registered,
-- with the id of the first such table, exactly when the registry has one, and carries no trace of
-- a registration otherwise.
pub run-IsSettled :
    (cs : List Call) (doc : Doc)
    → all_spare_orphans cs doc ≡ true
    → IsSettled doc
    → IsSettled (run cs doc)
unfolding run all_spare_orphans
run-IsSettled [] doc ok h = h
run-IsSettled (c ∷ cs) doc ok h =
    run-IsSettled cs (after c doc) (ground (arith, ok))
      (after-IsSettled c doc (ground (arith, ok)) h)
