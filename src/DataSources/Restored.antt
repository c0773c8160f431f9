-- ===== src/DataSources/Restored.antt =====
-- db_sources.py: a new table that is saved and deleted again.
use pdc_client.Base.{
  ◌≡◌, refl, sym, ap, ◌∙◌, inl, inr, Bool, true, false, ◌&&◌, Option, none, some, List, [], ◌∷◌,
  ◌++◌, map, arith, Bool-cases, Text, str_eq_iff, str_eq_refl, nat_Eq, text_Eq, pair_Eq,
}
use pdc_client.Base.Lists.{all, any, filter, length-append}
use pdc_client.DataSources.{Table, Status, Rec, Doc, find}
use pdc_client.DataSources.Modes.{has_id, table_mode, valid_mode_fields}
use pdc_client.DataSources.Recommended.{
  Key, rec_key, table_key, key_eq, names_table, hit, is_registered, mark_registered, prior_or_open,
  revert, settle_by, settle, has_table_id, reconcile_recommendations,
}
use pdc_client.DataSources.Registry.{with_id, put_table, upsert_table, delete_table, without_table}
use pdc_client.DataSources.Settled.{
  no_table, no_prior, agrees, is_settled, is_sound, IsSettled, rec_key-settle,
}
use pdc_client.DataSources.Runs.{or_old}

no_table-none : (o : Option Text) → no_table o ≡ true → o ≡ none
unfolding no_table
no_table-none none h = refl
no_table-none (some i) h = cc

no_prior-none : (o : Option Status) → no_prior o ≡ true → o ≡ none
unfolding no_prior
no_prior-none none h = refl
no_prior-none (some i) h = cc

has_table_id-some : (o : Option Text) (i : Text) → has_table_id o i ≡ true → o ≡ some i
unfolding has_table_id
has_table_id-some none i h = cc
has_table_id-some (some j) i h = ap some ((str_eq_iff j i).0 h)

without_trace :
    (r : Rec)
    → r.prior_status ≡ none
    → r.registered_table_id ≡ none
    → record r { prior_status = none; registered_table_id = none } ≡ r
without_trace r p q = λ i. record r { prior_status = sym p i; registered_table_id = sym q i }

same_table_id :
    (r : Rec) (i : Text)
    → r.registered_table_id ≡ some i
    → record r { registered_table_id = some i } ≡ r
same_table_id r i q = λ k. record r { registered_table_id = sym q k }

mark-revert :
    (t : Table) (r : Rec)
    → is_registered r.status ≡ false
    → revert (mark_registered t r) ≡ record r { prior_status = none; registered_table_id = none }
unfolding mark_registered revert prior_or_open
mark-revert t r n = rw n refl

-- A recommendation that a table registered, and that its going reverts.
settle_by_undone :
    (o : Option Table) (r : Rec) → agrees none r ≡ true → settle_by none (settle_by o r) ≡ r
unfolding agrees settle_by
settle_by_undone none r h = unfold revert in ground (arith, h)
settle_by_undone (some t) r h =
    mark-revert t r (ground (arith, h))
    ∙ without_trace r (no_prior-none r.prior_status (ground (arith, h)))
        (no_table-none r.registered_table_id (ground (arith, h)))

mark_same : (t : Table) (r : Rec) → agrees (some t) r ≡ true → mark_registered t r ≡ r
unfolding agrees mark_registered
mark_same t r h =
    ground
      (arith, h, has_table_id-some r.registered_table_id t.table_id, same_table_id r t.table_id)

settle_by_same :
    (t : Table) (r : Rec) → agrees (some t) r ≡ true → settle_by (some t) (settle_by (some t) r) ≡ r
unfolding settle_by
settle_by_same t r h = ap (mark_registered t) (mark_same t r h) ∙ mark_same t r h

find-append {ℓ} :
    {A : Type ℓ} (p : A → Bool) (a : A) (xs ys : List A)
    → find p xs ≡ some a
    → find p (xs ++ ys) ≡ some a
unfolding find
find-append p a [] ys h = cc
find-append p a (x ∷ xs) ys h = ground (arith, h, find-append p a xs ys)

hit-append :
    (k : Key) (t : Table) (xs ys : List Table) → hit k xs ≡ some t → hit k (xs ++ ys) ≡ some t
unfolding hit
hit-append k t xs ys h =
    find-append (λ u. names_table (table_key u) && key_eq (table_key u) k) t xs ys h

settle_by_restored :
    (o o2 : Option Table) (r : Rec)
    → agrees o r ≡ true
    → ((t : Table) → o ≡ some t → o2 ≡ some t)
    → settle_by o (settle_by o2 r) ≡ r
settle_by_restored none o2 r h f = settle_by_undone o2 r h
settle_by_restored (some t) o2 r h f = rw (f t refl) (settle_by_same t r h)

settle_restored :
    (ts : List Table) (t : Table) (r : Rec)
    → is_sound ts r ≡ true
    → settle ts (settle (ts ++ t ∷ []) r) ≡ r
unfolding is_settled
settle_restored ts t r h = elim (Bool-cases (names_table (rec_key r))) [
  | inl named ↦
      unfold settle in
      rw (rec_key-settle (ts ++ t ∷ []) r, named)
        (settle_by_restored (hit (rec_key r) ts) (hit (rec_key r) (ts ++ t ∷ [])) r
          (ground (arith, h, named)) (λ u. hit-append (rec_key r) u ts (t ∷ [])))
  | inr nameless ↦ unfold settle in rw (rec_key-settle (ts ++ t ∷ []) r, nameless) refl
]

restored_recs :
    (ts : List Table) (t : Table) (rs : List Rec)
    → all (is_sound ts) rs ≡ true
    → map (settle ts) (map (settle (ts ++ t ∷ [])) rs) ≡ rs
unfolding all
restored_recs ts t [] h = refl
restored_recs ts t (r ∷ rs) h =
    rw (settle_restored ts t r (ground (arith, h)), restored_recs ts t rs (ground (arith, h))) refl

without_added :
    (t : Table) (ts : List Table)
    → any (has_id t.table_id) ts ≡ false
    → without_table t.table_id (ts ++ t ∷ []) ≡ ts
unfolding without_table filter any
without_added t [] h = ground (arith, str_eq_refl t.table_id)
without_added t (x ∷ ts) h = ground (arith, h, without_added t ts)

-- The row that is written for a table.
abbrev pub saved_row : Text → Table → Table
saved_row fresh t = with_id fresh (record t { mode = some (table_mode t.mode) })

undone :
    (t : Table) (doc : Doc)
    → IsSettled doc
    → any (has_id t.table_id) doc.tables ≡ false
    → delete_table t.table_id
        (reconcile_recommendations (record doc { tables = doc.tables ++ t ∷ [] }))
      ≡ (doc, true)
unfolding delete_table reconcile_recommendations
undone t doc h new =
    rw (without_added t doc.tables new, restored_recs doc.tables t doc.recommendations h)
      (ground (arith, length-append doc.tables (t ∷ [])))

-- In a document whose recommendations agree with the registry, saving a table with valid mode
-- fields and a new id and deleting it again leaves the registry and the recommended tables as they
-- were: a recommendation that the table registered has its status back.
pub new_table_undone :
    (fresh : Text) (t : Table) (doc : Doc)
    → IsSettled doc
    → valid_mode_fields t ≡ true
    → any (has_id (saved_row fresh t).table_id) doc.tables ≡ false
    → delete_table (saved_row fresh t).table_id (or_old doc (upsert_table fresh t doc))
      ≡ (doc, true)
unfolding upsert_table put_table or_old
new_table_undone fresh t doc h valid new =
    rw (valid, new, or_old) (undone (saved_row fresh t) doc h new)
