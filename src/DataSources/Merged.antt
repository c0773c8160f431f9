-- ===== src/DataSources/Merged.antt =====
-- db_sources.py: merging recommendations keeps them in agreement with the registry.
use pdc_client.Base.{
  ◌≡◌, refl, ◌∙◌, inl, inr, Bool, true, false, Option, none, some, List, [], ◌∷◌, arith, Bool-cases,
  is_some, if_both, Text, nat_Eq, text_Eq, pair_Eq,
}
use pdc_client.Base.Lists.{all, all-append}
use pdc_client.DataSources.{Table, Rec, Doc, change_first, find}
use pdc_client.DataSources.Recommended.{rec_key, names_table, hit, is_registered}
use pdc_client.DataSources.Merge.{
  Item, merged, item_key, new_rec, Batch, has_key, merge_found, merge_item, merge_items,
  upsert_recommendations,
}
use pdc_client.DataSources.Settled.{
  no_table, no_prior, agrees, is_settled, clean_fields, is_clean, is_sound, IsSettled,
}

agrees-merged : (o : Option Table) (item : Item) (r : Rec) → agrees o (merged item r) ≡ agrees o r
unfolding agrees merged
agrees-merged none item r = refl
agrees-merged (some t) item r = refl

rec_key-merged : (item : Item) (r : Rec) → rec_key (merged item r) ≡ rec_key r
unfolding rec_key merged
rec_key-merged item r = refl

is_clean-merged : (item : Item) (r : Rec) → is_clean (merged item r) ≡ is_clean r
unfolding is_clean merged
is_clean-merged item r = refl

merged-is_sound :
    (ts : List Table) (item : Item) (r : Rec)
    → is_sound ts r ≡ true
    → is_sound ts (merged item r) ≡ true
unfolding is_settled
merged-is_sound ts item r h =
    rw (rec_key-merged item r, agrees-merged (hit (rec_key r) ts) item r, is_clean-merged item r) h

agrees-new_rec :
    (o : Option Table) (fresh : Text) (item : Item)
    → is_some o ≡ false
    → agrees o (new_rec fresh item) ≡ true
unfolding agrees new_rec no_table no_prior
agrees-new_rec none fresh item h = refl
agrees-new_rec (some t) fresh item h = cc

rec_key-new_rec : (fresh : Text) (item : Item) → rec_key (new_rec fresh item) ≡ item_key item
unfolding rec_key new_rec item_key
rec_key-new_rec fresh item = refl

is_clean-new_rec : (fresh : Text) (item : Item) → is_clean (new_rec fresh item) ≡ true
unfolding is_clean new_rec clean_fields no_table no_prior
is_clean-new_rec fresh item = refl

new_rec-is_sound :
    (ts : List Table) (fresh : Text) (item : Item)
    → is_some (hit (item_key item) ts) ≡ false
    → is_sound ts (new_rec fresh item) ≡ true
unfolding is_settled
new_rec-is_sound ts fresh item h =
    rw (rec_key-new_rec fresh item, is_clean-new_rec fresh item)
      (ground (arith, agrees-new_rec (hit (item_key item) ts) fresh item h))

change_first-all {ℓ} :
    {A : Type ℓ} (p q : A → Bool) (f : A → A)
    → ((x : A) → p x ≡ true → p (f x) ≡ true)
    → (xs : List A) → all p xs ≡ true
    → all p (change_first q f xs) ≡ true
unfolding all change_first
change_first-all p q f k [] h = h
change_first-all p q f k (x ∷ xs) h = ground (arith, h, k x, change_first-all p q f k xs)

module _ (ts : List Table) where
  IsSound : Batch → Type 0
  IsSound b = all (is_sound ts) b.recs ≡ true

  merge_found-IsSound :
      (fresh : Text) (item : Item) (b : Batch) (o : Option Rec)
      → IsSound b
      → IsSound (merge_found ts fresh item b o)
  unfolding IsSound merge_found all
  merge_found-IsSound fresh item b none h = elim (Bool-cases (is_some (hit (item_key item) ts))) [
    | inl there ↦ rw there h
    | inr absent ↦ rw absent (
        all-append (is_sound ts) b.recs (merged item (new_rec fresh item) ∷ [])
        ∙ ground (
          arith,
          h,
          merged-is_sound ts item (new_rec fresh item) (new_rec-is_sound ts fresh item absent),
        ))
  ]
  merge_found-IsSound fresh item b (some r) h = elim (Bool-cases (is_registered r.status)) [
    | inl m ↦ rw m h
    | inr m ↦ rw m (
        change_first-all (is_sound ts) (has_key (item_key item)) (merged item)
          (merged-is_sound ts item) b.recs h)
  ]

  merge_item-IsSound :
      (fresh : Text) (item : Item) (b : Batch) → IsSound b → IsSound (merge_item ts fresh item b)
  unfolding merge_item
  merge_item-IsSound fresh item b h =
      if_both IsSound (names_table (item_key item))
        (merge_found ts fresh item b (find (has_key (item_key item)) b.recs)) b
        (merge_found-IsSound fresh item b (find (has_key (item_key item)) b.recs) h) h

  merge_items-IsSound :
      (items : List (Text × Item)) (b : Batch) → IsSound b → IsSound (merge_items ts items b)
  unfolding merge_items
  merge_items-IsSound [] b h = h
  merge_items-IsSound ((fresh, item) ∷ items) b h =
      merge_items-IsSound items (merge_item ts fresh item b) (merge_item-IsSound fresh item b h)

pub upsert_recommendations-IsSettled :
    (batch : List (Text × Item)) (doc : Doc)
    → IsSettled doc
    → IsSettled (upsert_recommendations batch doc).0
unfolding upsert_recommendations IsSound
upsert_recommendations-IsSettled batch doc h =
    merge_items-IsSound doc.tables batch
      (record { recs = doc.recommendations; created = 0; updated = 0 }) h
