-- ===== src/DataSources/Settled.antt =====
-- db_sources.py: the recommended tables agree with the registry.
use pdc_client.Base.{
  ◌≡◌, refl, Bool, true, false, not, ◌&&◌, ◌||◌, Option, none, some, List, [], ◌∷◌, map, arith,
  Text, str_eq_refl, nat_Eq, text_Eq, pair_Eq,
}
use pdc_client.Base.Lists.{all}
use pdc_client.DataSources.{Table, Status, registered, Rec, Doc}
use pdc_client.DataSources.Recommended.{
  rec_key, names_table, hit, is_registered, mark_registered, prior_or_open, revert, settle_by,
  settle, has_table_id, reconcile_recommendations,
}

unfoldable pub no_table : Option Text → Bool
no_table none = true
no_table (some i) = false

unfoldable pub no_prior : Option Status → Bool
no_prior none = true
no_prior (some s) = false

-- A recommendation is registered, with the id of the table, when the registry has a table of its
-- names, and carries no trace of a registration otherwise.
unfoldable pub agrees : Option Table → Rec → Bool
unfolding no_table no_prior
agrees none r =
    not (is_registered r.status) && no_table r.registered_table_id && no_prior r.prior_status
agrees (some t) r = is_registered r.status && has_table_id r.registered_table_id t.table_id

unfoldable pub is_settled : List Table → Rec → Bool
is_settled ts r = not (names_table (rec_key r)) || agrees (hit (rec_key r) ts) r

-- A status that is no registration has no trace of one; a registered one was not registered before.
unfoldable pub clean_fields : Status → Option Status → Option Text → Bool
clean_fields registered prior tid = not (is_registered (prior_or_open prior))
clean_fields _ prior tid = no_table tid && no_prior prior

unfoldable pub is_clean : Rec → Bool
unfolding no_table no_prior clean_fields
is_clean r = clean_fields r.status r.prior_status r.registered_table_id

rec_key-settle_by : (o : Option Table) (r : Rec) → rec_key (settle_by o r) ≡ rec_key r
unfolding rec_key settle_by revert mark_registered
rec_key-settle_by none r = ground arith
rec_key-settle_by (some t) r = ground arith

pub rec_key-settle : (ts : List Table) (r : Rec) → rec_key (settle ts r) ≡ rec_key r
unfolding settle
rec_key-settle ts r = ground (arith, rec_key-settle_by (hit (rec_key r) ts) r)

pub clean_open :
    (s : Status) (p : Option Status) (i : Option Text)
    → is_registered s ≡ false
    → clean_fields s p i ≡ (no_table i && no_prior p)
unfolding clean_fields
clean_open registered p i h = cc
clean_open _ p i h = refl

clean_prior :
    (s : Status) (p : Option Status) (i : Option Text)
    → is_registered s ≡ true
    → clean_fields s p i ≡ not (is_registered (prior_or_open p))
unfolding clean_fields
clean_prior registered p i h = refl
clean_prior _ p i h = cc

settle_by-agrees :
    (o : Option Table) (r : Rec)
    → is_clean r ≡ true
    → agrees o (settle_by o r) && is_clean (settle_by o r) ≡ true
unfolding agrees is_clean settle_by revert mark_registered prior_or_open has_table_id no_table
    no_prior
settle_by-agrees none r h = ground (
  arith,
  h,
  clean_open r.status r.prior_status r.registered_table_id,
  clean_open (prior_or_open r.prior_status) none none,
  clean_prior r.status r.prior_status r.registered_table_id,
)
settle_by-agrees (some t) r h = ground (
  arith,
  h,
  str_eq_refl t.table_id,
  clean_prior r.status r.prior_status r.registered_table_id,
  clean_open r.status r.prior_status r.registered_table_id,
)

abbrev pub is_sound : List Table → Rec → Bool
is_sound ts r = is_settled ts r && is_clean r

-- The recommendations agree with the registry.
abbrev pub IsSettled : Doc → Type 0
IsSettled doc = all (is_sound doc.tables) doc.recommendations ≡ true

settle-is_sound : (ts : List Table) (r : Rec) → is_clean r ≡ true → is_sound ts (settle ts r) ≡ true
unfolding is_settled
settle-is_sound ts r h =
    rw (rec_key-settle ts r)
      (unfold settle in ground (arith, h, settle_by-agrees (hit (rec_key r) ts) r))

pub all_clean :
    (ts : List Table) (rs : List Rec) → all (is_sound ts) rs ≡ true → all is_clean rs ≡ true
unfolding all
all_clean ts [] h = refl
all_clean ts (r ∷ rs) h = ground (arith, h, all_clean ts rs)

settled_recs :
    (ts : List Table) (rs : List Rec)
    → all is_clean rs ≡ true
    → all (is_sound ts) (map (settle ts) rs) ≡ true
unfolding all
settled_recs ts [] h = refl
settled_recs ts (r ∷ rs) h = ground (arith, h, settle-is_sound ts r, settled_recs ts rs)

pub reconcile-IsSettled :
    (doc : Doc)
    → all is_clean doc.recommendations ≡ true
    → IsSettled (reconcile_recommendations doc)
unfolding reconcile_recommendations
reconcile-IsSettled doc h = settled_recs doc.tables doc.recommendations h
