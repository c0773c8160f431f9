-- ===== src/Cache/Recency.antt =====
-- local_store.py, class LRUTTLCache: the order of the evictions.
use pdc_client.Base.{
  ℕ, zero, suc, ◌≤◌, ◌≡◌, refl, ◌∙◌, inl, inr, Bool, true, false, Option, some, [], ◌∷◌, arith, ltb,
  leb, if◌then◌else◌, Bool-cases, Text, str_eq_iff, str_eq_refl, nat_Eq, text_Eq, pair_Eq, str_eq,
}
use pdc_client.Base.Lists.{all}
use pdc_client.Base.Dict.{
  Dict, lookup, erase, contains, lookup-erase, distinct_keys, distinct_keys-erase,
}
use pdc_client.Cache.{Cached, lru_key, evict_lru, is_full, make_room}
use pdc_client.Cache.Bounds.{lru_key_found}

module _ {ℓ} {A : Type ℓ} where
  -- Whether an entry was used at the time or later.
  pub used_since : ℕ → Text × Cached A → Bool
  used_since t p = leb t p.1.access_time

  lru_time : ℕ → Dict Text (Cached A) → ℕ
  lru_time t [] = t
  lru_time t ((j, e) ∷ d) = lru_time (if ltb e.access_time t then e.access_time else t) d

  all_used_cons :
      (t : ℕ) (j : Text) (e : Cached A) (d : Dict Text (Cached A))
      → t ≤ e.access_time
      → all (used_since t) d ≡ true
      → all (used_since t) ((j, e) ∷ d) ≡ true
  unfolding all used_since
  all_used_cons t j e d h rest = ground (arith, h, rest)

  lru_time_least :
      (t : ℕ) (d : Dict Text (Cached A))
      → (lru_time t d ≤ t) × (all (used_since (lru_time t d)) d ≡ true)
  unfolding lru_time
  lru_time_least t [] = (omega arith, unfold all in refl)
  lru_time_least t ((j, e) ∷ d) =
      let s : ℕ = if ltb e.access_time t then e.access_time else t in
      let least = lru_time_least s d in
      let before_t : s ≤ t = ground arith in
      let before_e : s ≤ e.access_time = ground arith in
      (
        omega (arith, least.0, before_t),
        all_used_cons (lru_time s d) j e d (omega (arith, least.0, before_e)) least.1,
      )

  time-lru_key :
      (k : Text) (e f : Cached A) (d : Dict Text (Cached A))
      → distinct_keys ((k, e) ∷ d) ≡ true
      → lookup (lru_key k e.access_time d) ((k, e) ∷ d) ≡ some f
      → f.access_time ≡ lru_time e.access_time d
  unfolding lru_key lru_time lookup distinct_keys
  time-lru_key k e f [] h found = ground (arith, found, str_eq_refl k)
  time-lru_key k e f ((j, g) ∷ d) h found = elim (Bool-cases (ltb g.access_time e.access_time)) [
    | inl older ↦ ground (
      arith,
      older,
      h,
      found,
      time-lru_key j g f d,
      lru_key_found j g.access_time d,
      str_eq_iff k (lru_key j g.access_time d),
      str_eq_iff j (lru_key j g.access_time d),
      str_eq_iff j k,
    )
    | inr newer ↦ ground (
      arith,
      newer,
      h,
      found,
      time-lru_key k e f d,
      lru_key_found k e.access_time d,
      str_eq_iff k (lru_key k e.access_time d),
      str_eq_iff j (lru_key k e.access_time d),
      str_eq_iff j k,
    )
  ]

  oldest_first :
      (k : Text) (e : Cached A) (j : Text) (f : Cached A) (d : Dict Text (Cached A))
      → distinct_keys ((j, f) ∷ d) ≡ true
      → lookup k ((j, f) ∷ d) ≡ some e
      → lru_key j f.access_time d ≡ k
      → all (used_since e.access_time) ((j, f) ∷ d) ≡ true
  oldest_first k e j f d h found out =
      let least = lru_time_least f.access_time d in
      rw (time-lru_key j f e d h (rw out found))
        (all_used_cons (lru_time f.access_time d) j f d least.0 least.1)

  all-erase :
      (p : Text × Cached A → Bool) (k : Text) (d : Dict Text (Cached A))
      → all p d ≡ true
      → all p (erase k d) ≡ true
  unfolding all erase
  all-erase p k [] h = refl
  all-erase p k ((j, e) ∷ d) h = ground (arith, h, all-erase p k d)

  all-make_room :
      (p : Text × Cached A → Bool) (fuel max_size : ℕ) (max_bytes : Option ℕ) (size : ℕ)
      (d : Dict Text (Cached A))
      → all p d ≡ true
      → all p (make_room fuel max_size max_bytes size d) ≡ true
  unfolding make_room
  all-make_room p fuel max_size max_bytes size [] h = h
  all-make_room p zero max_size max_bytes size ((j, e) ∷ d) h = h
  all-make_room p (suc fuel) max_size max_bytes size ((j, e) ∷ d) h =
      elim (Bool-cases (is_full max_size max_bytes size ((j, e) ∷ d))) [
        | inl full ↦ rw full (
            all-make_room p fuel max_size max_bytes size (evict_lru ((j, e) ∷ d))
              (unfold evict_lru in all-erase p (lru_key j e.access_time d) ((j, e) ∷ d) h))
        | inr fits ↦ rw fits h
      ]

  -- An entry that makes room for another one was used no later than any entry that stays. The keys of
  -- the dictionary are distinct.
  pub evicted_used_first :
      (k : Text) (e : Cached A) (fuel max_size : ℕ) (max_bytes : Option ℕ) (size : ℕ)
      (d : Dict Text (Cached A))
      → distinct_keys d ≡ true
      → lookup k d ≡ some e
      → contains k (make_room fuel max_size max_bytes size d) ≡ false
      → all (used_since e.access_time) (make_room fuel max_size max_bytes size d) ≡ true
  unfolding make_room
  evicted_used_first k e fuel max_size max_bytes size [] h found gone = unfold all in refl
  evicted_used_first k e zero max_size max_bytes size ((j, f) ∷ d) h found gone =
      ground (arith, found, gone)
  evicted_used_first k e (suc fuel) max_size max_bytes size ((j, f) ∷ d) h found gone =
      elim (Bool-cases (is_full max_size max_bytes size ((j, f) ∷ d))) [
        | inl full ↦ rw full (elim (Bool-cases (str_eq (lru_key j f.access_time d) k)) [
          | inl out ↦
              all-make_room (used_since e.access_time) fuel max_size max_bytes size
                (evict_lru ((j, f) ∷ d))
                (unfold evict_lru in
                  all-erase (used_since e.access_time) (lru_key j f.access_time d) ((j, f) ∷ d) (
                    oldest_first k e j f d h found
                      ((str_eq_iff (lru_key j f.access_time d) k).0 out)))
          | inr stays ↦
              evicted_used_first k e fuel max_size max_bytes size (evict_lru ((j, f) ∷ d))
                (unfold evict_lru in distinct_keys-erase (lru_key j f.access_time d) ((j, f) ∷ d) h)
                (unfold evict_lru in
                  (lookup-erase (lru_key j f.access_time d) k ((j, f) ∷ d) ∙ rw stays found))
                (rw full at gone)
        ])
        | inr fits ↦ ground (arith, fits, found, gone)
      ]
