-- ===== src/Cache/Reads.antt =====
-- local_store.py, class LRUTTLCache: what a read answers.
use pdc_client.Base.{
  ℕ, zero, suc, ◌+◌, ◌≡◌, refl, ◌∙◌, inl, inr, true, false, ◌||◌, Option, none, some, [], ◌∷◌,
  arith, ltb, if◌then◌else◌, Bool-cases, is_some, Text, str_eq_iff, str_eq_refl, nat_Eq, text_Eq,
  pair_Eq,
}
use pdc_client.Base.Lists.{length}
use pdc_client.Base.Dict.{Dict, lookup, insert, erase, contains, lookup-erase, distinct_keys}
use pdc_client.Cache.{
  Cached, LruTtlCache, is_expired, evict_expired, lru_key, evict_lru, is_full, make_room,
  is_too_big, sweep, get, set, hit,
}

module _ {ℓ} {A : Type ℓ} where
  -- The value of an entry that is there and not expired.
  abbrev pub fresh_value : ℕ → ℕ → Option (Cached A) → Option A
  fresh_value now ttl none = none
  fresh_value now ttl (some e) = if is_expired now ttl e then none else some e.value

  abbrev value_of : Option (Cached A) → Option A
  value_of none = none
  value_of (some e) = some e.value

  absent : (found : Option (Cached A)) → is_some found ≡ false → value_of found ≡ none
  absent none h = refl
  absent (some e) h = ground (arith, h)

  pub contains-evict_expired :
      (k : Text) (now ttl : ℕ) (d : Dict Text (Cached A))
      → contains k d ≡ false
      → contains k (evict_expired now ttl d) ≡ false
  unfolding evict_expired lookup
  contains-evict_expired k now ttl [] h = refl
  contains-evict_expired k now ttl ((j, e) ∷ d) h =
      ground (arith, h, contains-evict_expired k now ttl d)

  value-evict_expired :
      (k : Text) (now ttl : ℕ) (d : Dict Text (Cached A))
      → distinct_keys d ≡ true
      → value_of (lookup k (evict_expired now ttl d)) ≡ fresh_value now ttl (lookup k d)
  unfolding evict_expired lookup distinct_keys
  value-evict_expired k now ttl [] h = refl
  value-evict_expired k now ttl ((j, e) ∷ d) h = ground (
    arith,
    h,
    value-evict_expired k now ttl d,
    contains-evict_expired j now ttl d,
    str_eq_iff j k,
  )

  hit-value :
      (key : Text) (now : ℕ) (c : LruTtlCache A) (found : Option (Cached A))
      → (hit key now c found).0 ≡ value_of found
  hit-value key now c none = refl
  hit-value key now c (some e) = refl

  -- A read answers the value of the key exactly when an entry of it is there that is no older than the
  -- time to live. The keys of the dictionary are distinct.
  pub get-fresh_value :
      (key : Text) (now : ℕ) (c : LruTtlCache A)
      → distinct_keys c.entries ≡ true
      → (get key now c).0 ≡ fresh_value now c.ttl_seconds (lookup key c.entries)
  unfolding get sweep
  get-fresh_value key now c h =
      hit-value key now _ (lookup key (evict_expired now c.ttl_seconds c.entries))
      ∙ value-evict_expired key now c.ttl_seconds c.entries h

  contains-erase :
      (k j : Text) (d : Dict Text (Cached A))
      → contains k d ≡ false
      → contains k (erase j d) ≡ false
  unfolding erase lookup
  contains-erase k j [] h = refl
  contains-erase k j ((i, e) ∷ d) h = ground (arith, h, contains-erase k j d)

  contains-erased : (k : Text) (d : Dict Text (Cached A)) → contains k (erase k d) ≡ false
  contains-erased k d = rw (lookup-erase k k d) (rw (str_eq_refl k) refl)

  contains-make_room :
      (k : Text) (fuel max_size : ℕ) (max_bytes : Option ℕ) (size : ℕ) (d : Dict Text (Cached A))
      → contains k d ≡ false
      → contains k (make_room fuel max_size max_bytes size d) ≡ false
  unfolding make_room
  contains-make_room k fuel max_size max_bytes size [] h = h
  contains-make_room k zero max_size max_bytes size ((j, e) ∷ d) h = h
  contains-make_room k (suc fuel) max_size max_bytes size ((j, e) ∷ d) h =
      elim (Bool-cases (is_full max_size max_bytes size ((j, e) ∷ d))) [
        | inl full ↦ rw full (
            contains-make_room k fuel max_size max_bytes size (evict_lru ((j, e) ∷ d))
              (unfold evict_lru in contains-erase k (lru_key j e.access_time d) ((j, e) ∷ d) h))
        | inr fits ↦ rw fits h
      ]

  value-inserted :
      (k : Text) (now ttl : ℕ) (e : Cached A) (d : Dict Text (Cached A))
      → contains k d ≡ false
      → value_of (lookup k (evict_expired now ttl (insert k e d))) ≡ fresh_value now ttl (some e)
  unfolding evict_expired lookup insert
  value-inserted k now ttl e [] h = ground (arith, str_eq_refl k)
  value-inserted k now ttl e ((j, f) ∷ d) h =
      ground (arith, h, value-inserted k now ttl e d, str_eq_refl k)

  -- A value that was set is read back until its time to live is over, unless it alone takes more than
  -- half of the bytes: then it is not kept, and no older value of the key is read either.
  pub set_value_read_back :
      (key : Text) (value : A) (size now later : ℕ) (c : LruTtlCache A)
      → (get key later (set key value size now c).1).0 ≡ (
          if is_too_big c.max_bytes size || ltb (now + c.ttl_seconds) later
          then none
          else some value)
  unfolding get set sweep
  set_value_read_back key value size now later c =
      let swept = evict_expired now c.ttl_seconds c.entries in
      let room =
        make_room (length (erase key swept)) c.max_size c.max_bytes size (erase key swept) in
      elim (Bool-cases (is_too_big c.max_bytes size)) [
        | inl big ↦ rw big (
            hit-value key later _ _
            ∙ absent (lookup key (evict_expired later c.ttl_seconds (erase key swept))) (
                contains-evict_expired key later c.ttl_seconds (erase key swept)
                  (contains-erased key swept)))
        | inr small ↦ rw small (
            hit-value key later _ _
            ∙ (value-inserted key later c.ttl_seconds _ room (
                  contains-make_room key _ c.max_size c.max_bytes size (erase key swept)
                    (contains-erased key swept))
                ∙ unfold is_expired in refl))
      ]
