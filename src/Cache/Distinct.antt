-- ===== src/Cache/Distinct.antt =====
-- local_store.py, class LRUTTLCache: no key stands twice.
use pdc_client.Base.{
  ℕ, zero, suc, ◌≡◌, refl, inl, inr, true, Option, none, some, List, [], ◌∷◌, arith, Bool-cases,
  Option-cases, Text, nat_Eq, text_Eq, pair_Eq,
}
use pdc_client.Base.Lists.{length}
use pdc_client.Base.Dict.{
  Dict, lookup, erase, distinct_keys, distinct_keys-insert, distinct_keys-erase,
}
use pdc_client.Cache.{
  Cached, LruTtlCache, new_cache, evict_expired, lru_key, evict_lru, is_full, make_room, is_too_big,
  sweep, get, set, invalidate,
}
use pdc_client.Cache.Bounds.{Call, get_call, set_call, sweep_call, invalidate_call, step, run}
use pdc_client.Cache.Reads.{contains-evict_expired, fresh_value, get-fresh_value}

module _ {ℓ} {A : Type ℓ} where
  distinct-evict_expired :
      (now ttl : ℕ) (d : Dict Text (Cached A))
      → distinct_keys d ≡ true
      → distinct_keys (evict_expired now ttl d) ≡ true
  unfolding evict_expired distinct_keys
  distinct-evict_expired now ttl [] h = refl
  distinct-evict_expired now ttl ((k, e) ∷ d) h =
      ground (arith, h, distinct-evict_expired now ttl d, contains-evict_expired k now ttl d)

  distinct-make_room :
      (fuel max_size : ℕ) (max_bytes : Option ℕ) (size : ℕ) (d : Dict Text (Cached A))
      → distinct_keys d ≡ true
      → distinct_keys (make_room fuel max_size max_bytes size d) ≡ true
  unfolding make_room
  distinct-make_room fuel max_size max_bytes size [] h = h
  distinct-make_room zero max_size max_bytes size ((k, e) ∷ d) h = h
  distinct-make_room (suc fuel) max_size max_bytes size ((k, e) ∷ d) h =
      elim (Bool-cases (is_full max_size max_bytes size ((k, e) ∷ d))) [
        | inl full ↦ rw full (
            distinct-make_room fuel max_size max_bytes size (evict_lru ((k, e) ∷ d))
              (unfold evict_lru in distinct_keys-erase (lru_key k e.access_time d) ((k, e) ∷ d) h))
        | inr fits ↦ rw fits h
      ]

  distinct-sweep :
      (now : ℕ) (c : LruTtlCache A)
      → distinct_keys c.entries ≡ true
      → distinct_keys (sweep now c).entries ≡ true
  unfolding sweep
  distinct-sweep now c h = distinct-evict_expired now c.ttl_seconds c.entries h

  distinct-get :
      (key : Text) (now : ℕ) (c : LruTtlCache A)
      → distinct_keys c.entries ≡ true
      → distinct_keys (get key now c).1.entries ≡ true
  unfolding get
  distinct-get key now c h = elim (Option-cases (lookup key (sweep now c).entries)) [
    | inl miss ↦ rw miss (distinct-sweep now c h)
    | inr (e, found) ↦ rw found (
        distinct_keys-insert key (record e { access_time = now }) (sweep now c).entries
          (distinct-sweep now c h))
  ]

  distinct-set :
      (key : Text) (value : A) (size now : ℕ) (c : LruTtlCache A)
      → distinct_keys c.entries ≡ true
      → distinct_keys (set key value size now c).1.entries ≡ true
  unfolding set
  distinct-set key value size now c h =
      let swept = evict_expired now c.ttl_seconds c.entries in
      let others : distinct_keys (erase key swept) ≡ true =
        distinct_keys-erase key swept (distinct-evict_expired now c.ttl_seconds c.entries h) in
      elim (Bool-cases (is_too_big c.max_bytes size)) [
        | inl big ↦ rw big others
        | inr small ↦ rw small (
            distinct_keys-insert key _ _ (
              distinct-make_room (length (erase key swept)) c.max_size c.max_bytes size
                (erase key swept) others))
      ]

  distinct-step :
      (call : Call A) (c : LruTtlCache A)
      → distinct_keys c.entries ≡ true
      → distinct_keys (step call c).entries ≡ true
  distinct-step (get_call key now) c h = distinct-get key now c h
  distinct-step (set_call key value size now) c h = distinct-set key value size now c h
  distinct-step (sweep_call now) c h = distinct-sweep now c h
  distinct-step (invalidate_call none) c h = unfold invalidate distinct_keys in refl
  distinct-step (invalidate_call (some key)) c h =
      unfold invalidate in distinct_keys-erase key c.entries h

  distinct-run :
      (calls : List (Call A)) (c : LruTtlCache A)
      → distinct_keys c.entries ≡ true
      → distinct_keys (run calls c).entries ≡ true
  distinct-run [] c h = h
  distinct-run (call ∷ calls) c h = distinct-run calls (step call c) (distinct-step call c h)

  -- After any calls on a new cache no key stands twice, so a read answers the value of the key's entry
  -- where that has not expired, and nothing otherwise.
  pub reads_after_calls :
      (max_size ttl : ℕ) (max_bytes : Option ℕ) (calls : List (Call A)) (key : Text) (now : ℕ)
      → let c = run calls (new_cache max_size ttl max_bytes) in
        (distinct_keys c.entries ≡ true)
        × ((get key now c).0 ≡ fresh_value now c.ttl_seconds (lookup key c.entries))
  reads_after_calls max_size ttl max_bytes calls key now =
      let c = run calls (new_cache max_size ttl max_bytes) in
      let unique =
        distinct-run calls (new_cache max_size ttl max_bytes) (unfold distinct_keys in refl) in
      (unique, get-fresh_value key now c unique)
