-- ===== src/Cache/Bounds.antt =====
-- local_store.py, class LRUTTLCache: how much the cache holds.
use pdc_client.Base.{
  ℕ, zero, suc, ◌+◌, ◌≤◌, max, ◌≡◌, refl, inl, inr, Bool, true, false, not, ◌||◌, Option, none,
  some, List, [], ◌∷◌, arith, Bool-cases, Option-cases, Text, str_eq_refl, nat_Eq, text_Eq, pair_Eq,
  str_eq,
}
use pdc_client.Base.Lists.{length, is_nil}
use pdc_client.Base.Dict.{
  Dict, lookup, insert, erase, contains, length-erase, length-erase_lt, length-insert,
}
use pdc_client.Cache.{
  Cached, LruTtlCache, evict_expired, total_bytes, lru_key, evict_lru, is_full, make_room,
  is_too_big, sweep, get, set, invalidate, new_cache,
}

module _ {ℓ} {A : Type ℓ} where
  length-evict_expired :
      (now ttl : ℕ) (d : Dict Text (Cached A)) → length (evict_expired now ttl d) ≤ length d
  unfolding evict_expired
  length-evict_expired now ttl [] = omega arith
  length-evict_expired now ttl ((k, e) ∷ d) = ground (arith, length-evict_expired now ttl d)

  total-evict_expired :
      (now ttl : ℕ) (d : Dict Text (Cached A))
      → total_bytes (evict_expired now ttl d) ≤ total_bytes d
  unfolding evict_expired total_bytes
  total-evict_expired now ttl [] = omega arith
  total-evict_expired now ttl ((k, e) ∷ d) = ground (arith, total-evict_expired now ttl d)

  total-erase : (k : Text) (d : Dict Text (Cached A)) → total_bytes (erase k d) ≤ total_bytes d
  unfolding erase total_bytes
  total-erase k [] = omega arith
  total-erase k ((j, e) ∷ d) = ground (arith, total-erase k d)

  pub lru_key_found :
      (k : Text) (t : ℕ) (d : Dict Text (Cached A))
      → (str_eq k (lru_key k t d) || contains (lru_key k t d) d) ≡ true
  unfolding lru_key lookup
  lru_key_found k t [] = ground (arith, str_eq_refl k)
  lru_key_found k t ((j, e) ∷ d) =
      ground (arith, lru_key_found k t d, lru_key_found j e.access_time d)

  length-evict_lru :
      (k : Text) (e : Cached A) (d : Dict Text (Cached A))
      → length (evict_lru ((k, e) ∷ d)) ≤ length d
  unfolding evict_lru lookup
  length-evict_lru k e d = ground (
    arith,
    length-erase_lt (lru_key k e.access_time d) ((k, e) ∷ d),
    lru_key_found k e.access_time d,
  )

  -- Nothing, or room for an entry of the size.
  has_room : ℕ → Option ℕ → ℕ → Dict Text (Cached A) → Bool
  has_room max_size max_bytes size d = is_nil d || not (is_full max_size max_bytes size d)

  has_room-make_room :
      (fuel max_size : ℕ) (max_bytes : Option ℕ) (size : ℕ) (d : Dict Text (Cached A))
      → length d ≤ fuel
      → has_room max_size max_bytes size (make_room fuel max_size max_bytes size d) ≡ true
  unfolding has_room make_room
  has_room-make_room zero max_size max_bytes size [] h = refl
  has_room-make_room zero max_size max_bytes size ((k, e) ∷ d) h = ground (arith, h)
  has_room-make_room (suc fuel) max_size max_bytes size [] h = refl
  has_room-make_room (suc fuel) max_size max_bytes size ((k, e) ∷ d) h = ground (
    arith,
    h,
    length-evict_lru k e d,
    has_room-make_room fuel max_size max_bytes size (evict_lru ((k, e) ∷ d)),
  )

  total-insert :
      (k : Text) (e : Cached A) (d : Dict Text (Cached A))
      → total_bytes (insert k e d) ≤ e.size + total_bytes d
  unfolding insert total_bytes
  total-insert k e [] = omega arith
  total-insert k e ((j, f) ∷ d) = ground (arith, total-insert k e d)

-- At most `max_size` entries (one where it is 0), and at most `max_bytes` bytes.
pub IsBounded {ℓ} : {A : Type ℓ} → ℕ → Option ℕ → Dict Text (Cached A) → Type 0
IsBounded max_size none d = length d ≤ max max_size 1
IsBounded max_size (some max_bytes) d = (length d ≤ max max_size 1) × (total_bytes d ≤ max_bytes)

module _ {ℓ} {A : Type ℓ} where
  IsBounded-shrinks :
      (max_size : ℕ) (max_bytes : Option ℕ) (d f : Dict Text (Cached A))
      → length f ≤ length d
      → total_bytes f ≤ total_bytes d
      → IsBounded max_size max_bytes d
      → IsBounded max_size max_bytes f
  unfolding IsBounded
  IsBounded-shrinks max_size none d f l t h = omega (arith, l, h)
  IsBounded-shrinks max_size (some max_bytes) d f l t h = (omega (arith, l, h), omega (arith, t, h))

  IsBounded-insert :
      (max_size : ℕ) (max_bytes : Option ℕ) (k : Text) (e : Cached A) (d : Dict Text (Cached A))
      → is_too_big max_bytes e.size ≡ false
      → has_room max_size max_bytes e.size d ≡ true
      → IsBounded max_size max_bytes (insert k e d)
  unfolding IsBounded has_room is_full is_too_big
  IsBounded-insert max_size none k e [] small room = unfold insert in omega arith
  IsBounded-insert max_size (some b) k e [] small room =
      unfold insert total_bytes in (omega arith, ground (arith, small))
  IsBounded-insert max_size none k e (x ∷ d) small room =
      ground (arith, room, length-insert k e (x ∷ d))
  IsBounded-insert max_size (some b) k e (x ∷ d) small room = (
    ground (arith, room, length-insert k e (x ∷ d)),
    ground (arith, room, total-insert k e (x ∷ d)),
  )

  total-touch :
      (k : Text) (now : ℕ) (e : Cached A) (d : Dict Text (Cached A))
      → lookup k d ≡ some e
      → (total_bytes (insert k (record e { access_time = now }) d) ≡ total_bytes d)
        × (length (insert k (record e { access_time = now }) d) ≡ length d)
  unfolding lookup insert total_bytes
  total-touch k now e [] h = ground (arith, h)
  total-touch k now e ((j, f) ∷ d) h = ground (arith, h, total-touch k now e d)

  -- The cache keeps within its own limits.
  abbrev pub IsWithin : LruTtlCache A → Type 0
  IsWithin c = IsBounded c.max_size c.max_bytes c.entries

  IsWithin-sweep : (now : ℕ) (c : LruTtlCache A) → IsWithin c → IsWithin (sweep now c)
  unfolding sweep
  IsWithin-sweep now c h =
      IsBounded-shrinks c.max_size c.max_bytes c.entries _
        (length-evict_expired now c.ttl_seconds c.entries)
        (total-evict_expired now c.ttl_seconds c.entries) h

  IsWithin-get :
      (key : Text) (now : ℕ) (c : LruTtlCache A) → IsWithin c → IsWithin (get key now c).1
  unfolding get
  IsWithin-get key now c h = elim (Option-cases (lookup key (sweep now c).entries)) [
    | inl miss ↦ rw miss (IsWithin-sweep now c h)
    | inr (e, found) ↦
        let same = total-touch key now e (sweep now c).entries found in
        rw found (
          IsBounded-shrinks (sweep now c).max_size (sweep now c).max_bytes (sweep now c).entries
            (insert key (record e { access_time = now }) (sweep now c).entries)
            (omega (arith, same.1)) (omega (arith, same.0)) (IsWithin-sweep now c h))
  ]

  IsWithin-set :
      (key : Text) (value : A) (size now : ℕ) (c : LruTtlCache A)
      → IsWithin c
      → IsWithin (set key value size now c).1
  unfolding set
  IsWithin-set key value size now c h =
      let swept = evict_expired now c.ttl_seconds c.entries in
      elim (Bool-cases (is_too_big c.max_bytes size)) [
        | inl big ↦ rw big (
            IsBounded-shrinks c.max_size c.max_bytes c.entries (erase key swept)
              (omega
                (arith, length-erase key swept, length-evict_expired now c.ttl_seconds c.entries))
              (omega
                (arith, total-erase key swept, total-evict_expired now c.ttl_seconds c.entries))
              h)
        | inr small ↦ rw small (
            IsBounded-insert c.max_size c.max_bytes key _ _ small (
              has_room-make_room (length (erase key swept)) c.max_size c.max_bytes size
                (erase key swept) (omega arith)))
      ]

  IsWithin-invalidate :
      (key : Option Text) (c : LruTtlCache A) → IsWithin c → IsWithin (invalidate key c)
  unfolding invalidate
  IsWithin-invalidate none c h =
      IsBounded-shrinks c.max_size c.max_bytes c.entries [] (omega arith)
        (unfold total_bytes in omega arith) h
  IsWithin-invalidate (some key) c h =
      IsBounded-shrinks c.max_size c.max_bytes c.entries (erase key c.entries)
        (length-erase key c.entries) (total-erase key c.entries) h

-- One call, with its time where it reads the clock.
pub data Call {ℓ} (A : Type ℓ) : Type ℓ where
  get_call : Text → ℕ → Call A
  set_call : Text → A → ℕ → ℕ → Call A
  sweep_call : ℕ → Call A
  invalidate_call : Option Text → Call A

empty_within {ℓ} :
    (A : Type ℓ) (max_size : ℕ) (max_bytes : Option ℕ) → IsBounded {A = A} max_size max_bytes []
unfolding IsBounded total_bytes
empty_within A max_size none = omega arith
empty_within A max_size (some b) = (omega arith, omega arith)

module _ {ℓ} {A : Type ℓ} where
  abbrev pub step : Call A → LruTtlCache A → LruTtlCache A
  step (get_call key now) c = (get key now c).1
  step (set_call key value size now) c = (set key value size now c).1
  step (sweep_call now) c = sweep now c
  step (invalidate_call key) c = invalidate key c

  abbrev pub run : List (Call A) → LruTtlCache A → LruTtlCache A
  run [] c = c
  run (call ∷ calls) c = run calls (step call c)

  IsWithin-step : (call : Call A) (c : LruTtlCache A) → IsWithin c → IsWithin (step call c)
  IsWithin-step (get_call key now) c h = IsWithin-get key now c h
  IsWithin-step (set_call key value size now) c h = IsWithin-set key value size now c h
  IsWithin-step (sweep_call now) c h = IsWithin-sweep now c h
  IsWithin-step (invalidate_call key) c h = IsWithin-invalidate key c h

  IsWithin-run : (calls : List (Call A)) (c : LruTtlCache A) → IsWithin c → IsWithin (run calls c)
  IsWithin-run [] c h = h
  IsWithin-run (call ∷ calls) c h = IsWithin-run calls (step call c) (IsWithin-step call c h)

  -- Whatever is called on a new cache, it never holds more entries than `max_size` (one where that is
  -- 0), nor more bytes than `max_bytes`.
  pub cache_stays_bounded :
      (max_size ttl : ℕ) (max_bytes : Option ℕ) (calls : List (Call A))
      → IsWithin (run calls (new_cache max_size ttl max_bytes))
  cache_stays_bounded max_size ttl max_bytes calls =
      IsWithin-run calls (new_cache max_size ttl max_bytes) (empty_within A max_size max_bytes)
