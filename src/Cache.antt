-- ===== src/Cache.antt =====
-- local_store.py, class LRUTTLCache: the cache of loaded tables, with its bounds on entries and bytes.
-- A call reads the clock once.
pub mod Bounds
pub mod Reads
pub mod Recency
pub mod Distinct
mod Tests
use pdc_client.Base.{
  ℕ, zero, suc, ◌+◌, ◌-◌, ◌*◌, ◌/◌, ◌%◌, ◌^◌, ◌≤◌, ◌<◌, min, max, ◌≡◌, refl, sym, ap, ◌∙◌, ◌≢◌, ◌↔◌,
  ◌⊎◌, inl, inr, Bool, true, false, not, ◌&&◌, ◌||◌, Option, none, some, List, [], ◌∷◌, ◌++◌, map,
  arith, ltb, leb, ◌==◌, if◌then◌else◌, leb→le, le→leb, ltb→lt, ==_iff, Bool-cases, Option-cases,
  is_some, if_both, Eq, Text, str_eq_iff, str_eq_refl, nat_Eq, text_Eq, pair_Eq, str_eq,
}
use pdc_client.Base.Lists.{length}
use pdc_client.Base.Dict.{Dict, lookup, insert, erase}

pub record Cached {ℓ} (A : Type ℓ) : Type ℓ where
  pub value : A
  pub size : ℕ
  pub timestamp : ℕ
  pub access_time : ℕ

pub record LruTtlCache {ℓ} (A : Type ℓ) : Type ℓ where
  pub max_size : ℕ
  pub ttl_seconds : ℕ
  pub max_bytes : Option ℕ
  pub entries : Dict Text (Cached A)

-- Whether the entry alone takes more than half of the bytes.
unfoldable pub is_too_big : Option ℕ → ℕ → Bool
is_too_big none size = false
is_too_big (some max_bytes) size = ltb (max_bytes / 2) size

module _ {ℓ} {A : Type ℓ} where
  -- `now - v["timestamp"] > self._ttl_seconds`
  unfoldable pub is_expired : ℕ → ℕ → Cached A → Bool
  is_expired now ttl e = ltb (e.timestamp + ttl) now

  -- `_evict_expired_locked`
  unfoldable pub evict_expired : ℕ → ℕ → Dict Text (Cached A) → Dict Text (Cached A)
  evict_expired now ttl [] = []
  evict_expired now ttl ((k, e) ∷ d) =
      let rest = evict_expired now ttl d in if is_expired now ttl e then rest else (k, e) ∷ rest

  -- `_total_bytes_locked`
  unfoldable pub total_bytes : Dict Text (Cached A) → ℕ
  total_bytes [] = 0
  total_bytes ((k, e) ∷ d) = e.size + total_bytes d

  -- The key with the least access time, the first of equal ones.
  unfoldable pub lru_key : Text → ℕ → Dict Text (Cached A) → Text
  lru_key k t [] = k
  lru_key k t ((j, e) ∷ d) =
      let older = ltb e.access_time t in
      lru_key (if older then j else k) (if older then e.access_time else t) d

  -- `_evict_lru_locked`
  unfoldable pub evict_lru : Dict Text (Cached A) → Dict Text (Cached A)
  evict_lru [] = []
  evict_lru ((k, e) ∷ d) = erase (lru_key k e.access_time d) ((k, e) ∷ d)

  -- The test of the loop in `set`, for a cache that is not empty.
  unfoldable pub is_full : ℕ → Option ℕ → ℕ → Dict Text (Cached A) → Bool
  is_full max_size none size d = leb max_size (length d)
  is_full max_size (some max_bytes) size d =
      leb max_size (length d) || ltb max_bytes (total_bytes d + size)

  -- The loop in `set`, on fuel.
  unfoldable pub make_room : ℕ → ℕ → Option ℕ → ℕ → Dict Text (Cached A) → Dict Text (Cached A)
  make_room fuel max_size max_bytes size [] = []
  make_room zero max_size max_bytes size ((k, e) ∷ d) = (k, e) ∷ d
  make_room (suc fuel) max_size max_bytes size ((k, e) ∷ d) =
      let rest = make_room fuel max_size max_bytes size (evict_lru ((k, e) ∷ d)) in
      if is_full max_size max_bytes size ((k, e) ∷ d) then rest else (k, e) ∷ d

  abbrev touched : ℕ → Cached A → Cached A
  touched now e = record e { access_time = now }

  abbrev hit : Text → ℕ → LruTtlCache A → Option (Cached A) → Option A × LruTtlCache A
  hit key now c none = (none, c)
  hit key now c (some e) =
      (some e.value, record c { entries = insert key (touched now e) c.entries })

  -- `__init__`
  abbrev pub new_cache : ℕ → ℕ → Option ℕ → LruTtlCache A
  new_cache max_size ttl_seconds max_bytes = record {
    max_size = max_size;
    ttl_seconds = ttl_seconds;
    max_bytes = max_bytes;
    entries = [];
  }

  -- `sweep`
  unfoldable pub sweep : ℕ → LruTtlCache A → LruTtlCache A
  sweep now c = record c { entries = evict_expired now c.ttl_seconds c.entries }

  -- `get`
  unfoldable pub get : Text → ℕ → LruTtlCache A → Option A × LruTtlCache A
  get key now c = let swept = sweep now c in hit key now swept (lookup key swept.entries)

  -- `set`
  unfoldable pub set : Text → A → ℕ → ℕ → LruTtlCache A → Bool × LruTtlCache A
  set key value size now c =
      let others = erase key (evict_expired now c.ttl_seconds c.entries) in
      let room = make_room (length others) c.max_size c.max_bytes size others in
      let entry : Cached A = record {
        value = value;
        size = size;
        timestamp = now;
        access_time = now;
      } in
      if is_too_big c.max_bytes size
      then (false, record c { entries = others })
      else (true, record c { entries = insert key entry room })

  -- `invalidate`
  unfoldable pub invalidate : Option Text → LruTtlCache A → LruTtlCache A
  invalidate none c = record c { entries = [] }
  invalidate (some key) c = record c { entries = erase key c.entries }
