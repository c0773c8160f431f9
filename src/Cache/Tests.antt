-- ===== src/Cache/Tests.antt =====
-- local_store.py, class LRUTTLCache, on concrete caches.
use pdc_client.Base.{
  ℕ, ◌≡◌, refl, true, false, some, List, [], ◌∷◌, Text, nat_Eq, text_Eq, pair_Eq, str_eq,
}
use pdc_client.Base.Lists.{all}
use pdc_client.Base.Strings.{codes}
use pdc_client.Base.Dict.{Dict, lookup, insert, erase, contains, distinct_keys}
use pdc_client.Cache.{
  Cached, LruTtlCache, new_cache, get, make_room, evict_lru, lru_key, is_full, total_bytes,
}
use pdc_client.Cache.Bounds.{
  IsWithin, Call, get_call, set_call, sweep_call, invalidate_call, run, cache_stays_bounded,
}
use pdc_client.Cache.Reads.{fresh_value}
use pdc_client.Cache.Distinct.{reads_after_calls}
use pdc_client.Cache.Recency.{used_since, evicted_used_first}

-- Opens the code for the runs below.
runs_open : Unit {0}
unfolding lookup insert erase str_eq distinct_keys make_room evict_lru lru_key is_full total_bytes
runs_open = tt

abbrev a : Text
a = codes "a"

abbrev b : Text
b = codes "b"

abbrev c : Text
c = codes "c"

abbrev old : Cached ℕ
old = record { value = 1; size = 10; timestamp = 5; access_time = 5 }

abbrev recent : Cached ℕ
recent = record { value = 2; size = 10; timestamp = 6; access_time = 9 }

abbrev two : Dict Text (Cached ℕ)
two = (a, recent) ∷ (b, old) ∷ []

abbrev small : LruTtlCache ℕ
small = record { max_size = 2; ttl_seconds = 300; max_bytes = some 100; entries = two }

abbrev calls : List (Call ℕ)
calls =
    set_call a 1 10 0
    ∷ set_call b 2 60 1
    ∷ get_call a 2
    ∷ set_call c 3 40 3
    ∷ sweep_call 4
    ∷ invalidate_call (some a)
    ∷ []

cache_stays_bounded_example : IsWithin (run calls (new_cache 2 300 (some 100)))
cache_stays_bounded_example = cache_stays_bounded 2 300 (some 100) calls

two_distinct : distinct_keys two ≡ true
unfolding runs_open
two_distinct = refl

b_found : lookup b two ≡ some old
unfolding runs_open
b_found = refl

b_evicted : contains b (make_room 2 2 (some 100) 30 two) ≡ false
unfolding runs_open
b_evicted = refl

evicted_used_first_example : all (used_since 5) (make_room 2 2 (some 100) 30 two) ≡ true
evicted_used_first_example =
    evicted_used_first b old 2 2 (some 100) 30 two two_distinct b_found b_evicted

reads_after_calls_example :
    (distinct_keys (run calls (new_cache 2 300 (some 100))).entries ≡ true)
    × ((get c 9 (run calls (new_cache 2 300 (some 100)))).0
        ≡ fresh_value 9
            (run calls (new_cache 2 300 (some 100))).ttl_seconds
            (lookup c (run calls (new_cache 2 300 (some 100))).entries))
reads_after_calls_example = reads_after_calls 2 300 (some 100) calls c 9
