-- ===== src/AuthLimiter/Eviction.antt =====
-- Which key `_evict_one` deletes.
use pdc_client.Base.{
  ℕ, ◌≡◌, ◌≢◌, Bool, true, false, not, ◌||◌, Option, none, some, [], ◌∷◌, Text, str_eq, str_eq_iff,
  text_Eq, arith, Option-cases, inl, inr,
}
use pdc_client.Base.Lists.{all}
use pdc_client.Base.Dict.{lookup, contains, distinct_keys, lookup-erase}
use pdc_client.AuthLimiter.{Entry, Space, is_idle, or_else, evicted, evict_one}

-- Every key but `keep` still has a lockout or a not-before stamp in the future.
abbrev pub all_live : Text → ℕ → Space → Bool
all_live keep now = all (λ (p : Text × Entry). str_eq p.0 keep || not (is_idle now p.1))

evicted-ne-keep :
    (keep : Text) (now : ℕ) (fallback : Option Text) (space : Space) (name : Text)
    → fallback ≢ some keep
    → evicted keep now fallback space ≡ some name
    → str_eq name keep ≡ false
unfolding evicted
evicted-ne-keep keep now fallback [] name f h = ground (arith, str_eq_iff name keep)
evicted-ne-keep keep now none ((n, e) ∷ space) name f h = ground (
  arith,
  evicted-ne-keep keep now none space name,
  evicted-ne-keep keep now (some n) space name,
  str_eq_iff n keep,
)
evicted-ne-keep keep now (some g) ((n, e) ∷ space) name f h =
    ground (arith, evicted-ne-keep keep now (some g) space name, str_eq_iff n keep)

-- The entry that was just made or touched is never the one that goes.
pub lookup-evict_one_keep :
    (space : Space) (keep : Text) (now : ℕ)
    → lookup keep (evict_one space keep now) ≡ lookup keep space
unfolding evict_one
lookup-evict_one_keep space keep now = elim (Option-cases (evicted keep now none space)) [
  | inl nothing ↦ rw (nothing, evict_one)
  | inr (name, found) ↦
      rw (found, evict_one)
        (ground (
          arith,
          lookup-erase name keep space,
          evicted-ne-keep keep now none space name (λ p. cc) found,
        ))
]

evicted-contains :
    (keep : Text) (now : ℕ) (fallback : Option Text) (space : Space) (name : Text)
    → all_live keep now space ≡ false
    → evicted keep now fallback space ≡ some name
    → contains name space ≡ true
unfolding evicted all lookup
evicted-contains keep now fallback [] name h p = cc
evicted-contains keep now fallback ((n, e) ∷ space) name h p = ground (
  arith,
  evicted-contains keep now fallback space name,
  evicted-contains keep now (or_else fallback n) space name,
  str_eq_iff n name,
)

evicted-ne-live :
    (keep : Text) (now : ℕ) (fallback : Option Text) (space : Space) (k : Text) (entry : Entry)
    → distinct_keys space ≡ true
    → all_live keep now space ≡ false
    → lookup k space ≡ some entry
    → is_idle now entry ≡ false
    → evicted keep now fallback space ≢ some k
unfolding evicted all lookup distinct_keys
evicted-ne-live keep now fallback [] k entry d h l i p = cc
evicted-ne-live keep now fallback ((n, e) ∷ space) k entry d h l i p = ground (
  arith,
  evicted-ne-live keep now fallback space k entry,
  evicted-ne-live keep now (or_else fallback n) space k entry,
  evicted-contains keep now fallback space k,
  evicted-contains keep now (or_else fallback n) space k,
  str_eq_iff n k,
)

-- While some key other than the one just made has neither a lockout nor a not-before stamp in the
-- future, making room deletes no entry that has one.
pub live_entry_survives :
    (space : Space) (keep k : Text) (now : ℕ) (entry : Entry)
    → distinct_keys space ≡ true
    → all_live keep now space ≡ false
    → lookup k space ≡ some entry
    → is_idle now entry ≡ false
    → lookup k (evict_one space keep now) ≡ some entry
unfolding evict_one
live_entry_survives space keep k now entry d h l i =
    elim (Option-cases (evicted keep now none space)) [
      | inl nothing ↦ rw (nothing, evict_one) l
      | inr (name, found) ↦
          rw (found, evict_one)
            (ground (
              arith,
              lookup-erase name k space,
              evicted-ne-live keep now none space k entry d h l i,
              str_eq_iff name k,
            ))
    ]
