-- ===== src/AuthLimiter/Runs.antt =====
-- The limiter of auth_limiter.py after any sequence of `begin` and `success` calls.
use pdc_client.Base.{
  ℕ, ◌≤◌, ◌≡◌, refl, Bool, true, false, Option, none, some, List, [], ◌∷◌, inl, inr, Text, str_eq,
  str_eq_iff, text_Eq, arith, Bool-cases, ltb, if_both, str_eq_refl,
}
use pdc_client.Base.Lists.{length, elem, is_nil}
use pdc_client.Base.Strings.{codes, fold_case}
use pdc_client.Base.Dict.{lookup, distinct_keys}
use pdc_client.AuthLimiter.View.{entry_at}
use pdc_client.AuthLimiter.Reachable.{
  IsSound, check_key-IsSound, record_addr-IsSound, record_ip-IsSound, retract_ip-IsSound,
  clear_addr-IsSound,
}
use pdc_client.AuthLimiter.{
  Config, Entry, Limiter, Event, attempt, succeeded, kinds, ip_space, space_of, limit_of,
  record_addr, check_both, record_both, begin, success, state_after, step, run, empty, addr_key,
  ip_key, text_or_empty,
}

-- No kind is spelled like the peers' space.
pub kind-ne-ip : (kind : Text) → elem kind kinds ≡ true → str_eq kind ip_space ≡ false
unfolding elem str_eq
kind-ne-ip kind h = ground (
  arith,
  str_eq_iff kind ip_space,
  str_eq_iff (codes "login") kind,
  str_eq_iff (codes "reset") kind,
  str_eq_iff (codes "token") kind,
)

module _ (cfg : Config) where
  record_addr_key-IsSound :
      (lockout : Bool) (now : ℕ) (kind : Text) (email : Option Text) {st : Limiter}
      → str_eq kind ip_space ≡ false
      → IsSound cfg st
      → IsSound cfg (record_addr cfg lockout now (addr_key kind email) st).1
  unfolding addr_key
  record_addr_key-IsSound lockout now kind email {st} k s =
      if_both (λ key. IsSound cfg (record_addr cfg lockout now key st).1)
        (is_nil (fold_case (text_or_empty email))) none (some (kind, _)) (unfold record_addr in s)
        (record_addr-IsSound cfg lockout now kind _ k s)

  check_both-IsSound :
      (now : ℕ) (kind : Text) (email ip : Option Text) {st : Limiter}
      → IsSound cfg st
      → IsSound cfg (check_both cfg now kind email ip st).1
  unfolding check_both
  check_both-IsSound now kind email ip s =
      check_key-IsSound cfg now (ip_key ip) (check_key-IsSound cfg now (addr_key kind email) s)

  begin-IsSound :
      (now : ℕ) (kind : Text) (email ip : Option Text) (lockout : Bool) {st : Limiter}
      → IsSound cfg st
      → IsSound cfg (state_after st (begin cfg now kind email ip lockout st))
  unfolding begin record_both
  begin-IsSound now kind email ip lockout {st} s = elim (Bool-cases (elem kind kinds)) [
    | inr unknown ↦ rw unknown s
    | inl valid ↦ rw valid (
        let both = check_both-IsSound now kind email ip s in
        elim (Bool-cases (ltb 0 (check_both cfg now kind email ip st).0)) [
          | inl early ↦ rw early both
          | inr free ↦ rw free (
              record_ip-IsSound cfg now ip
                (record_addr_key-IsSound lockout now kind email (kind-ne-ip kind valid) both))
        ])
  ]

  step-IsSound : (event : Event) {st : Limiter} → IsSound cfg st → IsSound cfg (step cfg st event)
  unfolding step success
  step-IsSound (attempt now kind email ip lockout) s = begin-IsSound now kind email ip lockout s
  step-IsSound (succeeded kind email ip) s =
      retract_ip-IsSound cfg ip (clear_addr-IsSound cfg (addr_key kind email) s)

  run-IsSound :
      (events : List Event) {st : Limiter} → IsSound cfg st → IsSound cfg (run cfg st events)
  unfolding run
  run-IsSound [] s = s
  run-IsSound (event ∷ events) s = run-IsSound events (step-IsSound event s)

  empty-IsSound : IsSound cfg empty
  unfolding space_of lookup distinct_keys
  empty-IsSound = record {
    at = λ name. record {
      keyed = record { unique = refl; unlocked = λ k entry ip found. cc };
      fits = omega arith;
    };
  }

-- The number of keys in a space never passes MAX_KEYS (or 1, if MAX_KEYS is less), whatever calls
-- are made from the empty limiter.
pub spaces_stay_bounded :
    (cfg : Config) (events : List Event) (name : Text)
    → length (space_of name (run cfg empty events)) ≤ limit_of cfg
spaces_stay_bounded cfg events name = ((run-IsSound cfg events (empty-IsSound cfg)).at name).fits

-- No entry of the peers' space ever carries a lockout, whatever calls are made from the empty
-- limiter.
pub peers_never_locked :
    (cfg : Config) (events : List Event) (peer : Text) (entry : Entry)
    → entry_at ip_space peer (run cfg empty events) ≡ some entry
    → entry.locked_until ≡ 0
peers_never_locked cfg events peer entry =
    ((run-IsSound cfg events (empty-IsSound cfg)).at ip_space).keyed.unlocked peer entry
      (str_eq_refl ip_space)
