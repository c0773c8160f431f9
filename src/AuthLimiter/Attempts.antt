-- ===== src/AuthLimiter/Attempts.antt =====
-- Pairs of calls to the limiter of auth_limiter.py: what one call means for the next.
use pdc_client.Base.{
  ℕ, ◌+◌, ◌-◌, ◌*◌, ◌≤◌, ◌<◌, ◌≡◌, ap, ◌∙◌, inl, inr, Bool, true, false, Option, none, some, [],
  ◌∷◌, ◌++◌, arith, leb, Bool-cases, Option-cases, Text, str_eq_iff, nat_Eq, text_Eq, pair_Eq,
  str_eq,
}
use pdc_client.Base.Lists.{length, length-append, elem, is_nil}
use pdc_client.Base.Strings.{strip}
use pdc_client.AuthLimiter.Runs.{kind-ne-ip}
use pdc_client.Base.Dict.{lookup, lookup-erase}
use pdc_client.AuthLimiter.View.{entry_at, space_of-put_space_self, space_of-put_space_ne}
use pdc_client.AuthLimiter.Trace.{
  pruned, wait_at, check_both-le, entry_at-check_both, check_both-no_peer,
}
use pdc_client.AuthLimiter.Schedule.{
  delay_s, live_failures, begun-verdict, begun-refused, apart, recorded_wait,
}
use pdc_client.AuthLimiter.{
  Config, Limiter, Reply, ip_space, addr_key, begin, space_of, kinds, success, clear_addr,
  retract_ip, ip_key, find, text_or_empty,
}

-- The failures of the address inside the window, and the attempt at `now`.
abbrev pub counted : Config → ℕ → Text → Text → Limiter → ℕ
counted cfg now kind addr st = length (live_failures cfg now (entry_at kind addr st)) + 1

module _ (cfg : Config) (now : ℕ) (kind addr : Text) (email ip : Option Text) (lockout : Bool)
    (st : Limiter) (r : Reply) (begun : begin cfg now kind email ip lockout st ≡ some r)
    (allowed : r.verdict.allowed ≡ true) (key : addr_key kind email ≡ some (kind, addr)) where
  counted_lem :
      length (live_failures cfg now (entry_at kind addr st) ++ now ∷ [])
      ≡ counted cfg now kind addr st
  counted_lem = length-append (live_failures cfg now (entry_at kind addr st)) (now ∷ [])

  wait_later :
      (t : ℕ)
      → now ≤ t
      → wait_at t (entry_at kind addr r.state)
        ≡ now + delay_s cfg lockout (counted cfg now kind addr st) * cfg.ticks - t
  wait_later t p =
      rw (← counted_lem)
        (recorded_wait cfg now kind email ip lockout st r begun addr key t allowed p)

  -- After an allowed attempt that leaves n live failures, the next attempt on the address is
  -- refused before the scheduled delay for n is over, from any peer and with or without `lockout`.
  pub early_attempt_refused :
      (t : ℕ) (ip' : Option Text) (lockout' : Bool) (r' : Reply)
      → now ≤ t
      → t < now + delay_s cfg lockout (counted cfg now kind addr st) * cfg.ticks
      → begin cfg t kind email ip' lockout' r.state ≡ some r'
      → r'.verdict.allowed ≡ false
  early_attempt_refused t ip' lockout' r' p early again =
      let near = apart cfg now kind email ip lockout st r begun addr key in
      ground (
        arith,
        begun-verdict cfg t kind email ip' lockout' r.state r' again,
        check_both-le cfg kind addr email ip' key near r.state t,
        wait_later t p,
      )

  -- An attempt with no peer is allowed exactly when the scheduled delay is over.
  pub next_attempt_exact :
      (t : ℕ) (lockout' : Bool) (r' : Reply)
      → now ≤ t
      → begin cfg t kind email none lockout' r.state ≡ some r'
      → r'.verdict.allowed
        ≡ leb (now + delay_s cfg lockout (counted cfg now kind addr st) * cfg.ticks) t
  next_attempt_exact t lockout' r' p again = ground (
    arith,
    begun-verdict cfg t kind email none lockout' r.state r' again,
    check_both-no_peer cfg t kind addr email r.state key,
    wait_later t p,
  )

-- A refused attempt is not recorded: the address keeps its stamps, and its failures are those that
-- are still inside the window.
pub refused_not_recorded :
    (cfg : Config) (now : ℕ) (kind addr : Text) (email ip : Option Text) (lockout : Bool)
    (st : Limiter) (r : Reply)
    → begin cfg now kind email ip lockout st ≡ some r
    → r.verdict.allowed ≡ false
    → addr_key kind email ≡ some (kind, addr)
    → entry_at kind addr r.state ≡ pruned cfg now (entry_at kind addr st)
refused_not_recorded cfg now kind addr email ip lockout st r begun refused key =
    rw (begun-refused cfg now kind email ip lockout st r begun refused) (
      entry_at-check_both cfg kind addr email ip key
        (apart cfg now kind email ip lockout st r begun addr key) st now)

space_of-retract_ip_ne :
    (cfg : Config) (ip : Option Text) (other : Text) (st : Limiter)
    → str_eq ip_space other ≡ false
    → space_of other (retract_ip cfg (ip_key ip) st) ≡ space_of other st
unfolding retract_ip ip_key find
space_of-retract_ip_ne cfg ip other st h = elim (Bool-cases (is_nil (strip (text_or_empty ip)))) [
  | inl missing ↦ rw missing
  | inr given ↦ rw given (elim (Option-cases (entry_at ip_space (strip (text_or_empty ip)) st)) [
    | inl absent ↦ rw (absent, retract_ip) (space_of-put_space_ne ip_space other _ st h)
    | inr (entry, found) ↦
        rw (found, retract_ip)
          (space_of-put_space_ne ip_space other _ _ h ∙ space_of-put_space_ne ip_space other _ st h)
  ])
]

-- A success clears the address: nothing is counted against it any more, whatever was.
pub success_clears_address :
    (cfg : Config) (kind addr : Text) (email ip : Option Text) (st : Limiter)
    → elem kind kinds ≡ true
    → addr_key kind email ≡ some (kind, addr)
    → entry_at kind addr (success cfg kind email ip st) ≡ none
unfolding success clear_addr
success_clears_address cfg kind addr email ip st valid key = rw key (
    ap (lookup addr) (
      space_of-retract_ip_ne cfg ip kind _
        (ground (arith, kind-ne-ip kind valid, str_eq_iff ip_space kind, str_eq_iff kind ip_space)))
    ∙ rw (space_of-put_space_self kind _ st)
        (ground (arith, lookup-erase addr addr (space_of kind st), str_eq_iff addr addr)))
