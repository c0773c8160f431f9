-- ===== src/AuthLimiter/Schedule.antt =====
-- The schedule of the address key of auth_limiter.py: what an attempt that `begin` allowed means
-- for the attempts after it.
use pdc_client.Base.{
  ℕ, zero, suc, ◌+◌, ◌-◌, ◌*◌, ◌≤◌, ◌<◌, max, ◌≡◌, refl, ap, ◌∙◌, inl, inr, Bool, true, false, not,
  Option, none, some, List, [], ◌∷◌, ◌++◌, arith, ltb, if◌then◌else◌, ltb→lt, Bool-cases, Text,
  str_eq_iff, nat_Eq, text_Eq, pair_Eq, str_eq,
}
use pdc_client.Base.Lists.{length, elem}
use pdc_client.AuthLimiter.Runs.{kind-ne-ip}
use pdc_client.AuthLimiter.View.{entry_at}
use pdc_client.AuthLimiter.Trace.{
  pruned, wait_at, or_fresh, check_both-le, entry_at-check_both, entry_at-record_both,
}
use pdc_client.AuthLimiter.{
  Config, Entry, Limiter, Reply, kinds, ip_space, addr_limit, addr_key, addr_step, prune, wait,
  check_both, record_both, begin,
}

-- The documented schedule, in seconds: after `n` failures the next attempt waits for 1, 2, 4 and
-- 8 s past the threshold, and then for the lockout, or for 8 s where there is none.
abbrev pub spacing : Config → Bool → ℕ → ℕ
spacing cfg lockout zero = 1
spacing cfg lockout (suc zero) = 2
spacing cfg lockout (suc (suc zero)) = 4
spacing cfg lockout (suc (suc (suc zero))) = 8
spacing cfg lockout _ = if lockout then max 1 cfg.lockout_s else 8

abbrev pub delay_s : Config → Bool → ℕ → ℕ
delay_s cfg lockout n =
    if ltb n (addr_limit cfg) then 0 else spacing cfg lockout (n - addr_limit cfg)

module _ (cfg : Config) (lockout : Bool) (now t : ℕ) (entry : Entry) (w : wait now entry ≡ 0)
    (h : now ≤ t) where
  -- The five stages past the threshold.
  delay_past :
      (k : ℕ)
      → length (entry.failures ++ now ∷ []) ≡ addr_limit cfg + k
      → wait t (addr_step cfg lockout now entry) ≡ now + spacing cfg lockout k * cfg.ticks - t
  unfolding addr_step
  delay_past zero e =
      let z : length (entry.failures ++ now ∷ []) - addr_limit cfg ≡ 0 = omega arith in
      rw z (ground arith)
  delay_past (suc zero) e =
      let z : length (entry.failures ++ now ∷ []) - addr_limit cfg ≡ 1 = omega arith in
      rw z (ground arith)
  delay_past (suc (suc zero)) e =
      let z : length (entry.failures ++ now ∷ []) - addr_limit cfg ≡ 2 = omega arith in
      rw z (ground arith)
  delay_past (suc (suc (suc zero))) e =
      let z : length (entry.failures ++ now ∷ []) - addr_limit cfg ≡ 3 = omega arith in
      rw z (ground arith)
  delay_past (suc (suc (suc (suc k)))) e = ground arith

  delay_before :
      length (entry.failures ++ now ∷ []) < addr_limit cfg
      → wait t (addr_step cfg lockout now entry) ≡ 0
  unfolding addr_step
  delay_before e = ground arith

  -- The wait that an allowed attempt leaves, at every later moment.
  wait-addr_step :
      wait t (addr_step cfg lockout now entry)
      ≡ now + delay_s cfg lockout (length (entry.failures ++ now ∷ [])) * cfg.ticks - t
  wait-addr_step = elim (Bool-cases (ltb (length (entry.failures ++ now ∷ [])) (addr_limit cfg))) [
    | inl below ↦ rw below (omega (arith, delay_before (ltb→lt _ _ below)))
    | inr past ↦ rw past (delay_past _ (ground arith))
  ]

-- Each stamp is left as it was.
wait-prune :
    (cfg : Config) (now t : ℕ) (entry : Entry) → wait t (prune cfg now entry) ≡ wait t entry
unfolding prune
wait-prune cfg now t entry = refl

abbrev pub live_failures : Config → ℕ → Option Entry → List ℕ
live_failures cfg now found = (or_fresh (pruned cfg now found)).failures

module _ (cfg : Config) (now : ℕ) (kind : Text) (email ip : Option Text) (lockout : Bool)
    (st : Limiter) (r : Reply) (begun : begin cfg now kind email ip lockout st ≡ some r) where
  pub begun-kind : elem kind kinds ≡ true
  unfolding begin
  begun-kind = ground arith

  pub begun-verdict : r.verdict.allowed ≡ not (ltb 0 (check_both cfg now kind email ip st).0)
  unfolding begin
  begun-verdict = ground arith

  pub begun-allowed :
      r.verdict.allowed ≡ true
      → r.state
        ≡ (record_both cfg now kind email ip lockout (check_both cfg now kind email ip st).1).1
  unfolding begin
  begun-allowed h = ground arith

  pub begun-refused : r.verdict.allowed ≡ false → r.state ≡ (check_both cfg now kind email ip st).1
  unfolding begin
  begun-refused h = ground arith

  module _ (addr : Text) (key : addr_key kind email ≡ some (kind, addr)) where
    pub apart : str_eq ip_space kind ≡ false
    apart =
        ground
          (arith, kind-ne-ip kind begun-kind, str_eq_iff ip_space kind, str_eq_iff kind ip_space)

    -- What an allowed attempt writes at its address.
    pub recorded :
        r.verdict.allowed ≡ true
        → entry_at kind addr r.state
          ≡ some (addr_step cfg lockout now (or_fresh (pruned cfg now (entry_at kind addr st))))
    recorded h = rw (begun-allowed h) (
        entry_at-record_both cfg kind addr email ip key apart _ now lockout
        ∙ ap (λ o. some (addr_step cfg lockout now (or_fresh o)))
            (entry_at-check_both cfg kind addr email ip key apart st now))

    unhindered : r.verdict.allowed ≡ true → wait_at now (entry_at kind addr st) ≡ 0
    unhindered h =
        ground (arith, begun-verdict, check_both-le cfg kind addr email ip key apart st now)

    pub recorded_wait :
        (t : ℕ)
        → r.verdict.allowed ≡ true
        → now ≤ t
        → wait_at t (entry_at kind addr r.state)
          ≡ now
            + delay_s cfg lockout
                (length (live_failures cfg now (entry_at kind addr st) ++ now ∷ []))
              * cfg.ticks
            - t
    recorded_wait t h p = rw (recorded h) (
        wait-addr_step cfg lockout now t (or_fresh (pruned cfg now (entry_at kind addr st)))
          (still_free (entry_at kind addr st) (unhindered h)) p)
      where
        still_free :
            (o : Option Entry) → wait_at now o ≡ 0 → wait now (or_fresh (pruned cfg now o)) ≡ 0
        still_free none q = omega arith
        still_free (some entry) q = wait-prune cfg now now entry ∙ q
