-- ===== src/AuthLimiter.antt =====
-- auth_limiter.py: the in-memory limiter of sign-in and reset attempts.
-- Times are natural numbers of clock ticks, `ticks` of them to a second, so that `float` seconds are
-- exact. `settings` and MAX_KEYS, read at call time, are the record `Config`; the reading of the
-- clock is the argument `now`. An entry that Python mutates in place is written back to its space.
mod View
pub mod Eviction
pub mod Sound
mod Trace
mod Schedule
pub mod Attempts
mod Reachable
pub mod Runs
mod Tests
use pdc_client.Base.{
  ℕ, zero, suc, ◌+◌, ◌-◌, ◌*◌, ◌/◌, ◌^◌, max, min, Bool, true, false, not, ◌&&◌, Option, none, some,
  List, [], ◌∷◌, ◌++◌, Text, str_eq, text_Eq, pair_Eq, leb, ltb, ◌==◌, if◌then◌else◌,
}
use pdc_client.Base.Lists.{length, take, is_nil, elem, filter}
use pdc_client.Base.Strings.{codes, fold_case, strip}
use pdc_client.Base.Dict.{Dict, lookup, insert, erase, contains, move_to_end}

pub record Config : Type 0 where
  pub ticks : ℕ
  pub window_s : ℕ
  pub threshold : ℕ
  pub threshold_ip : ℕ
  pub lockout_s : ℕ
  pub max_keys : ℕ
  -- hashlib's SHA-256, as a hexadecimal text
  pub sha256_hex : Text → Text

pub record Verdict : Type 0 where
  pub allowed : Bool
  pub retry_after_s : ℕ

-- `class _Key`; the oldest failure first.
pub record Entry : Type 0 where
  pub failures : List ℕ
  pub not_before : ℕ
  pub locked_until : ℕ

abbrev pub fresh : Entry
fresh = record { failures = []; not_before = 0; locked_until = 0 }

abbrev pub Space : Type 0
Space = Dict Text Entry

-- The two module dictionaries, `_SPACES` and `_SPACED_LOGGED`.
pub record Limiter : Type 0 where
  pub spaces : Dict Text Space
  pub spaced_logged : Dict (Text × Text) ℕ

-- The warnings that `begin` writes.
pub data Report : Type 0 where
  auth_lockout auth_admin_spaced : Text → Text → Report

abbrev pub kinds : List Text
kinds = codes "login" ∷ codes "reset" ∷ codes "token" ∷ []

abbrev pub ip_space : Text
ip_space = codes "ip"

abbrev pub schedule_steps : ℕ
schedule_steps = 4

-- `_space(name)`; the write creates the space that was missing.
pub space_of : Text → Limiter → Space
space_of name st = elim (lookup name st.spaces) [ none ↦ [] | some space ↦ space ]

pub put_space : Text → Space → Limiter → Limiter
put_space name space st = record st { spaces = insert name space st.spaces }

abbrev pub put_entry : Text → Text → Entry → Limiter → Limiter
put_entry name key entry st = put_space name (insert key entry (space_of name st)) st

-- `_lookup`: the entry, touched.
pub find : Text → Text → Limiter → Option Entry × Limiter
find name key st =
    (lookup key (space_of name st), put_space name (move_to_end key (space_of name st)) st)

-- No lockout and no not-before stamp in the future.
abbrev pub is_idle : ℕ → Entry → Bool
is_idle now entry = leb entry.locked_until now && leb entry.not_before now

abbrev pub or_else : Option Text → Text → Option Text
or_else none name = some name
or_else (some found) name = some found

-- The key that `_evict_one` deletes: the first idle one, else the first one (the fallback).
pub evicted : Text → ℕ → Option Text → Space → Option Text
evicted keep now fallback [] = fallback
evicted keep now fallback ((name, entry) ∷ space) =
    let kept = str_eq name keep in
    let rest = evicted keep now (if kept then fallback else or_else fallback name) space in
    if not kept && is_idle now entry then some name else rest

pub evict_one : Space → Text → ℕ → Space
unfolding evicted
evict_one space keep now = elim (evicted keep now none space) [
  | none ↦ space
  | some name ↦ erase name space
]

-- The `while len(space) > limit` loop of `_create`; each round but the last deletes a key, so the
-- length is fuel enough.
pub shrink : ℕ → ℕ → Text → ℕ → Space → Space
shrink zero limit keep now space = space
shrink (suc fuel) limit keep now space =
    let next = evict_one space keep now in
    let rest = shrink fuel limit keep now next in
    if ltb limit (length space) then if length next == length space then next else rest else space

abbrev pub limit_of : Config → ℕ
limit_of cfg = max 1 cfg.max_keys

-- `_create`: the entry, made and touched, and the space cut back to the limit.
pub create : Config → Text → Text → ℕ → Limiter → Entry × Limiter
unfolding shrink
create cfg name key now st =
    let space = space_of name st in
    elim (lookup key space) [
      | none ↦ (
        fresh,
        let grown = insert key fresh space in
            put_space name (shrink (length grown) (limit_of cfg) key now grown) st,
      )
      | some entry ↦ (entry, put_space name (move_to_end key space) st)
    ]

drop_old : ℕ → ℕ → List ℕ → List ℕ
drop_old now window [] = []
drop_old now window (t ∷ ts) = if leb (t + window) now then drop_old now window ts else t ∷ ts

abbrev pub window_of : Config → ℕ
window_of cfg = cfg.window_s * cfg.ticks

-- `_prune`
pub prune : Config → ℕ → Entry → Entry
unfolding drop_old
prune cfg now entry = record entry { failures = drop_old now (window_of cfg) entry.failures }

-- What `_wait` returns for an entry.
abbrev pub wait : ℕ → Entry → ℕ
wait now entry = max (entry.locked_until - now) (entry.not_before - now)

abbrev pub text_or_empty : Option Text → Text
text_or_empty none = []
text_or_empty (some s) = s

-- `_keys`: the address key and the peer key, each a space's name and a key in it.
pub addr_key : Text → Option Text → Option (Text × Text)
addr_key kind email =
    let addr = fold_case (text_or_empty email) in if is_nil addr then none else some (kind, addr)

pub ip_key : Option Text → Option (Text × Text)
ip_key ip =
    let peer = strip (text_or_empty ip) in if is_nil peer then none else some (ip_space, peer)

-- `_hash_prefix`
pub hash_prefix : Config → Text → Text → Text
hash_prefix cfg name key = take 12 (cfg.sha256_hex (name ++ b':' ∷ key))

-- `_wait(_lookup(*k))`, which touches and prunes the entry.
pub check_key : Config → ℕ → Option (Text × Text) → Limiter → ℕ × Limiter
unfolding find prune
check_key cfg now none st = (0, st)
check_key cfg now (some (name, key)) st =
    let (found, st') = find name key st in
    elim found [
      | none ↦ (0, st')
      | some entry ↦ (wait now (prune cfg now entry), put_entry name key (prune cfg now entry) st')
    ]

-- `next(k for k in _SPACED_LOGGED if k != key)`, deleted.
drop_oldest : Text × Text → Dict (Text × Text) ℕ → Dict (Text × Text) ℕ
drop_oldest key [] = []
drop_oldest key ((k, until) ∷ logged) =
    if pair_Eq.beq k key then (k, until) ∷ drop_oldest key logged else logged

cap_logged : ℕ → ℕ → Text × Text → Dict (Text × Text) ℕ → Dict (Text × Text) ℕ
unfolding drop_oldest
cap_logged zero limit key logged = logged
cap_logged (suc fuel) limit key logged =
    let rest = cap_logged fuel limit key (drop_oldest key logged) in
    if ltb limit (length logged) then rest else logged

-- `_spaced_first`
pub spaced_first : Config → Text × Text → ℕ → Limiter → Bool × Limiter
unfolding cap_logged
spaced_first cfg key now st =
    let live = filter (λ (p : (Text × Text) × ℕ). ltb now p.1) st.spaced_logged in
    let latched = insert key (now + window_of cfg) live in
    if contains key live then (false, record st { spaced_logged = live }) else (
      true,
      record st { spaced_logged = cap_logged (length latched) (limit_of cfg) key latched },
    )

abbrev pub addr_limit : Config → ℕ
addr_limit cfg = max 1 cfg.threshold

abbrev pub ip_limit : Config → ℕ
ip_limit cfg = max 1 cfg.threshold_ip

-- What an allowed attempt does to the address entry. `extra >= k` is `addr_limit cfg + k <= n`.
pub addr_step : Config → Bool → ℕ → Entry → Entry
addr_step cfg lockout now entry =
    let marked = record entry { failures = entry.failures ++ now ∷ [] } in
    let n = length marked.failures in
    if leb (addr_limit cfg + schedule_steps) n && not lockout
    then record marked { not_before = now + 2 ^ (schedule_steps - 1) * cfg.ticks }
    else if leb (addr_limit cfg + schedule_steps) n
    then record marked { locked_until = now + max 1 cfg.lockout_s * cfg.ticks }
    else if leb (addr_limit cfg) n
    then record marked { not_before = now + 2 ^ (n - addr_limit cfg) * cfg.ticks }
    else marked

pub ip_step : Config → ℕ → Entry → Entry
ip_step cfg now entry =
    let marked = record entry { failures = entry.failures ++ now ∷ [] } in
    let n = length marked.failures in
    if leb (ip_limit cfg) n
    then record marked {
      not_before = now + 2 ^ min (n - ip_limit cfg) (schedule_steps - 1) * cfg.ticks;
    }
    else marked

-- The line to log about the address key, with the latch of AUTH_ADMIN_SPACED.
pub addr_report : Config → Bool → ℕ → Text × Text → ℕ → Limiter → List Report × Limiter
unfolding spaced_first hash_prefix
addr_report cfg lockout now (kind, addr) n st =
    if leb (addr_limit cfg + schedule_steps) n && not lockout
    then if ltb (addr_limit cfg + schedule_steps) n
      then (let (first, st') = spaced_first cfg (kind, addr) now st in
          (if first then auth_admin_spaced kind (hash_prefix cfg kind addr) ∷ [] else [], st'))
      else ([], st)
    else if leb (addr_limit cfg + schedule_steps) n
    then (auth_lockout kind (hash_prefix cfg kind addr) ∷ [], st)
    else ([], st)

-- The `if addr_key:` block of `begin`.
pub record_addr : Config → Bool → ℕ → Option (Text × Text) → Limiter → List Report × Limiter
unfolding create addr_step addr_report
record_addr cfg lockout now none st = ([], st)
record_addr cfg lockout now (some (kind, addr)) st =
    let (entry, created) = create cfg kind addr now st in
    let stepped = addr_step cfg lockout now entry in
    addr_report cfg lockout now (kind, addr) (length stepped.failures)
      (put_entry kind addr stepped created)

-- The `if ip_key:` block.
pub record_ip : Config → ℕ → Option (Text × Text) → Limiter → Limiter
unfolding create ip_step
record_ip cfg now none st = st
record_ip cfg now (some (name, peer)) st =
    let (entry, created) = create cfg name peer now st in
    put_entry name peer (ip_step cfg now entry) created

abbrev pub ceil_s : Config → ℕ → ℕ
ceil_s cfg w = (w + cfg.ticks - 1) / cfg.ticks

pub record Reply : Type 0 where
  pub verdict : Verdict
  pub state : Limiter
  pub reports : List Report

-- The longer of the waits of the two keys, which are touched in turn.
pub check_both : Config → ℕ → Text → Option Text → Option Text → Limiter → ℕ × Limiter
check_both cfg now kind email ip st =
    let (w, st1) = check_key cfg now (addr_key kind email) st in
    let (w', st2) = check_key cfg now (ip_key ip) st1 in (max w w', st2)

-- An allowed attempt is recorded as a failure up front.
pub record_both :
    Config → ℕ → Text → Option Text → Option Text → Bool → Limiter → List Report × Limiter
record_both cfg now kind email ip lockout st =
    let (reports, st3) = record_addr cfg lockout now (addr_key kind email) st in
    (reports, record_ip cfg now (ip_key ip) st3)

-- `begin`; `none` is the ValueError on an unknown kind.
pub begin : Config → ℕ → Text → Option Text → Option Text → Bool → Limiter → Option Reply
begin cfg now kind email ip lockout st =
    let (w, checked) = check_both cfg now kind email ip st in
    let (reports, recorded) = record_both cfg now kind email ip lockout checked in
    if not (elem kind kinds)
    then none
    else if ltb 0 w
    then some (record {
      verdict = record { allowed = false; retry_after_s = max 1 (ceil_s cfg w) };
      state = checked;
      reports = [];
    })
    else some (record {
      verdict = record { allowed = true; retry_after_s = 0 };
      state = recorded;
      reports = reports;
    })

abbrev pop_last : List ℕ → List ℕ
pop_last [] = []
pop_last (t ∷ []) = []
pop_last (t ∷ u ∷ ts) = t ∷ pop_last (u ∷ ts)

-- One failure comes off the peer's entry.
pub retract : Config → Entry → Entry
retract cfg entry =
    let rest = pop_last entry.failures in
    if is_nil entry.failures
    then entry
    else if ltb (length rest) (ip_limit cfg)
    then record entry { failures = rest; not_before = 0 }
    else record entry { failures = rest }

pub retract_ip : Config → Option (Text × Text) → Limiter → Limiter
unfolding find retract
retract_ip cfg none st = st
retract_ip cfg (some (name, peer)) st =
    let (found, st') = find name peer st in
    elim found [ none ↦ st' | some entry ↦ put_entry name peer (retract cfg entry) st' ]

pub clear_addr : Option (Text × Text) → Limiter → Limiter
clear_addr none st = st
clear_addr (some (kind, addr)) st = put_space kind (erase addr (space_of kind st)) st

-- `success`
pub success : Config → Text → Option Text → Option Text → Limiter → Limiter
success cfg kind email ip st = retract_ip cfg (ip_key ip) (clear_addr (addr_key kind email) st)

-- `reset`, and the state at import.
abbrev pub empty : Limiter
empty = record { spaces = []; spaced_logged = [] }

-- What the four call sites send to the limiter, one after the other under its lock.
pub data Event : Type 0 where
  attempt : ℕ → Text → Option Text → Option Text → Bool → Event
  succeeded : Text → Option Text → Option Text → Event

abbrev pub state_after : Limiter → Option Reply → Limiter
state_after st none = st
state_after st (some reply) = reply.state

pub step : Config → Limiter → Event → Limiter
step cfg st (attempt now kind email ip lockout) =
    state_after st (begin cfg now kind email ip lockout st)
step cfg st (succeeded kind email ip) = success cfg kind email ip st

pub run : Config → Limiter → List Event → Limiter
run cfg st [] = st
run cfg st (event ∷ events) = run cfg (step cfg st event) events
