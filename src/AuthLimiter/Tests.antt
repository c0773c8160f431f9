-- ===== src/AuthLimiter/Tests.antt =====
-- The limiter of auth_limiter.py on concrete calls, and the theorems about it at such calls.
use pdc_client.Base.{
  ℕ, ◌≤◌, ◌≡◌, refl, true, false, Option, none, some, List, [], ◌∷◌, arith, leb, Text, nat_Eq,
  text_Eq, pair_Eq, str_eq,
}
use pdc_client.Base.Lists.{elem, all, length}
use pdc_client.Base.Strings.{codes, strip, lower}
use pdc_client.Base.Dict.{lookup, insert, erase, move_to_end, distinct_keys}
use pdc_client.AuthLimiter.View.{entry_at}
use pdc_client.AuthLimiter.Eviction.{all_live, live_entry_survives}
use pdc_client.AuthLimiter.Runs.{spaces_stay_bounded, peers_never_locked}
use pdc_client.AuthLimiter.Attempts.{next_attempt_exact, refused_not_recorded}
use pdc_client.AuthLimiter.{
  Config, Entry, Space, Limiter, Reply, Event, attempt, succeeded, begin, check_both, record_both,
  check_key, record_addr, record_ip, addr_key, ip_key, step, run, empty, evict_one, success,
  clear_addr, retract_ip, space_of, put_space, limit_of,
}

abbrev cfg : Config
cfg = record {
  ticks = 1000;
  window_s = 900;
  threshold = 2;
  threshold_ip = 3;
  lockout_s = 600;
  max_keys = 2;
  sha256_hex = λ s. s;
}

abbrev no_reply : Reply
no_reply = record {
  verdict = record { allowed = false; retry_after_s = 0 };
  state = empty;
  reports = [];
}

abbrev reply_of : Option Reply → Reply
reply_of none = no_reply
reply_of (some r) = r

abbrev ann : Option Text
ann = some (codes " Ann@X.org ")

abbrev login : Text
login = codes "login"

abbrev try_at : ℕ → Limiter → Reply
try_at now st = reply_of (begin cfg now login ann none true st)

abbrev second : Reply
second = try_at 20 (try_at 10 empty).state

abbrev third : Reply
third = try_at 519 second.state

-- Opens the code for the runs below.
runs_open : Unit {0}
unfolding begin check_both record_both check_key record_addr record_ip addr_key ip_key strip lower
    elem str_eq lookup insert move_to_end space_of put_space erase success clear_addr retract_ip
runs_open = tt

key : addr_key login ann ≡ some (login, codes "ann@x.org")
unfolding runs_open
key = refl

second_begun : begin cfg 20 login ann none true (try_at 10 empty).state ≡ some second
unfolding runs_open
second_begun = refl

third_begun : begin cfg 519 login ann none true second.state ≡ some third
unfolding runs_open
third_begun = refl

-- The second failure reaches the threshold: one second.
verdicts :
    (second.verdict.allowed ≡ true)
    × (third.verdict ≡ record { allowed = false; retry_after_s = 1 })
    × ((try_at 1020 second.state).verdict.allowed ≡ true)
unfolding runs_open
verdicts = (refl, refl, refl)

next_attempt_exact_example : third.verdict.allowed ≡ leb 1020 519
unfolding runs_open
next_attempt_exact_example =
    next_attempt_exact cfg 20 login (codes "ann@x.org") ann none true (try_at 10 empty).state second
      second_begun verdicts.0 key 519 true third (omega arith) third_begun

refused_not_recorded_example :
    entry_at login (codes "ann@x.org") third.state
    ≡ some (record { failures = 10 ∷ 20 ∷ []; not_before = 1020; locked_until = 0 })
unfolding runs_open
refused_not_recorded_example =
    refused_not_recorded cfg 519 login (codes "ann@x.org") ann none true second.state third
      third_begun verdicts_refused key
  where
    verdicts_refused : third.verdict.allowed ≡ false
    verdicts_refused = refl

abbrev spray : List Event
spray =
    attempt 1 login (some (codes "a")) (some (codes "p")) true
    ∷ attempt 2 login (some (codes "b")) (some (codes "q")) true
    ∷ attempt 3 login (some (codes "c")) (some (codes "r")) true
    ∷ succeeded login (some (codes "c")) (some (codes "r"))
    ∷ []

spaces_stay_bounded_example : length (space_of login (run cfg empty spray)) ≤ limit_of cfg
spaces_stay_bounded_example = spaces_stay_bounded cfg spray login

abbrev r_entry : Entry
r_entry = record { failures = []; not_before = 0; locked_until = 0 }

peers_never_locked_example : r_entry.locked_until ≡ 0
unfolding runs_open run step evict_one
peers_never_locked_example = peers_never_locked cfg spray (codes "r") r_entry refl

abbrev locked : Entry
locked = record { failures = []; not_before = 0; locked_until = 9 }

abbrev full : Space
full = (codes "a", locked) ∷ (codes "b", r_entry) ∷ (codes "c", r_entry) ∷ []

live_entry_survives_example : lookup (codes "a") (evict_one full (codes "c") 5) ≡ some locked
unfolding runs_open distinct_keys all
live_entry_survives_example =
    live_entry_survives full (codes "c") (codes "a") 5 locked refl unfolded refl refl
  where
    unfolded : all_live (codes "c") 5 full ≡ false
    unfolded = refl
