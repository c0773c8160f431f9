-- ===== src/Schedules/Clock.antt =====
-- schedule_utils.py: the time of day of a schedule, read and written.
use pdc_client.Base.{
  ℕ, ◌<◌, ◌≡◌, refl, Option, none, some, [], ◌∷◌, arith, Text, nat_Eq, text_Eq, pair_Eq,
}
use pdc_client.Base.Ids.{chomp}
use pdc_client.Schedules.{Field, one, text, ok}
use pdc_client.Schedules.Values.{
  is_digit, parse_time, five_chars, time_digits, show_time, read_time, canonical, time_or_refused,
  time_text,
}

-- An hour and a minute of the day.
abbrev pub IsTime : ℕ × ℕ → Type 0
IsTime t = (t.0 < 24) × (t.1 < 60)

time_digits-IsTime : (a b k c d : ℕ) (t : ℕ × ℕ) → time_digits a b k c d ≡ some t → IsTime t
unfolding time_digits is_digit
time_digits-IsTime a b k c d t h = ground arith

five_chars-IsTime : (s : Text) (t : ℕ × ℕ) → five_chars s ≡ some t → IsTime t
unfolding five_chars
five_chars-IsTime (a ∷ b ∷ k ∷ c ∷ d ∷ []) t h = time_digits-IsTime a b k c d t h
five_chars-IsTime _ t h = cc

pub parse_time-IsTime : (s : Text) (t : ℕ × ℕ) → parse_time s ≡ some t → IsTime t
unfolding parse_time
parse_time-IsTime s t h = five_chars-IsTime (chomp s) t h

-- A time of the day that is written is read back.
pub parse_time-show_time : (t : ℕ × ℕ) → IsTime t → parse_time (show_time t) ≡ some t
unfolding parse_time show_time five_chars time_digits chomp is_digit
parse_time-show_time (h, m) b = ground arith

read_time_cases :
    (o : Option (ℕ × ℕ)) (s : Text)
    → canonical o ≡ ok s
    → (t : ℕ × ℕ) × (o ≡ some t) × (s ≡ show_time t)
unfolding canonical
read_time_cases none s h = cc
read_time_cases (some t) s h = (t, refl, cc)

time_or_refused-IsTime :
    (o : Option Text) (s : Text)
    → time_or_refused o ≡ ok s
    → (t : ℕ × ℕ) × IsTime t × (s ≡ show_time t)
unfolding time_or_refused
time_or_refused-IsTime none s h = cc
time_or_refused-IsTime (some r) s h =
    let (t, p, e) = read_time_cases (parse_time r) s h in (t, parse_time-IsTime r t p, e)

-- The time of an accepted schedule is a time of the day, written with two digits each.
pub read_time-show_time :
    (f : Field) (s : Text) → read_time f ≡ ok s → (t : ℕ × ℕ) × IsTime t × (s ≡ show_time t)
unfolding read_time
read_time-show_time f s h = time_or_refused-IsTime (time_text f) s h

pub shown_again : (t : ℕ × ℕ) → IsTime t → read_time (one (text (show_time t))) ≡ ok (show_time t)
unfolding read_time time_text time_or_refused canonical show_time
shown_again (h, m) b = rw (parse_time-show_time (h, m) b) refl
