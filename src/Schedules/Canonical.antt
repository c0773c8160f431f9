-- ===== src/Schedules/Canonical.antt =====
-- schedule_utils.py: an accepted schedule is canonical.
use pdc_client.Base.{
  ℕ, ◌≡◌, refl, sym, ◌∙◌, Bool, Option, none, some, List, arith, Text, nat_Eq, text_Eq, pair_Eq,
  str_eq,
}
use pdc_client.Base.Strings.{codes, strip, lower, lower_char, is_space, strip_idem}
use pdc_client.Schedules.{
  ℤ, pos, negsuc, null, flag, number, text, Field, one, items, RawSchedule, Mode, daily, weekly,
  monthly, interval, by_cron, MonthDay, Schedule, ok, blank,
}
use pdc_client.Schedules.Values.{
  truthy, int_of, mode_of, parse_mode, read_time, show_time, field_int,
}
use pdc_client.Schedules.Validate.{
  read_weekdays, read_month_days, check_minutes, check_cron, read_cron, with_mode, in_mode,
  enabled_of, validate_schedule,
}
use pdc_client.Schedules.Clock.{IsTime, read_time-show_time, shown_again}
use pdc_client.Schedules.Days.{and_then-cases, ok_value, day_fields, IsWeek, read_weekdays-IsWeek}
use pdc_client.Schedules.Days
use pdc_client.Schedules.MonthDays.{IsMonth, read_month_days-IsMonth}
use pdc_client.Schedules.MonthStored.{month_fields}
use pdc_client.Schedules.MonthStored

abbrev pub mode_name : Mode → Text
mode_name daily = codes "daily"
mode_name weekly = codes "weekly"
mode_name monthly = codes "monthly"
mode_name interval = codes "interval"
mode_name by_cron = codes "cron"

-- None is null in a file.
text_field : Option Text → Field
text_field none = one null
text_field (some s) = one (text s)

weekdays_field : Option (List ℕ) → Field
weekdays_field none = one null
weekdays_field (some ds) = items (day_fields ds)

days_field : Option (List MonthDay) → Field
days_field none = one null
days_field (some ds) = items (month_fields ds)

minutes_field : Option ℕ → Field
minutes_field none = one null
minutes_field (some n) = one (number (pos n))

-- A schedule as the settings hold it.
unfoldable pub as_raw : Schedule → RawSchedule
unfolding text_field weekdays_field days_field minutes_field
as_raw s = record {
  mode = one (text (mode_name s.mode));
  time = text_field s.time;
  weekdays = weekdays_field s.weekdays;
  monthly_days = days_field s.monthly_days;
  every_minutes = minutes_field s.every_minutes;
  cron = text_field s.cron;
  enabled = some (one (flag s.enabled));
}

mode_of-mode_name : (m : Mode) → mode_of (one (text (mode_name m))) ≡ some m
unfolding mode_of parse_mode strip lower lower_char is_space str_eq
mode_of-mode_name daily = refl
mode_of-mode_name weekly = refl
mode_of-mode_name monthly = refl
mode_of-mode_name interval = refl
mode_of-mode_name by_cron = refl

check_minutes_idem :
    (o : Option ℤ) (n : ℕ) → check_minutes o ≡ ok n → check_minutes (some (pos n)) ≡ ok n
unfolding check_minutes
check_minutes_idem (some (pos m)) n h = ground (arith, h)
check_minutes_idem (some (negsuc m)) n h = cc
check_minutes_idem none n h = cc

module _ (is_valid : Text → Bool) where
  check_cron-strip :
      (s e : Text) → check_cron is_valid (strip s) ≡ ok e → check_cron is_valid (strip e) ≡ ok e
  unfolding check_cron
  check_cron-strip s e h = ground (arith, h, strip_idem s)

  read_cron_idem :
      (f : Field) (e : Text)
      → read_cron is_valid f ≡ ok e
      → read_cron is_valid (one (text e)) ≡ ok e
  unfolding read_cron
  read_cron_idem (one (text s)) e h = check_cron-strip s e h
  read_cron_idem _ e h = cc

  -- A schedule that is accepted in a mode has the fields of the mode, and no other.
  unfoldable pub Accepted : Mode → Bool → Schedule → Type 0
  Accepted daily on s =
      (t : ℕ × ℕ) × IsTime t × (s ≡ record (blank daily on) { time = some (show_time t) })
  Accepted weekly on s =
      (t : ℕ × ℕ) × IsTime t
      × (ds : List ℕ) × IsWeek ds
      × (s ≡ record (blank weekly on) { time = some (show_time t); weekdays = some ds })
  Accepted monthly on s =
      (t : ℕ × ℕ) × IsTime t
      × (ds : List MonthDay) × IsMonth ds
      × (s ≡ record (blank monthly on) { time = some (show_time t); monthly_days = some ds })
  Accepted interval on s =
      (n : ℕ) × (check_minutes (some (pos n)) ≡ ok n)
      × (s ≡ record (blank interval on) { every_minutes = some n })
  Accepted by_cron on s =
      (e : Text) × (read_cron is_valid (one (text e)) ≡ ok e)
      × (s ≡ record (blank by_cron on) { cron = some e })

  pub with_mode-Accepted :
      (m : Mode) (raw : RawSchedule) (on : Bool) (s : Schedule)
      → with_mode is_valid raw on m ≡ ok s
      → Accepted m on s
  unfolding with_mode Accepted
  with_mode-Accepted daily raw on s h =
      let (a, p, q) = and_then-cases (read_time raw.time) _ s h in
      let (t, b, e) = read_time-show_time raw.time a p in (t, b, sym (ok_value q) ∙ rw e refl)
  with_mode-Accepted weekly raw on s h =
      let (a, p, q) = and_then-cases (read_time raw.time) _ s h in
      let (t, b, e) = read_time-show_time raw.time a p in
      let (ds, p2, q2) = and_then-cases (read_weekdays raw.weekdays) _ s q in
      (t, b, ds, read_weekdays-IsWeek raw.weekdays ds p2, sym (ok_value q2) ∙ rw e refl)
  with_mode-Accepted monthly raw on s h =
      let (a, p, q) = and_then-cases (read_time raw.time) _ s h in
      let (t, b, e) = read_time-show_time raw.time a p in
      let (ds, p2, q2) = and_then-cases (read_month_days raw.monthly_days) _ s q in
      (t, b, ds, read_month_days-IsMonth raw.monthly_days ds p2, sym (ok_value q2) ∙ rw e refl)
  with_mode-Accepted interval raw on s h =
      let (n, p, q) = and_then-cases (check_minutes (field_int raw.every_minutes)) _ s h in
      (n, check_minutes_idem (field_int raw.every_minutes) n p, sym (ok_value q))
  with_mode-Accepted by_cron raw on s h =
      let (e, p, q) = and_then-cases (read_cron is_valid raw.cron) _ s h in
      (e, read_cron_idem raw.cron e p, sym (ok_value q))

  again :
      (m : Mode) (on : Bool) (s : Schedule)
      → Accepted m on s
      → validate_schedule is_valid (as_raw s) ≡ ok s
  unfolding Accepted validate_schedule in_mode with_mode as_raw text_field weekdays_field days_field
      minutes_field enabled_of truthy field_int int_of
  again daily on s (t, b, e) = rw (e, mode_of-mode_name daily, shown_again t b) refl
  again weekly on s (t, b, ds, w, e) =
      rw (e, mode_of-mode_name weekly, shown_again t b, Days.read_again ds w) refl
  again monthly on s (t, b, ds, w, e) =
      rw (e, mode_of-mode_name monthly, shown_again t b, MonthStored.read_again ds w) refl
  again interval on s (n, c, e) = rw (e, mode_of-mode_name interval, c) refl
  again by_cron on s (x, c, e) = rw (e, mode_of-mode_name by_cron, c) refl

  in_mode-Accepted :
      (raw : RawSchedule) (o : Option Mode) (s : Schedule)
      → in_mode is_valid raw o ≡ ok s
      → (m : Mode) × (on : Bool) × Accepted m on s
  unfolding in_mode
  in_mode-Accepted raw none s h = cc
  in_mode-Accepted raw (some m) s h =
      (m, enabled_of raw.enabled, with_mode-Accepted m raw (enabled_of raw.enabled) s h)

  pub validate_schedule-Accepted :
      (raw : RawSchedule) (s : Schedule)
      → validate_schedule is_valid raw ≡ ok s
      → (m : Mode) × (on : Bool) × Accepted m on s
  unfolding validate_schedule
  validate_schedule-Accepted raw s h = in_mode-Accepted raw (mode_of raw.mode) s h

  -- A schedule that was accepted is accepted again as it was stored, and stays the same.
  pub accepted_again :
      (raw : RawSchedule) (s : Schedule)
      → validate_schedule is_valid raw ≡ ok s
      → validate_schedule is_valid (as_raw s) ≡ ok s
  accepted_again raw s h = let (m, on, a) = validate_schedule-Accepted raw s h in again m on s a
