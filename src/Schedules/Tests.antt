-- ===== src/Schedules/Tests.antt =====
-- schedule_utils.py on concrete settings.
use pdc_client.Base.{
  ℕ, ◌+◌, ◌*◌, ◌/◌, ◌<◌, ◌≡◌, refl, ◌≢◌, Bool, true, false, Option, none, some, [], ◌∷◌, arith,
  Text, nat_Eq, text_Eq, pair_Eq, str_eq,
}
use pdc_client.Base.Lists.{elem}
use pdc_client.Base.Ids.{chomp}
use pdc_client.Base.Strings.{codes, strip, lower, lower_char, is_space}
use pdc_client.Schedules.{
  pos, Scalar, null, number, text, Field, one, items, RawSchedule, weekly, by_cron, Schedule,
  refused, ok, skipped_month_day, too_short, blank,
}
use pdc_client.Schedules.Values.{
  int_of, mode_of, parse_mode, read_time, time_text, time_or_refused, canonical, parse_time,
  five_chars, time_digits, is_digit, show_time,
}
use pdc_client.Schedules.Validate.{
  collect_weekdays, weekday_step, insert_sorted, sorted, read_weekdays, read_month_days,
  collect_month_days, month_step, month_number, is_last, numbers, check_minutes, with_mode, in_mode,
  enabled_of, validate_schedule,
}
use pdc_client.Schedules.Crons.{
  Settings, schedule_from_settings, stored_or, accepted_or, to_crons, mode_crons, timed_crons,
  weekly_crons, time_or_midnight, show_nat, join,
}
use pdc_client.Schedules.Fires.{
  next_fire, fire_of, fires, cons_fire, min_or_none, earliest, due_now, reached,
}
use pdc_client.Schedules.Canonical.{as_raw, accepted_again}
use pdc_client.Schedules.Loop.{Scheduler, is_due, due_tables, global_due, turn}
use pdc_client.Schedules.Repeats.{turn_runs_once}
use pdc_client.Schedules.Firing.{Croniter, settings_fire, missed_fire_runs_once}

abbrev nothing : Field
nothing = one null

abbrev int : ℕ → Scalar
int n = number (pos n)

abbrev no_expression : Text → Bool
no_expression e = false

-- On Monday and Friday, one of them given twice and one as text.
abbrev weekly_raw : RawSchedule
weekly_raw = record {
  mode = one (text (codes " Weekly "));
  time = one (text (codes "07:30"));
  weekdays = items (int 5 ∷ text (codes "1") ∷ int 5 ∷ []);
  monthly_days = nothing;
  every_minutes = nothing;
  cron = nothing;
  enabled = none;
}

abbrev weekly_schedule : Schedule
weekly_schedule = record (blank weekly true) {
  time = some (codes "07:30");
  weekdays = some (1 ∷ 5 ∷ []);
}

validated_weekly : validate_schedule no_expression weekly_raw ≡ ok weekly_schedule
unfolding validate_schedule in_mode with_mode enabled_of mode_of parse_mode strip lower lower_char
    is_space read_time time_text time_or_refused canonical parse_time five_chars time_digits
    is_digit show_time read_weekdays collect_weekdays weekday_step int_of chomp insert_sorted sorted
    str_eq elem
validated_weekly = refl

accepted_again_example :
    validate_schedule no_expression (as_raw weekly_schedule) ≡ ok weekly_schedule
accepted_again_example = accepted_again no_expression weekly_raw weekly_schedule validated_weekly

weekly_crons_test : to_crons weekly_schedule ≡ some (codes "30 7 * * 1,5" ∷ [])
unfolding to_crons mode_crons timed_crons weekly_crons time_or_midnight parse_time five_chars
    time_digits is_digit show_nat join chomp
weekly_crons_test = refl

-- A line fires at each full hundred.
abbrev next_hundred : Text → ℕ → Option ℕ
next_hundred e after = some ((after / 100 + 1) * 100)

next_hundred_later : (e : Text) (after t : ℕ) → next_hundred e after ≡ some t → after < t
next_hundred_later e after t h = ground (arith, h)

abbrev hundreds : Croniter next_hundred
hundreds = record {
  later = next_hundred_later;
  recurs = λ p r after. ((after / 100 + 1) * 100, refl);
}

abbrev stored_weekly : Settings
stored_weekly = record {
  schedule = some weekly_raw;
  refresh_time = nothing;
  refresh_enabled = nothing;
}

stored_weekly_schedule : schedule_from_settings no_expression stored_weekly ≡ weekly_schedule
unfolding schedule_from_settings stored_or accepted_or
stored_weekly_schedule = rw validated_weekly refl

weekly_differs : weekly ≢ by_cron
weekly_differs h = cc h

stored_weekly_mode : (schedule_from_settings no_expression stored_weekly).mode ≢ by_cron
stored_weekly_mode = rw stored_weekly_schedule weekly_differs

stored_weekly_enabled : (schedule_from_settings no_expression stored_weekly).enabled ≡ true
stored_weekly_enabled = rw stored_weekly_schedule refl

settings_fire_example :
    (t : ℕ) × (next_fire next_hundred
        (some (schedule_from_settings no_expression stored_weekly))
        250
      ≡ some t)
    × 250 < t
settings_fire_example =
    settings_fire next_hundred hundreds no_expression stored_weekly 250 stored_weekly_mode
      stored_weekly_enabled

weekly_due : due_now next_hundred (some weekly_schedule) (some 250) 310 ≡ true
unfolding due_now next_fire fire_of fires cons_fire min_or_none earliest reached
weekly_due = rw weekly_crons_test refl

missed_fire_runs_once_example :
    (due_now next_hundred (some weekly_schedule) (some 250) 500 ≡ true)
    × (due_now next_hundred (some weekly_schedule) (some 500) 500 ≡ false)
missed_fire_runs_once_example =
    missed_fire_runs_once next_hundred hundreds (some weekly_schedule) 250 310 500 weekly_due
      (omega arith)

-- A day that some months lack is refused, and so is an interval under a quarter of an hour.
day_30_refused : read_month_days (items (int 28 ∷ int 30 ∷ [])) ≡ refused skipped_month_day
unfolding read_month_days collect_month_days month_step month_number is_last int_of numbers elem
day_30_refused = refl

minutes_14_refused : check_minutes (some (pos 14)) ≡ refused too_short
unfolding check_minutes
minutes_14_refused = refl

-- The global schedule and a table's own are due at 310.
abbrev scheduler : Scheduler
scheduler = record {
  settings = stored_weekly;
  last_fired = some 250;
  rows =
      record { table_id = codes "t1"; schedule = some weekly_raw; last_fired = some 120 }
      ∷ record { table_id = codes "t2"; schedule = none; last_fired = none }
      ∷ [];
}

table_due : due_tables no_expression next_hundred 300 310 scheduler.rows ≡ codes "t1" ∷ []
unfolding due_tables is_due schedule_from_settings stored_or accepted_or due_now next_fire fire_of
    fires cons_fire min_or_none earliest reached
table_due = rw (validated_weekly, weekly_crons_test) refl

turn_runs_once_example :
    (global_due no_expression next_hundred 310 310
        (turn no_expression next_hundred 300 310 scheduler)
      ≡ false)
    × (due_tables no_expression next_hundred 310 310
          (turn no_expression next_hundred 300 310 scheduler).rows
        ≡ [])
turn_runs_once_example = turn_runs_once no_expression next_hundred hundreds 300 310 scheduler
