-- ===== src/Schedules/Presets.antt =====
-- schedule_utils.py: the lines in cron's format that the presets make.
use pdc_client.Base.{
  ℕ, ◌/◌, ◌≡◌, refl, ap, ◌≢◌, inl, inr, Bool, true, false, not, ◌&&◌, ◌||◌, Option, none, some,
  List, [], ◌∷◌, map, arith, ltb, leb, Bool-cases, Text, nat_Eq, text_Eq, pair_Eq,
}
use pdc_client.Base.Lists.{all, is_nil, distinct}
use pdc_client.Base.Strings.{codes}
use pdc_client.Schedules.{
  pos, Field, one, text, RawSchedule, refused, Mode, daily, weekly, monthly, interval, by_cron,
  MonthDay, Schedule, Result, ok, blank,
}
use pdc_client.Schedules.Values.{show_time, parse_time, five_chars, time_digits, is_digit}
use pdc_client.Base.Ids.{chomp}
use pdc_client.Schedules.Validate.{check_minutes, numbers, has_last, validate_schedule}
use pdc_client.Schedules.Crons.{
  line, star, step, comma_list, show_nat, interval_crons, weekly_crons, numbered, monthly_crons,
  time_or_midnight, timed_crons, mode_crons, to_crons, Settings, matched, legacy_time,
  legacy_schedule, accepted_or, stored_or, schedule_from_settings,
}
use pdc_client.Schedules.Clock.{IsTime, parse_time-show_time, parse_time-IsTime}
use pdc_client.Schedules.Days.{some_weekdays}
use pdc_client.Schedules.MonthDays.{in_every_month, has_day_or_last}
use pdc_client.Schedules.Canonical.{Accepted, validate_schedule-Accepted}

-- A line of one of the presets: its moment of the day, and its days.
pub data Preset : Type 0 where
  every_day : ℕ × ℕ → Preset
  on_weekdays : ℕ × ℕ → List ℕ → Preset
  on_month_days : ℕ × ℕ → List ℕ → Preset
  on_last_day : ℕ × ℕ → Preset
  every_minutes : ℕ → Preset
  every_hours : ℕ → Preset

abbrev pub preset_line : Preset → Text
preset_line (every_day t) = line (show_nat t.1) (show_nat t.0) star star
preset_line (on_weekdays t ds) = line (show_nat t.1) (show_nat t.0) star (comma_list ds)
preset_line (on_month_days t ds) = line (show_nat t.1) (show_nat t.0) (comma_list ds) star
preset_line (on_last_day t) = line (show_nat t.1) (show_nat t.0) (codes "l") star
preset_line (every_minutes n) = line (step n) star star star
preset_line (every_hours n) = line (codes "0") (step n) star star

abbrev pub is_time : ℕ × ℕ → Bool
is_time t = ltb t.0 24 && ltb t.1 60

-- The values are in the ranges of cron, and no month lacks a day.
abbrev pub in_range : Preset → Bool
in_range (every_day t) = is_time t
in_range (on_weekdays t ds) = is_time t && some_weekdays ds
in_range (on_month_days t ds) = is_time t && not (is_nil ds) && distinct ds && all in_every_month ds
in_range (on_last_day t) = is_time t
in_range (every_minutes n) = leb 15 n && ltb n 60
in_range (every_hours n) = leb 1 n && leb n 24

-- The lines of a schedule: at least one, and all of them presets in range.
abbrev pub HasPresets : Option (List Text) → Type 0
HasPresets o =
    (p : Preset) × (ps : List Preset) × (o ≡ some (map preset_line (p ∷ ps)))
    × (all in_range (p ∷ ps) ≡ true)

monthly_crons-HasPresets :
    (t : ℕ × ℕ) (ds : List MonthDay) (ns : List ℕ) (b : Bool)
    → numbers ds ≡ ns
    → has_last ds ≡ b
    → not (is_nil ns) || b ≡ true
    → in_range (on_last_day t) ≡ true
    → distinct ns && all in_every_month ns ≡ true
    → HasPresets (monthly_crons t.0 t.1 (some ds))
unfolding monthly_crons numbered all
monthly_crons-HasPresets t ds [] true en eb h r g =
    (on_last_day t, [], rw (en, eb) refl, ground (arith, r))
monthly_crons-HasPresets t ds [] false en eb h r g = cc
monthly_crons-HasPresets t ds (n ∷ ns) true en eb h r g =
    (on_month_days t (n ∷ ns), on_last_day t ∷ [], rw (en, eb) refl, ground (arith, r, g))
monthly_crons-HasPresets t ds (n ∷ ns) false en eb h r g =
    (on_month_days t (n ∷ ns), [], rw (en, eb) refl, ground (arith, r, g))

interval_crons-HasPresets :
    (n : ℕ) → check_minutes (some (pos n)) ≡ ok n → HasPresets (interval_crons (some n))
unfolding check_minutes interval_crons all
interval_crons-HasPresets n h = elim (Bool-cases (ltb n 60)) [
  | inl short ↦ (every_minutes n, [], rw short refl, ground (arith, h))
  | inr long ↦ (every_hours (n / 60), [], rw long refl, ground (arith, h))
]

time_or_midnight-show_time : (t : ℕ × ℕ) → time_or_midnight (some (show_time t)) ≡ show_time t
unfolding time_or_midnight show_time
time_or_midnight-show_time t = refl

-- A time of the day as a schedule holds it; `_TIME_RE` also lets a newline end it.
abbrev pub HoldsTime : Option Text → ℕ × ℕ → Type 0
HoldsTime o t = parse_time (time_or_midnight o) ≡ some t

holds_shown : (t : ℕ × ℕ) → IsTime t → HoldsTime (some (show_time t)) t
holds_shown t b = rw (time_or_midnight-show_time t) (parse_time-show_time t b)

daily-HasPresets :
    (s : Schedule) (t : ℕ × ℕ)
    → s.mode ≡ daily
    → HoldsTime s.time t
    → IsTime t
    → HasPresets (to_crons s)
unfolding to_crons mode_crons timed_crons all
daily-HasPresets s t m h b = (every_day t, [], rw (m, h) refl, ground (arith, b))

-- A time that is stored in a setting, when it has the form of one.
abbrev pub HoldsSome : Text → Type 0
HoldsSome s = (t : ℕ × ℕ) × HoldsTime (some s) t × IsTime t

midnight : HoldsSome (codes "00:00")
unfolding time_or_midnight parse_time five_chars time_digits is_digit chomp
midnight = ((0, 0), refl, (omega arith, omega arith))

parse_time_nil : (s : Text) (t : ℕ × ℕ) → parse_time s ≡ some t → HoldsTime (some s) t
unfolding time_or_midnight parse_time chomp five_chars
parse_time_nil [] t h = cc
parse_time_nil (c ∷ s) t h = h

matched-HoldsSome : (s : Text) (o : Option (ℕ × ℕ)) → parse_time s ≡ o → HoldsSome (matched s o)
unfolding matched
matched-HoldsSome s none h = midnight
matched-HoldsSome s (some t) h = (t, parse_time_nil s t h, parse_time-IsTime s t h)

legacy_time-HoldsSome : (f : Field) → HoldsSome (legacy_time f)
unfolding legacy_time
legacy_time-HoldsSome (one (text s)) = matched-HoldsSome s (parse_time s) refl
legacy_time-HoldsSome _ = midnight

legacy-HasPresets : (stg : Settings) → HasPresets (to_crons (legacy_schedule stg))
unfolding legacy_schedule
legacy-HasPresets stg =
    let (t, h, b) = legacy_time-HoldsSome stg.refresh_time in
    daily-HasPresets (legacy_schedule stg) t refl h b

module _ (is_valid : Text → Bool) where
  Accepted-HasPresets :
      (m : Mode) (on : Bool) (s : Schedule)
      → Accepted is_valid m on s
      → s.mode ≢ by_cron
      → HasPresets (to_crons s)
  unfolding Accepted to_crons mode_crons timed_crons weekly_crons all
  Accepted-HasPresets daily on s (t, b, e) n = rw e (
      daily-HasPresets (record (blank daily on) { time = some (show_time t) }) t refl
        (holds_shown t b) b)
  Accepted-HasPresets weekly on s (t, b, ds, w, e) n =
      (on_weekdays t ds, [], rw (e, holds_shown t b) refl, ground (arith, b, w.0))
  Accepted-HasPresets monthly on s (t, b, ds, w, e) n =
      rw (e, holds_shown t b)
        (monthly_crons-HasPresets t ds (numbers ds) (has_last ds) refl refl
          (has_day_or_last ds (ground (arith, w.0))) (ground (arith, b)) (ground (arith, w.0)))
  Accepted-HasPresets interval on s (k, c, e) n = rw e (interval_crons-HasPresets k c)
  Accepted-HasPresets by_cron on s (x, c, e) n = elim (n (ap (λ r. r.mode) e)) [ ]

  accepted_or-HasPresets :
      (stg : Settings) (r : Result Schedule) (raw : RawSchedule)
      → validate_schedule is_valid raw ≡ r
      → (accepted_or is_valid stg r).mode ≢ by_cron
      → HasPresets (to_crons (accepted_or is_valid stg r))
  unfolding accepted_or
  accepted_or-HasPresets stg (ok s) raw h n =
      let (m, on, a) = validate_schedule-Accepted is_valid raw s h in Accepted-HasPresets m on s a n
  accepted_or-HasPresets stg (refused e) raw h n = legacy-HasPresets stg

  stored_or-HasPresets :
      (stg : Settings) (o : Option RawSchedule)
      → (stored_or is_valid stg o).mode ≢ by_cron
      → HasPresets (to_crons (stored_or is_valid stg o))
  unfolding stored_or
  stored_or-HasPresets stg none n = legacy-HasPresets stg
  stored_or-HasPresets stg (some raw) n =
      accepted_or-HasPresets stg (validate_schedule is_valid raw) raw refl n

  -- Whatever the settings hold, the schedule that they give has lines of presets, unless it is an
  -- expression of the administrator's.
  pub settings-HasPresets :
      (stg : Settings)
      → (schedule_from_settings is_valid stg).mode ≢ by_cron
      → HasPresets (to_crons (schedule_from_settings is_valid stg))
  unfolding schedule_from_settings
  settings-HasPresets stg n = stored_or-HasPresets stg stg.schedule n
