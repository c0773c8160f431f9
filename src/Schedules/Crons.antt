-- ===== src/Schedules/Crons.antt =====
-- schedule_utils.py, `schedule_from_settings` and `to_crons`: the stored settings, and the lines in
-- cron's format.
use pdc_client.Base.{
  ℕ, zero, suc, ◌+◌, ◌/◌, ◌%◌, Bool, Option, none, some, List, [], ◌∷◌, ◌++◌, map, ltb,
  if◌then◌else◌, Text, nat_Eq, text_Eq, pair_Eq,
}
use pdc_client.Base.Lists.{is_nil}
use pdc_client.Base.Strings.{codes}
use pdc_client.Schedules.{
  text, Field, one, RawSchedule, Mode, daily, weekly, monthly, interval, by_cron, MonthDay,
  Schedule, Result, ok, refused, blank,
}
use pdc_client.Schedules.Values.{truthy, parse_time}
use pdc_client.Schedules.Validate.{numbers, has_last, validate_schedule}

-- `schedule` is `none` when it is no dictionary.
pub record Settings : Type 0 where
  pub schedule : Option RawSchedule
  pub refresh_time : Field
  pub refresh_enabled : Field

-- `str(stg.get("refresh_time") or "00:00")`, when `_TIME_RE` matches it; "00:00" otherwise
unfoldable pub matched : Text → Option (ℕ × ℕ) → Text
matched s none = codes "00:00"
matched s (some t) = s

unfoldable pub legacy_time : Field → Text
unfolding matched
legacy_time (one (text s)) = matched s (parse_time s)
legacy_time _ = codes "00:00"

unfoldable pub legacy_schedule : Settings → Schedule
legacy_schedule stg = record (blank daily (truthy stg.refresh_enabled)) {
  time = some (legacy_time stg.refresh_time);
}

module _ (is_valid : Text → Bool) where
  unfoldable pub accepted_or : Settings → Result Schedule → Schedule
  accepted_or stg (ok s) = s
  accepted_or stg (refused r) = legacy_schedule stg

  unfoldable pub stored_or : Settings → Option RawSchedule → Schedule
  stored_or stg none = legacy_schedule stg
  stored_or stg (some raw) = accepted_or stg (validate_schedule is_valid raw)

  unfoldable pub schedule_from_settings : Settings → Schedule
  unfolding accepted_or stored_or
  schedule_from_settings stg = stored_or stg stg.schedule

-- `str(n)`
shown : ℕ → ℕ → Text
shown zero n = []
shown (suc fuel) n =
    let front = shown fuel (n / 10) in
    if ltb n 10 then (b'0' + n) ∷ [] else front ++ (b'0' + n % 10) ∷ []

unfoldable pub show_nat : ℕ → Text
unfolding shown
show_nat n = shown (suc n) n

-- `sep.join(parts)`
unfoldable pub join : Text → List Text → Text
join sep [] = []
join sep (s ∷ []) = s
join sep (s ∷ t ∷ ss) = s ++ sep ++ join sep (t ∷ ss)

-- A line of cron: minute and hour, then the days of the month and of the week.
abbrev pub line : Text → Text → Text → Text → Text
line m h dom dow = join (codes " ") (m ∷ h ∷ dom ∷ codes "*" ∷ dow ∷ [])

abbrev pub comma_list : List ℕ → Text
comma_list ds = join (codes ",") (map show_nat ds)

abbrev pub star : Text
star = codes "*"

abbrev pub step : ℕ → Text
step n = codes "*/" ++ show_nat n

unfoldable pub interval_crons : Option ℕ → Option (List Text)
interval_crons none = none
interval_crons (some n) =
    if ltb n 60
    then some (line (step n) star star star ∷ [])
    else some (line (codes "0") (step (n / 60)) star star ∷ [])

unfoldable pub weekly_crons : ℕ → ℕ → Option (List ℕ) → Option (List Text)
weekly_crons h m none = none
weekly_crons h m (some ds) = some (line (show_nat m) (show_nat h) star (comma_list ds) ∷ [])

unfoldable pub numbered : ℕ → ℕ → List ℕ → List Text
numbered h m ds = if is_nil ds then [] else line (show_nat m) (show_nat h) (comma_list ds) star ∷ []

unfoldable pub monthly_crons : ℕ → ℕ → Option (List MonthDay) → Option (List Text)
monthly_crons h m none = none
monthly_crons h m (some days) = some (
    numbered h m (numbers days)
    ++ (if has_last days then line (show_nat m) (show_nat h) (codes "l") star ∷ [] else []))

-- `sched.get("time") or "00:00"`
unfoldable pub time_or_midnight : Option Text → Text
time_or_midnight none = codes "00:00"
time_or_midnight (some s) = if is_nil s then codes "00:00" else s

unfoldable pub timed_crons : Schedule → Mode → Option (ℕ × ℕ) → Option (List Text)
timed_crons s m none = none
timed_crons s weekly (some (h, m)) = weekly_crons h m s.weekdays
timed_crons s monthly (some (h, m)) = monthly_crons h m s.monthly_days
timed_crons s _ (some (h, m)) = some (line (show_nat m) (show_nat h) star star ∷ [])

unfoldable pub cron_line : Option Text → Option (List Text)
cron_line none = none
cron_line (some e) = some (e ∷ [])

unfoldable pub mode_crons : Schedule → Mode → Option (List Text)
mode_crons s by_cron = cron_line s.cron
mode_crons s interval = interval_crons s.every_minutes
mode_crons s m = timed_crons s m (parse_time (time_or_midnight s.time))

-- `none` is an exception.
unfoldable pub to_crons : Schedule → Option (List Text)
unfolding interval_crons weekly_crons numbered monthly_crons time_or_midnight timed_crons cron_line
    mode_crons
to_crons s = mode_crons s s.mode
