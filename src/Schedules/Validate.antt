-- ===== src/Schedules/Validate.antt =====
-- schedule_utils.py, `validate_schedule`, with one function per field.
use pdc_client.Base.{
  ℕ, suc, ◌*◌, ◌%◌, Bool, true, false, not, ◌&&◌, Option, none, some, List, [], ◌∷◌, ◌++◌, map, ltb,
  leb, ◌==◌, if◌then◌else◌, Text, nat_Eq, text_Eq, pair_Eq, str_eq,
}
use pdc_client.Base.Lists.{elem, add_new}
use pdc_client.Base.Strings.{codes, fold_case, strip, is_space}
use pdc_client.Schedules.Values.{truthy, int_of, mode_of, read_time, field_int}
use pdc_client.Schedules.{
  ℤ, pos, negsuc, Scalar, text, Field, one, items, RawSchedule, Mode, daily, weekly, monthly,
  interval, by_cron, MonthDay, day, last, Schedule, unknown_mode, no_weekday, bad_weekday,
  no_month_day, bad_month_day, skipped_month_day, no_minutes, too_short, too_long, uneven, bad_cron,
  Result, ok, refused, and_then, blank,
}

abbrev pub min_interval_minutes : ℕ
min_interval_minutes = 15

abbrev pub max_interval_minutes : ℕ
max_interval_minutes = 24 * 60

-- The loop over the weekdays.
unfoldable pub weekday_step : Option ℤ → List ℕ → Result (List ℕ)
weekday_step (some (pos d)) days = if leb d 6 then ok (add_new d days) else refused bad_weekday
weekday_step _ days = refused bad_weekday

unfoldable pub collect_weekdays : List Scalar → List ℕ → Result (List ℕ)
unfolding weekday_step
collect_weekdays [] days = ok days
collect_weekdays (v ∷ vs) days = and_then (weekday_step (int_of v) days) (collect_weekdays vs)

-- `sorted`
unfoldable pub insert_sorted : ℕ → List ℕ → List ℕ
insert_sorted a [] = a ∷ []
insert_sorted a (x ∷ xs) = let rest = insert_sorted a xs in if leb a x then a ∷ x ∷ xs else x ∷ rest

unfoldable pub sorted : List ℕ → List ℕ
sorted [] = []
sorted (x ∷ xs) = insert_sorted x (sorted xs)

unfoldable pub read_weekdays : Field → Result (List ℕ)
read_weekdays (items (v ∷ vs)) = and_then (collect_weekdays (v ∷ vs) []) (λ days. ok (sorted days))
read_weekdays _ = refused no_weekday

-- `[x for x in days if isinstance(x, int)]`
unfoldable pub numbers : List MonthDay → List ℕ
numbers [] = []
numbers (day d ∷ ds) = d ∷ numbers ds
numbers (last ∷ ds) = numbers ds

-- `"last" in days`
unfoldable pub has_last : List MonthDay → Bool
has_last [] = false
has_last (day d ∷ ds) = has_last ds
has_last (last ∷ ds) = true

unfoldable pub is_last : Scalar → Bool
is_last (text s) = str_eq (fold_case s) (codes "last")
is_last _ = false

unfoldable pub month_number : Option ℤ → List MonthDay → Result (List MonthDay)
month_number (some (pos d)) days =
    if leb 29 d && leb d 31
    then refused skipped_month_day
    else if leb 1 d && leb d 28
    then ok (if elem d (numbers days) then days else days ++ day d ∷ [])
    else refused bad_month_day
month_number _ days = refused bad_month_day

unfoldable pub month_step : Scalar → List MonthDay → Result (List MonthDay)
month_step v days =
    if is_last v
    then ok (if has_last days then days else days ++ last ∷ [])
    else month_number (int_of v) days

unfoldable pub collect_month_days : List Scalar → List MonthDay → Result (List MonthDay)
unfolding is_last month_number month_step
collect_month_days [] days = ok days
collect_month_days (v ∷ vs) days = and_then (month_step v days) (collect_month_days vs)

unfoldable pub sorted_days : List MonthDay → List MonthDay
sorted_days days = map day (sorted (numbers days)) ++ (if has_last days then last ∷ [] else [])

unfoldable pub read_month_days : Field → Result (List MonthDay)
read_month_days (items (v ∷ vs)) =
    and_then (collect_month_days (v ∷ vs) []) (λ days. ok (sorted_days days))
read_month_days _ = refused no_month_day

unfoldable pub check_minutes : Option ℤ → Result ℕ
check_minutes (some (pos n)) =
    if ltb n min_interval_minutes
    then refused too_short
    else if ltb max_interval_minutes n
    then refused too_long
    else if leb 60 n && not (n % 60 == 0)
    then refused uneven
    else ok n
check_minutes (some (negsuc n)) = refused too_short
check_minutes none = refused no_minutes

-- `len(expr.split())`
unfoldable pub count_words : Bool → Text → ℕ
count_words inside [] = 0
count_words inside (c ∷ s) =
    let next = count_words (not (is_space c)) s in
    if not inside && not (is_space c) then suc next else next

-- `bool(obj.get("enabled", True))`
unfoldable pub enabled_of : Option Field → Bool
enabled_of none = true
enabled_of (some f) = truthy f

-- `croniter.is_valid`, and what reads it.
module _ (is_valid : Text → Bool) where
  unfoldable pub check_cron : Text → Result Text
  check_cron s = if count_words false s == 5 && is_valid s then ok s else refused bad_cron

  unfoldable pub read_cron : Field → Result Text
  unfolding check_cron
  read_cron (one (text s)) = check_cron (strip s)
  read_cron _ = refused bad_cron

  unfoldable pub with_mode : RawSchedule → Bool → Mode → Result Schedule
  with_mode raw on daily =
      and_then (read_time raw.time) (λ t. ok (record (blank daily on) { time = some t }))
  with_mode raw on weekly = and_then (read_time raw.time) (λ t.
      and_then (read_weekdays raw.weekdays)
        (λ ds. ok (record (blank weekly on) { time = some t; weekdays = some ds })))
  with_mode raw on monthly = and_then (read_time raw.time) (λ t.
      and_then (read_month_days raw.monthly_days)
        (λ ds. ok (record (blank monthly on) { time = some t; monthly_days = some ds })))
  with_mode raw on interval =
      and_then (check_minutes (field_int raw.every_minutes))
        (λ n. ok (record (blank interval on) { every_minutes = some n }))
  with_mode raw on by_cron =
      and_then (read_cron raw.cron) (λ e. ok (record (blank by_cron on) { cron = some e }))

  unfoldable pub in_mode : RawSchedule → Option Mode → Result Schedule
  in_mode raw none = refused unknown_mode
  in_mode raw (some m) = with_mode raw (enabled_of raw.enabled) m

  unfoldable pub validate_schedule : RawSchedule → Result Schedule
  unfolding in_mode with_mode enabled_of field_int
  validate_schedule raw = in_mode raw (mode_of raw.mode)
