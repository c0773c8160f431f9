-- ===== src/Schedules.antt =====
-- schedule_utils.py: the values that a schedule arrives as, and the canonical schedule. Floating-point
-- numbers and containers inside a list read as `other`; nothing but text can be a mode, a time or an
-- expression, since `str` of another value never has their form.
pub mod Values
pub mod Validate
pub mod Crons
pub mod Fires
pub mod Sorted
pub mod Clock
pub mod Days
pub mod MonthDays
pub mod MonthStored
pub mod Canonical
pub mod Presets
pub mod Firing
pub mod Loop
pub mod Repeats
mod Tests
use pdc_client.Base.{
  ℕ, zero, suc, ◌+◌, ◌-◌, ◌*◌, ◌/◌, ◌%◌, ◌^◌, ◌≤◌, ◌<◌, min, max, ◌≡◌, refl, sym, ap, ◌∙◌, ◌≢◌, ◌↔◌,
  ◌⊎◌, inl, inr, Bool, true, false, not, ◌&&◌, ◌||◌, Option, none, some, List, [], ◌∷◌, ◌++◌, map,
  arith, ltb, leb, ◌==◌, if◌then◌else◌, leb→le, le→leb, ltb→lt, ==_iff, Bool-cases, Option-cases,
  is_some, if_both, Eq, Text, str_eq_iff, str_eq_refl, nat_Eq, text_Eq, pair_Eq, str_eq,
}

-- `int` in Python.
pub data ℤ : Type 0 where
  pos : ℕ → ℤ
  negsuc : ℕ → ℤ

-- A value inside a list; `null` is also a missing key.
pub data Scalar : Type 0 where
  null : Scalar
  flag : Bool → Scalar
  number : ℤ → Scalar
  text : Text → Scalar
  other : Scalar

pub data Field : Type 0 where
  one : Scalar → Field
  items : List Scalar → Field

-- The dictionary that `validate_schedule` reads; `enabled` is the only key with a default.
pub record RawSchedule : Type 0 where
  pub mode : Field
  pub time : Field
  pub weekdays : Field
  pub monthly_days : Field
  pub every_minutes : Field
  pub cron : Field
  pub enabled : Option Field

pub data Mode : Type 0 where
  daily : Mode
  weekly : Mode
  monthly : Mode
  interval : Mode
  by_cron : Mode

-- A day of the month, or "last".
pub data MonthDay : Type 0 where
  day : ℕ → MonthDay
  last : MonthDay

pub record Schedule : Type 0 where
  pub mode : Mode
  pub time : Option Text
  pub weekdays : Option (List ℕ)
  pub monthly_days : Option (List MonthDay)
  pub every_minutes : Option ℕ
  pub cron : Option Text
  pub enabled : Bool

-- The messages of the `ValueError`s.
pub data Refusal : Type 0 where
  unknown_mode : Refusal
  bad_time : Refusal
  no_weekday : Refusal
  bad_weekday : Refusal
  no_month_day : Refusal
  bad_month_day : Refusal
  skipped_month_day : Refusal
  no_minutes : Refusal
  too_short : Refusal
  too_long : Refusal
  uneven : Refusal
  bad_cron : Refusal

pub data Result {ℓ} (A : Type ℓ) : Type ℓ where
  ok : A → Result A
  refused : Refusal → Result A

abbrev pub and_then {ℓ κ} : {A : Type ℓ} {B : Type κ} → Result A → (A → Result B) → Result B
and_then (ok a) f = f a
and_then (refused r) f = refused r

-- `schedule` fields that a mode does not use are None.
abbrev pub blank : Mode → Bool → Schedule
blank m on = record {
  mode = m;
  time = none;
  weekdays = none;
  monthly_days = none;
  every_minutes = none;
  cron = none;
  enabled = on;
}
