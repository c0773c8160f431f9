-- ===== src/Schedules/Loop.antt =====
-- db_scheduler.py, `_loop`: one turn of the scheduler. The ids of the tables differ, so a mark on a table
-- is a mark on its row. The wait between the two readings of the clock is the caller's.
use pdc_client.Base.{
  ℕ, Bool, false, Option, none, some, List, [], ◌∷◌, map, if◌then◌else◌, Text, nat_Eq, text_Eq,
  pair_Eq,
}
use pdc_client.Schedules.{RawSchedule, null, one}
use pdc_client.Schedules.Crons.{Settings, schedule_from_settings}
use pdc_client.Schedules.Fires.{due_now}

-- A table with its own schedule, if it has one, and its last fire moment.
pub record Row : Type 0 where
  pub table_id : Text
  pub schedule : Option RawSchedule
  pub last_fired : Option ℕ

pub record Scheduler : Type 0 where
  pub settings : Settings
  pub last_fired : Option ℕ
  pub rows : List Row

-- A last fire moment that was never set starts now.
abbrev pub set_or_now : ℕ → Option ℕ → ℕ
set_or_now now none = now
set_or_now now (some t) = t

-- `{"schedule": s}`
abbrev pub own_settings : RawSchedule → Settings
own_settings s = record { schedule = some s; refresh_time = one null; refresh_enabled = one null }

module _ (is_valid : Text → Bool) (get_next : Text → ℕ → Option ℕ) where
  unfoldable pub own_due : Option RawSchedule → ℕ → ℕ → Bool
  own_due none last now = false
  own_due (some s) last now =
      due_now get_next (some (schedule_from_settings is_valid (own_settings s))) (some last) now

  -- The moment that a row keeps after the turn: an inheriting row is left alone.
  unfoldable pub kept_moment : Option RawSchedule → ℕ → ℕ → Option ℕ → Option ℕ
  kept_moment none began now last = last
  kept_moment (some s) began now last =
      if own_due (some s) (set_or_now began last) now
      then some now
      else some (set_or_now began last)

  unfoldable pub is_due : ℕ → ℕ → Row → Bool
  unfolding own_due
  is_due began now r = own_due r.schedule (set_or_now began r.last_fired) now

  unfoldable pub row_after : ℕ → ℕ → Row → Row
  unfolding own_due kept_moment
  row_after began now r = record r { last_fired = kept_moment r.schedule began now r.last_fired }

  -- `due_tables`
  unfoldable pub due_tables : ℕ → ℕ → List Row → List Text
  due_tables began now [] = []
  due_tables began now (r ∷ rs) =
      let rest = due_tables began now rs in if is_due began now r then r.table_id ∷ rest else rest

  -- Whether the global schedule is due.
  unfoldable pub global_due : ℕ → ℕ → Scheduler → Bool
  global_due began now s =
      due_now get_next (some (schedule_from_settings is_valid s.settings))
        (some (set_or_now began s.last_fired)) now

  -- The state after a turn that began at one moment and woke up at another.
  unfoldable pub turn : ℕ → ℕ → Scheduler → Scheduler
  turn began now s = record s {
    last_fired = if global_due began now s then some now else some (set_or_now began s.last_fired);
    rows = map (row_after began now) s.rows;
  }
