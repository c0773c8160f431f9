-- ===== src/Schedules/Repeats.antt =====
-- db_scheduler.py, `_loop`: no run is repeated.
use pdc_client.Base.{
  ℕ, ◌≡◌, refl, inl, inr, Bool, false, Option, none, some, List, [], ◌∷◌, map, Bool-cases, Text,
  nat_Eq, text_Eq, pair_Eq,
}
use pdc_client.Schedules.{RawSchedule, Schedule}
use pdc_client.Schedules.Crons.{schedule_from_settings}
use pdc_client.Schedules.Fires.{due_now, next_fire}
use pdc_client.Schedules.Firing.{Croniter, not_reached, next_fire-later}
use pdc_client.Schedules.Loop.{
  Row, Scheduler, set_or_now, own_settings, own_due, kept_moment, is_due, row_after, due_tables,
  global_due, turn,
}

module _ (is_valid : Text → Bool) (get_next : Text → ℕ → Option ℕ) (cron : Croniter get_next) where
  not_due_now : (s : Option Schedule) (now : ℕ) → due_now get_next s (some now) now ≡ false
  unfolding due_now
  not_due_now s now =
      not_reached get_next cron (next_fire get_next s now) now
        (λ t. next_fire-later get_next cron s now t)

  own_not_due : (o : Option RawSchedule) (now : ℕ) → own_due is_valid get_next o now now ≡ false
  unfolding own_due
  own_not_due none now = refl
  own_not_due (some s) now =
      not_due_now (some (schedule_from_settings is_valid (own_settings s))) now

  kept_not_due :
      (o : Option RawSchedule) (began now : ℕ) (last : Option ℕ)
      → own_due is_valid get_next o
          (set_or_now now (kept_moment is_valid get_next o began now last))
          now
        ≡ false
  unfolding kept_moment
  kept_not_due none began now last = unfold own_due in refl
  kept_not_due (some s) began now last =
      elim (Bool-cases (own_due is_valid get_next (some s) (set_or_now began last) now)) [
        | inl due ↦ rw due (own_not_due (some s) now)
        | inr calm ↦ rw calm calm
      ]

  row_not_due :
      (began now : ℕ) (r : Row)
      → is_due is_valid get_next now now (row_after is_valid get_next began now r) ≡ false
  unfolding is_due row_after
  row_not_due began now r = kept_not_due r.schedule began now r.last_fired

  no_due_tables :
      (began now : ℕ) (rs : List Row)
      → due_tables is_valid get_next now now (map (row_after is_valid get_next began now) rs) ≡ []
  unfolding due_tables
  no_due_tables began now [] = refl
  no_due_tables began now (r ∷ rs) = rw (row_not_due began now r, no_due_tables began now rs) refl

  global_not_due :
      (began now : ℕ) (s : Scheduler)
      → global_due is_valid get_next now now (turn is_valid get_next began now s) ≡ false
  unfolding turn global_due
  global_not_due began now s =
      let sched = some (schedule_from_settings is_valid s.settings) in
      elim (Bool-cases (due_now get_next sched (some (set_or_now began s.last_fired)) now)) [
        | inl due ↦ rw due (not_due_now sched now)
        | inr calm ↦ rw calm calm
      ]

  -- When `croniter` answers later moments only: after a turn of the scheduler that woke up at a
  -- moment, a further turn at that moment runs nothing, neither the tables that inherit the global
  -- schedule nor a table with a schedule of its own.
  pub turn_runs_once :
      (began now : ℕ) (s : Scheduler)
      → (global_due is_valid get_next now now (turn is_valid get_next began now s) ≡ false)
        × (due_tables is_valid get_next now now (turn is_valid get_next began now s).rows ≡ [])
  unfolding turn
  turn_runs_once began now s = (global_not_due began now s, no_due_tables began now s.rows)
