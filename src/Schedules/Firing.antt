-- ===== src/Schedules/Firing.antt =====
-- schedule_utils.py: when schedules fire.
use pdc_client.Base.{
  ℕ, zero, suc, ◌≤◌, ◌<◌, min, ◌≡◌, refl, ◌≢◌, Bool, true, false, ◌&&◌, Option, none, some, List,
  [], ◌∷◌, map, arith, ltb, Text, nat_Eq, text_Eq, pair_Eq,
}
use pdc_client.Base.Lists.{length, all}
use pdc_client.Schedules.{by_cron, Schedule}
use pdc_client.Schedules.Crons.{to_crons, Settings, schedule_from_settings}
use pdc_client.Schedules.Fires.{
  cons_fire, fires, earliest, min_or_none, fire_of, next_fire, reached, due_now, preview,
}
use pdc_client.Schedules.Presets.{Preset, preset_line, in_range, HasPresets, settings-HasPresets}

-- Each moment after the one before, from a start.
unfoldable pub increasing : ℕ → List ℕ → Bool
increasing t [] = true
increasing t (u ∷ us) = ltb t u && increasing u us

-- What the schedules rely on of `croniter`: `get_next` answers later moments only, and a line of a
-- preset whose values are in cron's ranges has a next moment.
pub record Croniter (get_next : Text → ℕ → Option ℕ) : Type 0 where
  pub later : (e : Text) (after t : ℕ) → get_next e after ≡ some t → after < t
  pub recurs :
      (p : Preset)
      → in_range p ≡ true
      → (after : ℕ) → (t : ℕ) × (get_next (preset_line p) after ≡ some t)

abbrev pub all_after : ℕ → List ℕ → Bool
all_after after ts = all (λ t. ltb after t) ts

earliest-all_after :
    (after t : ℕ) (ts : List ℕ) → after < t → all_after after ts ≡ true → after < earliest t ts
unfolding earliest all
earliest-all_after after t [] h a = h
earliest-all_after after t (u ∷ us) h a =
    earliest-all_after after (min t u) us (ground arith) (ground arith)

module _ (get_next : Text → ℕ → Option ℕ) (cron : Croniter get_next) where
  cons_fire-all_after :
      (c : Text) (after : ℕ) (o : Option ℕ) (r : Option (List ℕ)) (ts : List ℕ)
      → get_next c after ≡ o
      → ((us : List ℕ) → r ≡ some us → all_after after us ≡ true)
      → cons_fire o r ≡ some ts
      → all_after after ts ≡ true
  unfolding cons_fire all
  cons_fire-all_after c after (some t) (some us) ts e ih h =
      ground (arith, h, cron.later c after t, ih us refl)
  cons_fire-all_after c after _ _ ts e ih h = cc

  fires-all_after :
      (cs : List Text) (after : ℕ) (ts : List ℕ)
      → fires get_next cs after ≡ some ts
      → all_after after ts ≡ true
  unfolding fires
  fires-all_after [] after ts h = unfold all in ground (arith, h)
  fires-all_after (c ∷ cs) after ts h =
      cons_fire-all_after c after (get_next c after) (fires get_next cs after) ts refl
        (fires-all_after cs after) h

  min_or_none-later :
      (cs : List Text) (after : ℕ) (o : Option (List ℕ)) (t : ℕ)
      → fires get_next cs after ≡ o
      → min_or_none o ≡ some t
      → after < t
  unfolding min_or_none all
  min_or_none-later cs after (some (u ∷ us)) t e h =
      ground (arith, h, fires-all_after cs after (u ∷ us) e, earliest-all_after after u us)
  min_or_none-later cs after _ t e h = cc

  fire_of-later :
      (o : Option (List Text)) (after t : ℕ) → fire_of get_next o after ≡ some t → after < t
  unfolding fire_of
  fire_of-later none after t h = cc
  fire_of-later (some cs) after t h = min_or_none-later cs after (fires get_next cs after) t refl h

  pub next_fire-later :
      (o : Option Schedule) (after t : ℕ) → next_fire get_next o after ≡ some t → after < t
  unfolding next_fire
  next_fire-later none after t h = cc
  next_fire-later (some s) after t h = ground (arith, h, fire_of-later (to_crons s) after t)

  presets_fire :
      (ps : List Preset) (after : ℕ)
      → all in_range ps ≡ true
      → (ts : List ℕ) × (fires get_next (map preset_line ps) after ≡ some ts)
  unfolding fires cons_fire all
  presets_fire [] after h = ([], refl)
  presets_fire (p ∷ ps) after h =
      let (t, e) = cron.recurs p (ground arith) after in
      let (ts, es) = presets_fire ps after (ground arith) in (t ∷ ts, rw (e, es) refl)

  presets_earliest :
      (p : Preset) (ps : List Preset) (after : ℕ)
      → all in_range (p ∷ ps) ≡ true
      → (t : ℕ) × (fire_of get_next (some (map preset_line (p ∷ ps))) after ≡ some t)
  unfolding fire_of fires cons_fire min_or_none all
  presets_earliest p ps after h =
      let (t, e) = cron.recurs p (ground arith) after in
      let (ts, es) = presets_fire ps after (ground arith) in (earliest t ts, rw (e, es) refl)

  HasPresets-fires :
      (s : Schedule) (after : ℕ)
      → HasPresets (to_crons s)
      → s.enabled ≡ true
      → (t : ℕ) × (next_fire get_next (some s) after ≡ some t)
  unfolding next_fire
  HasPresets-fires s after (p, ps, e, r) on = rw (e, on) (presets_earliest p ps after r)

  -- When `croniter` answers later moments only and has a next moment for every preset line in
  -- range: whatever the settings hold, if the schedule that they give is enabled and is no
  -- expression of the administrator's, it has a next moment after every moment.
  pub settings_fire :
      (is_valid : Text → Bool) (stg : Settings) (after : ℕ)
      → (schedule_from_settings is_valid stg).mode ≢ by_cron
      → (schedule_from_settings is_valid stg).enabled ≡ true
      → (t : ℕ) × (next_fire get_next (some (schedule_from_settings is_valid stg)) after ≡ some t)
        × after < t
  settings_fire is_valid stg after n on =
      let s = schedule_from_settings is_valid stg in
      let (t, e) = HasPresets-fires s after (settings-HasPresets is_valid stg n) on in
      (t, e, next_fire-later (some s) after t e)

  due_now-later :
      (o : Option ℕ) (now later : ℕ) → now ≤ later → reached o now ≡ true → reached o later ≡ true
  unfolding reached
  due_now-later none now later h r = cc
  due_now-later (some t) now later h r = ground arith

  pub not_reached :
      (o : Option ℕ) (now : ℕ) → ((t : ℕ) → o ≡ some t → now < t) → reached o now ≡ false
  unfolding reached
  not_reached none now h = refl
  not_reached (some t) now h = ground (arith, h t refl)

  -- When `croniter` answers later moments only: a schedule that is due stays due however long the
  -- program is down, and once a moment at or after is recorded as the last one it is not due at
  -- that moment.
  pub missed_fire_runs_once :
      (s : Option Schedule) (fired now later : ℕ)
      → due_now get_next s (some fired) now ≡ true
      → now ≤ later
      → (due_now get_next s (some fired) later ≡ true)
        × (due_now get_next s (some later) later ≡ false)
  unfolding due_now
  missed_fire_runs_once s fired now later d h = (
    due_now-later (next_fire get_next s fired) now later h d,
    not_reached (next_fire get_next s later) later (λ t. next_fire-later s later t),
  )

  preview-next :
      (o : Option Schedule) (now t n : ℕ)
      → next_fire get_next o now ≡ some t
      → preview get_next o now (suc n) ≡ t ∷ preview get_next o t n
  unfolding preview
  preview-next o now t n e = rw (e, preview) refl

  -- The preview of an enabled schedule that is no expression of the administrator's shows as many
  -- moments as are asked for, each after the one before and all after the start.
  pub preview_is_full :
      (is_valid : Text → Bool) (stg : Settings) (n now : ℕ)
      → (schedule_from_settings is_valid stg).mode ≢ by_cron
      → (schedule_from_settings is_valid stg).enabled ≡ true
      → (length (preview get_next (some (schedule_from_settings is_valid stg)) now n) ≡ n)
        × (increasing now (preview get_next (some (schedule_from_settings is_valid stg)) now n)
            ≡ true)
  unfolding preview increasing
  preview_is_full is_valid stg zero now m on = (refl, refl)
  preview_is_full is_valid stg (suc n) now m on =
      let (t, e, l) = settings_fire is_valid stg now m on in
      let (a, b) = preview_is_full is_valid stg n t m on in
      rw (preview-next (some (schedule_from_settings is_valid stg)) now t n e)
        (omega (arith, a), ground (arith, b, l))
