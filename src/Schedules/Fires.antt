-- ===== src/Schedules/Fires.antt =====
-- schedule_utils.py, `next_fire`, `due_now` and `preview`. A moment is a number; `get_next` is
-- `croniter(expression, after).get_next(datetime)`, `none` when it raises.
use pdc_client.Base.{
  ℕ, zero, suc, min, Bool, false, Option, none, some, List, [], ◌∷◌, leb, if◌then◌else◌, Text,
  nat_Eq, text_Eq, pair_Eq,
}
use pdc_client.Schedules.{Schedule}
use pdc_client.Schedules.Crons.{to_crons}

unfoldable pub cons_fire : Option ℕ → Option (List ℕ) → Option (List ℕ)
cons_fire (some t) (some ts) = some (t ∷ ts)
cons_fire _ _ = none

-- `min(fires)`
unfoldable pub earliest : ℕ → List ℕ → ℕ
earliest t [] = t
earliest t (u ∷ us) = earliest (min t u) us

unfoldable pub min_or_none : Option (List ℕ) → Option ℕ
min_or_none (some (t ∷ ts)) = some (earliest t ts)
min_or_none _ = none

unfoldable pub reached : Option ℕ → ℕ → Bool
reached none now = false
reached (some t) now = leb t now

module _ (get_next : Text → ℕ → Option ℕ) where
  unfoldable pub fires : List Text → ℕ → Option (List ℕ)
  fires [] after = some []
  fires (c ∷ cs) after = cons_fire (get_next c after) (fires cs after)

  unfoldable pub fire_of : Option (List Text) → ℕ → Option ℕ
  fire_of none after = none
  fire_of (some cs) after = min_or_none (fires cs after)

  unfoldable pub next_fire : Option Schedule → ℕ → Option ℕ
  next_fire none after = none
  next_fire (some s) after = if s.enabled then fire_of (to_crons s) after else none

  unfoldable pub due_now : Option Schedule → Option ℕ → ℕ → Bool
  due_now s none now = false
  due_now s (some fired) now = reached (next_fire s fired) now

  unfoldable pub preview : Option Schedule → ℕ → ℕ → List ℕ
  preview s now zero = []
  preview s now (suc n) = elim (next_fire s now) [ none ↦ [] | some t ↦ t ∷ preview s t n ]
