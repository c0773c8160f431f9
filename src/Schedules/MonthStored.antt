-- ===== src/Schedules/MonthStored.antt =====
-- schedule_utils.py: the days of a monthly schedule that are read again as they were stored.
use pdc_client.Base.{
  ℕ, ◌≡◌, refl, sym, ap, ◌∙◌, Bool, true, false, List, [], ◌∷◌, ◌++◌, map, arith, if◌then◌else◌,
  nat_Eq, text_Eq, pair_Eq, str_eq,
}
use pdc_client.Base.Lists.{elem, distinct, all, is_nil}
use pdc_client.Base.Strings.{codes, strip, lower, lower_char, is_space}
use pdc_client.Schedules.{pos, Scalar, number, text, items, MonthDay, day, last, ok}
use pdc_client.Schedules.Values.{int_of}
use pdc_client.Schedules.Validate.{
  is_last, month_number, month_step, collect_month_days, read_month_days, sorted, numbers, has_last,
  sorted_days,
}
use pdc_client.Schedules.Sorted.{distinct-sorted, all-sorted}
use pdc_client.Schedules.Days.{day_fields, distinct-elem, append_nil, concat_one}
use pdc_client.Schedules.MonthDays.{
  in_every_month, some_month_days, numbers-days, has_last-days, map-days, IsMonth,
}

-- The days as they are stored.
unfoldable pub month_fields : List MonthDay → List Scalar
month_fields [] = []
month_fields (day d ∷ ds) = number (pos d) ∷ month_fields ds
month_fields (last ∷ ds) = text (codes "last") ∷ month_fields ds

month_fields-days :
    (ns : List ℕ) (ds : List MonthDay)
    → month_fields (map day ns ++ ds) ≡ day_fields ns ++ month_fields ds
unfolding month_fields
month_fields-days [] ds = refl
month_fields-days (n ∷ ns) ds = ap (number (pos n) ∷◌) (month_fields-days ns ds)

last_is_last : is_last (text (codes "last")) ≡ true
unfolding is_last strip lower lower_char is_space str_eq
last_is_last = refl

next_day :
    (d : ℕ) (xs : List ℕ)
    → in_every_month d ≡ true
    → elem d xs ≡ false
    → month_step (number (pos d)) (map day xs) ≡ ok (map day (xs ++ d ∷ []))
unfolding month_step month_number is_last int_of
next_day d xs h n = rw (numbers-days xs, map-days xs (d ∷ [])) (ground arith)

next_last :
    (xs : List ℕ) → month_step (text (codes "last")) (map day xs) ≡ ok (map day xs ++ last ∷ [])
unfolding month_step
next_last xs = rw (last_is_last, has_last-days xs) refl

-- Days that are collected again.
collect-day_fields :
    (ns xs : List ℕ) (vs : List Scalar)
    → distinct (xs ++ ns) ≡ true
    → all in_every_month ns ≡ true
    → collect_month_days (day_fields ns ++ vs) (map day xs)
      ≡ collect_month_days vs (map day (xs ++ ns))
unfolding collect_month_days all
collect-day_fields [] xs vs h b = rw (append_nil xs) refl
collect-day_fields (n ∷ ns) xs vs h b =
    rw (next_day n xs (ground arith) (distinct-elem n xs ns h)) (
      collect-day_fields ns (xs ++ n ∷ []) vs (rw (concat_one n xs ns) h) (ground arith)
      ∙ ap (λ l. collect_month_days vs (map day l)) (concat_one n xs ns))

collect-last :
    (b : Bool) (xs : List ℕ)
    → collect_month_days (month_fields (if b then last ∷ [] else [])) (map day xs)
      ≡ ok (map day xs ++ (if b then last ∷ [] else []))
unfolding collect_month_days month_fields
collect-last true xs = rw (next_last xs) refl
collect-last false xs = ap ok (sym (append_nil (map day xs)))

is_nil-month_fields : (ds : List MonthDay) → is_nil (month_fields ds) ≡ is_nil ds
unfolding month_fields
is_nil-month_fields [] = refl
is_nil-month_fields (day d ∷ ds) = refl
is_nil-month_fields (last ∷ ds) = refl

read_items :
    (vs : List Scalar) (ds : List MonthDay)
    → is_nil vs ≡ false
    → collect_month_days vs [] ≡ ok ds
    → read_month_days (items vs) ≡ ok (sorted_days ds)
unfolding read_month_days
read_items [] ds n h = cc
read_items (v ∷ vs) ds n h = rw h refl

collect-shape :
    (ns : List ℕ) (b : Bool)
    → distinct ns ≡ true
    → all in_every_month ns ≡ true
    → collect_month_days (month_fields (map day ns ++ (if b then last ∷ [] else []))) []
      ≡ ok (map day ns ++ (if b then last ∷ [] else []))
collect-shape ns b h i =
    rw (month_fields-days ns (if b then last ∷ [] else [])) (
      collect-day_fields ns [] (month_fields (if b then last ∷ [] else [])) h i ∙ collect-last b ns)

collect_again :
    (ds : List MonthDay)
    → some_month_days ds ≡ true
    → collect_month_days (month_fields (sorted_days ds)) [] ≡ ok (sorted_days ds)
unfolding sorted_days
collect_again ds h =
    collect-shape (sorted (numbers ds)) (has_last ds)
      (ground (arith, h, distinct-sorted (numbers ds)))
      (ground (arith, h, all-sorted in_every_month (numbers ds)))

pub read_again :
    (ds : List MonthDay) → IsMonth ds → read_month_days (items (month_fields ds)) ≡ ok ds
read_again ds (good, same) =
    read_items (month_fields ds) ds (ground (arith, good, is_nil-month_fields ds)) (
      ap (λ l. collect_month_days (month_fields l) []) (sym same)
      ∙ collect_again ds good
      ∙ ap ok same)
    ∙ ap ok same
