-- ===== src/Schedules/MonthDays.antt =====
-- schedule_utils.py: the days of a monthly schedule.
use pdc_client.Base.{
  ℕ, ◌≡◌, refl, sym, ap, ◌∙◌, Bool, true, false, not, ◌&&◌, ◌||◌, Option, some, List, [], ◌∷◌, ◌++◌,
  map, arith, leb, if◌then◌else◌, nat_Eq, text_Eq, pair_Eq,
}
use pdc_client.Base.Lists.{elem, distinct, all, is_nil, all-append, distinct-concat}
use pdc_client.Schedules.{ℤ, pos, Scalar, Field, items, MonthDay, day, last, ok}
use pdc_client.Schedules.Values.{int_of}
use pdc_client.Schedules.Validate.{
  month_number, month_step, collect_month_days, read_month_days, sorted, numbers, has_last,
  sorted_days,
}
use pdc_client.Schedules.Sorted.{sorted_idem, distinct-sorted, all-sorted, is_nil-sorted}
use pdc_client.Schedules.Days.{and_then-cases, ok_value, append_nil}

abbrev pub in_every_month : ℕ → Bool
in_every_month d = leb 1 d && leb d 28

-- Days of the month that every month has, each once.
abbrev pub are_month_days : List MonthDay → Bool
are_month_days ds = distinct (numbers ds) && all in_every_month (numbers ds)

abbrev pub some_month_days : List MonthDay → Bool
some_month_days ds = are_month_days ds && not (is_nil ds)

numbers-append : (ds es : List MonthDay) → numbers (ds ++ es) ≡ numbers ds ++ numbers es
unfolding numbers
numbers-append [] es = refl
numbers-append (day d ∷ ds) es = ap (d ∷◌) (numbers-append ds es)
numbers-append (last ∷ ds) es = numbers-append ds es

has_last-append : (ds es : List MonthDay) → has_last (ds ++ es) ≡ (has_last ds || has_last es)
unfolding has_last
has_last-append [] es = refl
has_last-append (day d ∷ ds) es = has_last-append ds es
has_last-append (last ∷ ds) es = refl

is_nil-append_one : (d : MonthDay) (ds : List MonthDay) → is_nil (ds ++ d ∷ []) ≡ false
is_nil-append_one d [] = refl
is_nil-append_one d (x ∷ ds) = refl

has_last_nil : (ds : List MonthDay) → has_last ds ≡ true → is_nil ds ≡ false
unfolding has_last
has_last_nil [] h = cc
has_last_nil (x ∷ ds) h = refl

numbers_nil : (d : ℕ) (ds : List MonthDay) → elem d (numbers ds) ≡ true → is_nil ds ≡ false
unfolding elem numbers
numbers_nil d [] h = cc
numbers_nil d (x ∷ ds) h = refl

last-some_month_days :
    (ds : List MonthDay)
    → are_month_days ds ≡ true
    → some_month_days (if has_last ds then ds else ds ++ last ∷ []) ≡ true
unfolding numbers
last-some_month_days ds h = ground (
  arith,
  has_last_nil ds,
  is_nil-append_one last ds,
  numbers-append ds (last ∷ []),
  append_nil (numbers ds),
)

day-some_month_days :
    (d : ℕ) (ds : List MonthDay)
    → are_month_days ds ≡ true
    → in_every_month d ≡ true
    → some_month_days (if elem d (numbers ds) then ds else ds ++ day d ∷ []) ≡ true
unfolding numbers all
day-some_month_days d ds h b = ground (
  arith,
  numbers_nil d ds,
  is_nil-append_one (day d) ds,
  numbers-append ds (day d ∷ []),
  distinct-concat d (numbers ds),
  all-append in_every_month (numbers ds) (d ∷ []),
)

month_number-some_month_days :
    (n : Option ℤ) (ds es : List MonthDay)
    → are_month_days ds ≡ true
    → month_number n ds ≡ ok es
    → some_month_days es ≡ true
unfolding month_number
month_number-some_month_days (some (pos d)) ds es h e =
    ground (arith, e, h, day-some_month_days d ds)
month_number-some_month_days _ ds es h e = cc

month_step-some_month_days :
    (v : Scalar) (ds es : List MonthDay)
    → are_month_days ds ≡ true
    → month_step v ds ≡ ok es
    → some_month_days es ≡ true
unfolding month_step
month_step-some_month_days v ds es h e =
    ground (arith, e, h, last-some_month_days ds, month_number-some_month_days (int_of v) ds es)

collect-some_month_days :
    (vs : List Scalar) (ds es : List MonthDay)
    → some_month_days ds ≡ true
    → collect_month_days vs ds ≡ ok es
    → some_month_days es ≡ true
unfolding collect_month_days
collect-some_month_days [] ds es h e = ground (arith, h, e)
collect-some_month_days (v ∷ vs) ds es h e =
    let (fs, p, q) = and_then-cases (month_step v ds) (collect_month_days vs) es e in
    collect-some_month_days vs fs es (month_step-some_month_days v ds fs (ground arith) p) q

pub numbers-days : (ns : List ℕ) → numbers (map day ns) ≡ ns
unfolding numbers
numbers-days [] = refl
numbers-days (n ∷ ns) = ap (n ∷◌) (numbers-days ns)

pub has_last-days : (ns : List ℕ) → has_last (map day ns) ≡ false
unfolding has_last
has_last-days [] = refl
has_last-days (n ∷ ns) = has_last-days ns

pub map-days : (ns ms : List ℕ) → map day (ns ++ ms) ≡ map day ns ++ map day ms
map-days [] ms = refl
map-days (n ∷ ns) ms = ap (day n ∷◌) (map-days ns ms)

sorted_days_shape :
    (ns : List ℕ) (b : Bool)
    → sorted_days (map day ns ++ (if b then last ∷ [] else []))
      ≡ map day (sorted ns) ++ (if b then last ∷ [] else [])
unfolding sorted_days numbers has_last
sorted_days_shape ns true =
    rw
      (
        numbers-append (map day ns) (last ∷ []),
        has_last-append (map day ns) (last ∷ []),
        numbers-days ns,
        has_last-days ns,
        append_nil ns,
      )
      refl
sorted_days_shape ns false =
    rw
      (append_nil (map day ns), numbers-days ns, has_last-days ns, append_nil (map day (sorted ns)))
      refl

sorted_days_idem : (ds : List MonthDay) → sorted_days (sorted_days ds) ≡ sorted_days ds
sorted_days_idem ds =
    unfold sorted_days in
    sorted_days_shape (sorted (numbers ds)) (has_last ds) ∙ rw (sorted_idem (numbers ds)) refl

numbers-shape :
    (ns : List ℕ) (b : Bool) → numbers (map day ns ++ (if b then last ∷ [] else [])) ≡ ns
unfolding numbers
numbers-shape ns true =
    rw (numbers-append (map day ns) (last ∷ []), numbers-days ns) (append_nil ns)
numbers-shape ns false = rw (append_nil (map day ns)) (numbers-days ns)

numbers-sorted_days : (ds : List MonthDay) → numbers (sorted_days ds) ≡ sorted (numbers ds)
unfolding sorted_days
numbers-sorted_days ds = numbers-shape (sorted (numbers ds)) (has_last ds)

pub has_day_or_last :
    (ds : List MonthDay) → is_nil ds ≡ false → not (is_nil (numbers ds)) || has_last ds ≡ true
unfolding numbers has_last
has_day_or_last [] h = cc
has_day_or_last (day d ∷ ds) h = refl
has_day_or_last (last ∷ ds) h = ground arith

is_nil-shape :
    (ns : List ℕ) (b : Bool)
    → not (is_nil ns) || b ≡ true
    → is_nil (map day ns ++ (if b then last ∷ [] else [])) ≡ false
is_nil-shape [] true h = refl
is_nil-shape [] false h = cc
is_nil-shape (n ∷ ns) b h = refl

is_nil-sorted_days :
    (ds : List MonthDay)
    → not (is_nil (numbers ds)) || has_last ds ≡ true
    → is_nil (sorted_days ds) ≡ false
unfolding sorted_days
is_nil-sorted_days ds h =
    is_nil-shape (sorted (numbers ds)) (has_last ds) (rw (is_nil-sorted (numbers ds)) h)

some_month_days-sorted_days :
    (ds : List MonthDay) → some_month_days ds ≡ true → some_month_days (sorted_days ds) ≡ true
some_month_days-sorted_days ds h = ground (
  arith,
  h,
  numbers-sorted_days ds,
  distinct-sorted (numbers ds),
  all-sorted in_every_month (numbers ds),
  is_nil-sorted_days ds,
  has_day_or_last ds,
)

-- The days of an accepted monthly schedule: in order, the last one at the end.
abbrev pub IsMonth : List MonthDay → Type 0
IsMonth ds = (some_month_days ds ≡ true) × (sorted_days ds ≡ ds)

no_month_days : are_month_days [] ≡ true
unfolding distinct all numbers
no_month_days = refl

pub read_month_days-IsMonth :
    (f : Field) (ds : List MonthDay) → read_month_days f ≡ ok ds → IsMonth ds
unfolding read_month_days collect_month_days
read_month_days-IsMonth (items (v ∷ vs)) ds h =
    let (es, p, q) =
      and_then-cases (collect_month_days (v ∷ vs) []) (λ xs. ok (sorted_days xs)) ds h in
    let (fs, p1, p2) = and_then-cases (month_step v []) (collect_month_days vs) es p in
    let first = month_step-some_month_days v [] fs no_month_days p1 in
    let good = collect-some_month_days vs fs es first p2 in
    rw (sym (ok_value q)) (some_month_days-sorted_days es good, sorted_days_idem es)
read_month_days-IsMonth _ ds h = cc
