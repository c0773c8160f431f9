-- ===== src/Schedules/Days.antt =====
-- schedule_utils.py: the days of a weekly and of a monthly schedule.
use pdc_client.Base.{
  ℕ, ◌≡◌, refl, sym, ap, ◌∙◌, Bool, true, false, not, ◌&&◌, Option, some, List, [], ◌∷◌, ◌++◌, map,
  arith, leb, ==_iff, nat_Eq, text_Eq, pair_Eq,
}
use pdc_client.Base.Lists.{
  elem, add_new, distinct, all, is_nil, elem-append, all-append, distinct-concat,
}
use pdc_client.Schedules.{ℤ, pos, Scalar, number, Field, items, Result, ok, refused, and_then}
use pdc_client.Schedules.Values.{int_of}
use pdc_client.Schedules.Validate.{weekday_step, collect_weekdays, read_weekdays, sorted}
use pdc_client.Schedules.Sorted.{sorted_idem, distinct-sorted, all-sorted, is_nil-sorted}

pub and_then-cases {ℓ κ} :
    {A : Type ℓ} {B : Type κ} (r : Result A) (f : A → Result B) (b : B)
    → and_then r f ≡ ok b
    → (a : A) × (r ≡ ok a) × (f a ≡ ok b)
and_then-cases (ok a) f b h = (a, refl, h)
and_then-cases (refused e) f b h = cc

-- Days of the week, each once.
abbrev pub are_weekdays : List ℕ → Bool
are_weekdays ds = distinct ds && all (λ d. leb d 6) ds

is_nil-append_one : (d : ℕ) (ds : List ℕ) → is_nil (ds ++ d ∷ []) ≡ false
is_nil-append_one d [] = refl
is_nil-append_one d (x ∷ ds) = refl

elem_nil : (d : ℕ) (ds : List ℕ) → elem d ds ≡ true → is_nil ds ≡ false
unfolding elem
elem_nil d [] h = cc
elem_nil d (x ∷ ds) h = refl

add_new-are_weekdays :
    (d : ℕ) (ds : List ℕ)
    → leb d 6 ≡ true
    → are_weekdays ds ≡ true
    → are_weekdays (add_new d ds) && not (is_nil (add_new d ds)) ≡ true
unfolding all
add_new-are_weekdays d ds b h = ground (
  arith,
  distinct-concat d ds,
  all-append (λ n. leb n 6) ds (d ∷ []),
  is_nil-append_one d ds,
  elem_nil d ds,
)

-- The days collected so far, when there is one.
abbrev pub some_weekdays : List ℕ → Bool
some_weekdays ds = are_weekdays ds && not (is_nil ds)

weekday_step-some_weekdays :
    (n : Option ℤ) (ds es : List ℕ)
    → are_weekdays ds ≡ true
    → weekday_step n ds ≡ ok es
    → some_weekdays es ≡ true
unfolding weekday_step
weekday_step-some_weekdays (some (pos d)) ds es h e =
    ground (arith, e, h, add_new-are_weekdays d ds)
weekday_step-some_weekdays _ ds es h e = cc

collect_weekdays-some_weekdays :
    (vs : List Scalar) (ds es : List ℕ)
    → some_weekdays ds ≡ true
    → collect_weekdays vs ds ≡ ok es
    → some_weekdays es ≡ true
unfolding collect_weekdays
collect_weekdays-some_weekdays [] ds es h e = ground (arith, h, e)
collect_weekdays-some_weekdays (v ∷ vs) ds es h e =
    let (fs, p, q) = and_then-cases (weekday_step (int_of v) ds) (collect_weekdays vs) es e in
    collect_weekdays-some_weekdays vs fs es
      (weekday_step-some_weekdays (int_of v) ds fs (ground arith) p) q

some_weekdays-sorted : (ds : List ℕ) → some_weekdays ds ≡ true → some_weekdays (sorted ds) ≡ true
some_weekdays-sorted ds h =
    ground (arith, h, distinct-sorted ds, all-sorted (λ d. leb d 6) ds, is_nil-sorted ds)

abbrev pub day_fields : List ℕ → List Scalar
day_fields ds = map (λ d. number (pos d)) ds

pub concat_one {ℓ} : {A : Type ℓ} (a : A) (xs ys : List A) → (xs ++ a ∷ []) ++ ys ≡ xs ++ a ∷ ys
concat_one a [] ys = refl
concat_one a (x ∷ xs) ys = ap (x ∷◌) (concat_one a xs ys)

pub distinct-elem : (d : ℕ) (acc ds : List ℕ) → distinct (acc ++ d ∷ ds) ≡ true → elem d acc ≡ false
unfolding distinct elem
distinct-elem d [] ds h = refl
distinct-elem d (x ∷ acc) ds h =
    ground (arith, distinct-elem d acc ds, elem-append x acc (d ∷ ds), ==_iff d x)

pub append_nil {ℓ} : {A : Type ℓ} (xs : List A) → xs ++ [] ≡ xs
append_nil [] = refl
append_nil (x ∷ xs) = ap (x ∷◌) (append_nil xs)

next_weekday :
    (d : ℕ) (acc : List ℕ)
    → leb d 6 ≡ true
    → elem d acc ≡ false
    → weekday_step (some (pos d)) acc ≡ ok (acc ++ d ∷ [])
unfolding weekday_step
next_weekday d acc h n = ground arith

-- Days that are collected again.
collect_weekdays-day_fields :
    (ds acc : List ℕ)
    → distinct (acc ++ ds) ≡ true
    → all (λ d. leb d 6) ds ≡ true
    → collect_weekdays (day_fields ds) acc ≡ ok (acc ++ ds)
unfolding collect_weekdays int_of all
collect_weekdays-day_fields [] acc h b = ap ok (sym (append_nil acc))
collect_weekdays-day_fields (d ∷ ds) acc h b =
    rw (next_weekday d acc (ground arith) (distinct-elem d acc ds h)) (
      collect_weekdays-day_fields ds (acc ++ d ∷ []) (rw (concat_one d acc ds) h) (ground arith)
      ∙ ap ok (concat_one d acc ds))

no_days : are_weekdays [] ≡ true
unfolding distinct all
no_days = refl

pub ok_value {ℓ} : {A : Type ℓ} {a b : A} → ok a ≡ ok b → a ≡ b
ok_value h = cc

-- The days of an accepted weekly schedule: at least one, each once, from 0 to 6, and in order.
abbrev pub IsWeek : List ℕ → Type 0
IsWeek ds = (some_weekdays ds ≡ true) × (sorted ds ≡ ds)

pub read_again : (ds : List ℕ) → IsWeek ds → read_weekdays (items (day_fields ds)) ≡ ok ds
unfolding read_weekdays
read_again [] (h, e) = cc (h, no_days)
read_again (d ∷ ds) (h, e) =
    rw (collect_weekdays-day_fields (d ∷ ds) [] (ground (arith, h)) (ground (arith, h))) (ap ok e)

pub read_weekdays-IsWeek : (f : Field) (ds : List ℕ) → read_weekdays f ≡ ok ds → IsWeek ds
unfolding read_weekdays collect_weekdays
read_weekdays-IsWeek (items (v ∷ vs)) ds h =
    let (es, p, q) = and_then-cases (collect_weekdays (v ∷ vs) []) (λ xs. ok (sorted xs)) ds h in
    let (fs, p1, p2) = and_then-cases (weekday_step (int_of v) []) (collect_weekdays vs) es p in
    let good =
      collect_weekdays-some_weekdays vs fs es
        (weekday_step-some_weekdays (int_of v) [] fs no_days p1) p2 in
    rw (sym (ok_value q)) (some_weekdays-sorted es good, sorted_idem es)
read_weekdays-IsWeek _ ds h = cc
