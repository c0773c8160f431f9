-- ===== src/Schedules/Values.antt =====
-- schedule_utils.py: reading the numbers, the mode and the time of a schedule. Digits are the ASCII ones.
use pdc_client.Base.{
  ℕ, zero, suc, ◌+◌, ◌-◌, ◌*◌, ◌/◌, ◌%◌, Bool, true, false, not, ◌&&◌, ◌||◌, Option, none, some, [],
  ◌∷◌, ◌++◌, leb, ◌==◌, if◌then◌else◌, Text, nat_Eq, text_Eq, pair_Eq, str_eq,
}
use pdc_client.Base.Lists.{is_nil}
use pdc_client.Base.Ids.{chomp}
use pdc_client.Base.Strings.{codes, fold_case, strip}
use pdc_client.Schedules.{
  ℤ, pos, negsuc, Scalar, null, flag, number, text, other, Field, one, items, Mode, daily, weekly,
  monthly, interval, by_cron, bad_time, Result, ok, refused,
}

-- `bool(value)`
unfoldable pub truthy : Field → Bool
truthy (one null) = false
truthy (one (flag b)) = b
truthy (one (number (pos zero))) = false
truthy (one (number _)) = true
truthy (one (text s)) = not (is_nil s)
truthy (one other) = true
truthy (items xs) = not (is_nil xs)

unfoldable pub is_digit : ℕ → Bool
is_digit c = leb b'0' c && leb c b'9'

-- The digits of `int(text)`, with single underscores between them.
digits_value : ℕ → Text → Option ℕ
digits_value acc [] = some acc
digits_value acc (c ∷ []) = if is_digit c then some (acc * 10 + (c - b'0')) else none
digits_value acc (c ∷ d ∷ s) =
    let next = digits_value (acc * 10 + (c - b'0')) (d ∷ s) in
    let under = digits_value (acc * 10 + (c - b'0')) s in
    if is_digit c then (if d == b'_' && not (is_nil s) then under else next) else none

unsigned : Text → Option ℕ
unsigned s = if is_nil s then none else digits_value 0 s

negated : ℕ → ℤ
negated zero = pos zero
negated (suc n) = negsuc n

with_sign : (ℕ → ℤ) → Option ℕ → Option ℤ
with_sign f none = none
with_sign f (some n) = some (f n)

signed : Text → Option ℤ
signed [] = none
signed (c ∷ s) =
    if c == b'-'
    then with_sign negated (unsigned s)
    else if c == b'+'
    then with_sign pos (unsigned s)
    else with_sign pos (unsigned (c ∷ s))

-- `int(value)`; `none` is the exception.
unfoldable pub int_of : Scalar → Option ℤ
unfolding digits_value unsigned negated with_sign signed
int_of null = none
int_of (flag b) = some (pos (if b then 1 else 0))
int_of (number n) = some n
int_of (text s) = signed (strip s)
int_of other = none

unfoldable pub field_int : Field → Option ℤ
field_int (one v) = int_of v
field_int (items xs) = none

-- `str(obj.get("mode") or "").strip().lower() in VALID_MODES`
unfoldable pub parse_mode : Text → Option Mode
parse_mode s =
    if str_eq s (codes "daily")
    then some daily
    else if str_eq s (codes "weekly")
    then some weekly
    else if str_eq s (codes "monthly")
    then some monthly
    else if str_eq s (codes "interval")
    then some interval
    else if str_eq s (codes "cron")
    then some by_cron
    else none

unfoldable pub mode_of : Field → Option Mode
mode_of (one (text s)) = parse_mode (fold_case s)
mode_of _ = none

-- `_TIME_RE`: [01]\d or 2[0-3], a colon, [0-5]\d
unfoldable pub time_digits : ℕ → ℕ → ℕ → ℕ → ℕ → Option (ℕ × ℕ)
time_digits a b k c d =
    if (leb b'0' a && leb a b'1' && is_digit b || a == b'2' && leb b'0' b && leb b b'3')
      && k == b':'
      && leb b'0' c
      && leb c b'5'
      && is_digit d
    then some ((a - b'0') * 10 + (b - b'0'), (c - b'0') * 10 + (d - b'0'))
    else none

unfoldable pub five_chars : Text → Option (ℕ × ℕ)
five_chars (a ∷ b ∷ k ∷ c ∷ d ∷ []) = time_digits a b k c d
five_chars _ = none

unfoldable pub parse_time : Text → Option (ℕ × ℕ)
unfolding chomp five_chars time_digits
parse_time s = five_chars (chomp s)

-- `{n:02d}`, for numbers under 100
abbrev pub two_digits : ℕ → Text
two_digits n = (b'0' + n / 10) ∷ (b'0' + n % 10) ∷ []

unfoldable pub show_time : ℕ × ℕ → Text
show_time (h, m) = two_digits h ++ b':' ∷ two_digits m

-- `obj.get("time") or "00:00"`, then the time in its canonical form
unfoldable pub time_text : Field → Option Text
time_text (one (text s)) = some (if is_nil s then codes "00:00" else s)
time_text f = if truthy f then none else some (codes "00:00")

unfoldable pub canonical : Option (ℕ × ℕ) → Result Text
canonical none = refused bad_time
canonical (some t) = ok (show_time t)

unfoldable pub time_or_refused : Option Text → Result Text
time_or_refused none = refused bad_time
time_or_refused (some s) = canonical (parse_time s)

unfoldable pub read_time : Field → Result Text
unfolding canonical time_or_refused time_text
read_time f = time_or_refused (time_text f)
