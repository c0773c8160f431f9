-- ===== src/Base/Strings.antt =====
-- Python text as a list of code points, with the string methods that the program calls.
use Prim.Native.Nat.{ℕ, ◌+◌}
use Prim.Native.Char.{code}
use Prim.Native.String.{String}
use mathlib.Core.Path.{◌≡◌, refl}
use mathlib.Core.Bool.{Bool, ◌&&◌, ◌||◌}
use mathlib.Core.List.{[], ◌∷◌, map}
use native.Mathlib.Omega.{arith}
use pdc_client.Base.Bools.{leb, ◌==◌, if◌then◌else◌}
use pdc_client.Base.Lists.{is_nil}
use pdc_client.Base.Keys.{Text}

abbrev pub codes : String → Text
codes String.[] = []
codes (String.◌∷◌ c s) = code c ∷ codes s

-- What `str.strip()` removes: the characters for which `str.isspace()` holds.
unfoldable pub is_space : ℕ → Bool
is_space c =
    leb 9 c && leb c 13
    || leb 28 c && leb c 32
    || c == 0x85
    || c == 0xa0
    || c == 0x1680
    || leb 0x2000 c && leb c 0x200a
    || c == 0x2028
    || c == 0x2029
    || c == 0x202f
    || c == 0x205f
    || c == 0x3000

-- `str.lower()` on one character; the mapping is the ASCII one.
unfoldable pub lower_char : ℕ → ℕ
lower_char c = if leb b'A' c && leb c b'Z' then c + 32 else c

unfoldable pub lower : Text → Text
unfolding lower_char
lower [] = []
lower (c ∷ s) = lower_char c ∷ lower s

lstrip : Text → Text
lstrip [] = []
lstrip (c ∷ s) = if is_space c then lstrip s else c ∷ s

rstrip : Text → Text
rstrip [] = []
rstrip (c ∷ s) = let rest = rstrip s in if is_space c && is_nil rest then [] else c ∷ rest

unfoldable pub strip : Text → Text
unfolding is_space lstrip rstrip
strip s = rstrip (lstrip s)

-- `str.strip().lower()`, by which the program normalises addresses.
abbrev pub fold_case : Text → Text
fold_case s = lower (strip s)

lower_char_idem : (c : ℕ) → lower_char (lower_char c) ≡ lower_char c
unfolding lower_char
lower_char_idem c = ground arith

is_space-lower_char : (c : ℕ) → is_space (lower_char c) ≡ is_space c
unfolding lower_char is_space
is_space-lower_char c = ground arith

pub lower_idem : (s : Text) → lower (lower s) ≡ lower s
unfolding lower
lower_idem [] = refl
lower_idem (c ∷ s) = cc (lower_char_idem c, lower_idem s)

is_nil-lower : (s : Text) → is_nil (lower s) ≡ is_nil s
unfolding lower
is_nil-lower [] = refl
is_nil-lower (c ∷ s) = refl

lstrip-lower : (s : Text) → lstrip (lower s) ≡ lower (lstrip s)
unfolding lstrip lower
lstrip-lower [] = refl
lstrip-lower (c ∷ s) = ground (arith, lstrip-lower s, is_space-lower_char c)

rstrip-lower : (s : Text) → rstrip (lower s) ≡ lower (rstrip s)
unfolding rstrip lower
rstrip-lower [] = refl
rstrip-lower (c ∷ s) =
    ground (arith, rstrip-lower s, is_space-lower_char c, is_nil-lower (rstrip s))

pub strip-lower : (s : Text) → strip (lower s) ≡ lower (strip s)
unfolding strip
strip-lower s = rw (lstrip-lower s) (rstrip-lower (lstrip s))

rstrip_idem : (s : Text) → rstrip (rstrip s) ≡ rstrip s
unfolding rstrip
rstrip_idem [] = refl
rstrip_idem (c ∷ s) = ground (arith, rstrip_idem s)

-- The first character of what `lstrip` leaves is no space, and `rstrip` keeps it.
lstrip-rstrip-lstrip : (s : Text) → lstrip (rstrip (lstrip s)) ≡ rstrip (lstrip s)
unfolding lstrip rstrip
lstrip-rstrip-lstrip [] = refl
lstrip-rstrip-lstrip (c ∷ s) = ground (arith, lstrip-rstrip-lstrip s)

pub strip_idem : (s : Text) → strip (strip s) ≡ strip s
unfolding strip
strip_idem s = rw (lstrip-rstrip-lstrip s) (rstrip_idem (lstrip s))

pub fold_case_idem : (s : Text) → fold_case (fold_case s) ≡ fold_case s
fold_case_idem s = rw (strip-lower (strip s), strip_idem s) (lower_idem (strip s))

-- A change of characters that keeps spaces and commutes with the case mapping passes through.
module _ (f : ℕ → ℕ) (spaces : (c : ℕ) → is_space (f c) ≡ is_space c)
    (cases : (c : ℕ) → lower_char (f c) ≡ f (lower_char c)) where
  lstrip-map : (s : Text) → lstrip (map f s) ≡ map f (lstrip s)
  unfolding lstrip
  lstrip-map [] = refl
  lstrip-map (c ∷ s) = ground (arith, lstrip-map s, spaces c)

  is_nil-map : (s : Text) → is_nil (map f s) ≡ is_nil s
  is_nil-map [] = refl
  is_nil-map (c ∷ s) = refl

  rstrip-map : (s : Text) → rstrip (map f s) ≡ map f (rstrip s)
  unfolding rstrip
  rstrip-map [] = refl
  rstrip-map (c ∷ s) = ground (arith, rstrip-map s, spaces c, is_nil-map (rstrip s))

  lower-map : (s : Text) → lower (map f s) ≡ map f (lower s)
  unfolding lower
  lower-map [] = refl
  lower-map (c ∷ s) = cc (cases c, lower-map s)

  pub fold_case-map : (s : Text) → fold_case (map f s) ≡ map f (fold_case s)
  unfolding strip
  fold_case-map s = rw (lstrip-map s) (rw (rstrip-map (lstrip s)) (lower-map (rstrip (lstrip s))))
