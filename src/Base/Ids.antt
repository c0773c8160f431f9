-- ===== src/Base/Ids.antt =====
-- Identifiers of 16 hexadecimal digits, as the regular expressions of the stores accept them.
use Prim.Native.Nat.{ℕ}
use mathlib.Core.Bool.{Bool, ◌&&◌, ◌||◌}
use mathlib.Core.List.{[], ◌∷◌}
use pdc_client.Base.Bools.{leb, ◌==◌, if◌then◌else◌}
use pdc_client.Base.Keys.{Text}
use pdc_client.Base.Lists.{length, all}

-- `[0-9a-fA-F]`
hex_char : ℕ → Bool
hex_char c = leb b'0' c && leb c b'9' || leb b'a' c && leb c b'f' || leb b'A' c && leb c b'F'

-- `$` also matches before a newline at the end.
unfoldable pub chomp : Text → Text
chomp [] = []
chomp (c ∷ []) = if c == b'\n' then [] else c ∷ []
chomp (c ∷ d ∷ s) = c ∷ chomp (d ∷ s)

-- `_ID_RE.match` of roles_store.py, and `_DASH_ID_RE.match` of local_store.py.
unfoldable pub is_id : Text → Bool
unfolding chomp hex_char
is_id s = length (chomp s) == 16 && all hex_char (chomp s)
