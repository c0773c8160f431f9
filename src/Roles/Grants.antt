-- ===== src/Roles/Grants.antt =====
-- roles_store.py: grants on a connection or on one schema of it, and their normal form.
use pdc_client.Base.{
  Bool, true, ◌&&◌, Option, none, some, List, [], ◌∷◌, if◌then◌else◌, Text, nat_Eq, text_Eq,
  pair_Eq, str_eq,
}
use pdc_client.Base.Ids.{is_id}
use pdc_client.Base.Strings.{lower}

-- A JSON value, as far as the normal form looks at it; a missing key reads as `null`.
pub data Value : Type 0 where
  null other : Value
  text : Text → Value

pub data RawGrant : Type 0 where
  -- not an object
  junk : RawGrant
  -- `connection_id` and `schema`
  fields : Value → Value → RawGrant

-- `schema = none` covers the whole connection.
pub record Grant : Type 0 where
  pub connection_id : Text
  pub schema : Option Text

abbrev with_schema : Text → Value → Option Grant
with_schema cid null = some (record { connection_id = cid; schema = none })
with_schema cid (text s) = some (record { connection_id = cid; schema = some s })
with_schema cid other = none

-- `_normalize_grant`
unfoldable pub normalize_grant : RawGrant → Option Grant
normalize_grant (fields (text cid) schema) = if is_id cid then with_schema cid schema else none
normalize_grant (fields null schema) = none
normalize_grant (fields other schema) = none
normalize_grant junk = none

-- `[g for g in map(_normalize_grant, raw) if g is not None]`
unfoldable pub normalize_grants : List RawGrant → List Grant
normalize_grants [] = []
normalize_grants (raw ∷ raws) =
    let rest = normalize_grants raws in
    elim (normalize_grant raw) [ none ↦ rest | some g ↦ g ∷ rest ]

-- `_normalize_grant` on a grant that is one already.
unfoldable pub still_valid : Grant → Bool
still_valid g = is_id g.connection_id

-- `[t for t in raw if isinstance(t, str)]`
unfoldable pub normalize_texts : List Value → List Text
normalize_texts [] = []
normalize_texts (text s ∷ values) = s ∷ normalize_texts values
normalize_texts (null ∷ values) = normalize_texts values
normalize_texts (other ∷ values) = normalize_texts values

-- `str(value or "")` on a text or nothing; the routes send no other value here.
abbrev pub text_value : Value → Text
text_value (text s) = s
text_value null = []
text_value other = []

abbrev pub schema_text : Option Text → Text
schema_text none = []
schema_text (some s) = s

-- Schemas are compared in lower case, and a table without one reads as "".
unfoldable pub schema_matches : Option Text → Option Text → Bool
schema_matches none schema = true
schema_matches (some s) schema = str_eq (lower s) (lower (schema_text schema))

-- `_grant_matches`
unfoldable pub grant_matches : Grant → Text → Option Text → Bool
grant_matches g cid schema = str_eq g.connection_id cid && schema_matches g.schema schema
