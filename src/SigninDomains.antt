-- ===== src/SigninDomains.antt =====
-- signin_domains.py: the approved domains of sign-ins. Characters outside ASCII, which no domain
-- has, keep their case. The document is the list in `domains`; an absent, unreadable or malformed one is `none`.
pub mod Saved
mod Tests
use pdc_client.Base.{
  ℕ, zero, suc, ◌+◌, ◌-◌, ◌*◌, ◌/◌, ◌%◌, ◌^◌, ◌≤◌, ◌<◌, min, max, ◌≡◌, refl, sym, ap, ◌∙◌, ◌≢◌, ◌↔◌,
  ◌⊎◌, inl, inr, Bool, true, false, not, ◌&&◌, ◌||◌, Option, none, some, List, [], ◌∷◌, ◌++◌, map,
  arith, ltb, leb, ◌==◌, if◌then◌else◌, leb→le, le→leb, ltb→lt, ==_iff, Bool-cases, Option-cases,
  is_some, if_both, Eq, Text, str_eq_iff, str_eq_refl, nat_Eq, text_Eq, pair_Eq, str_eq,
}
use pdc_client.Base.Lists.{length, is_nil, all, elem}
use pdc_client.Base.Strings.{strip, lower, fold_case}

-- An entry of a list; `none` is not a text.
abbrev pub Entry : Type 0
Entry = Option Text

abbrev pub File : Type 0
File = Option (List Entry)

-- The ValueErrors.
pub data Refusal : Type 0 where
  not_a_list : Refusal
  invalid : Entry → Refusal

-- `[a-z0-9]`
unfoldable pub is_alnum : ℕ → Bool
is_alnum c = leb b'a' c && leb c b'z' || leb b'0' c && leb c b'9'

-- `[a-z0-9-]`
unfoldable pub is_label_char : ℕ → Bool
is_label_char c = is_alnum c || c == b'-'

unfoldable pub ends_alnum : Text → Bool
ends_alnum [] = false
ends_alnum (c ∷ []) = is_alnum c
ends_alnum (c ∷ d ∷ s) = ends_alnum (d ∷ s)

unfoldable pub starts_alnum : Text → Bool
starts_alnum [] = false
starts_alnum (c ∷ s) = is_alnum c

-- `[a-z0-9](?:[a-z0-9-]{0,61}[a-z0-9])?`
unfoldable pub is_label : Text → Bool
is_label s = leb (length s) 63 && all is_label_char s && starts_alnum s && ends_alnum s

abbrev pub onto_first : ℕ → List Text → List Text
onto_first c [] = (c ∷ []) ∷ []
onto_first c (s ∷ rest) = (c ∷ s) ∷ rest

unfoldable pub split_dots : Text → List Text
split_dots [] = [] ∷ []
split_dots (c ∷ s) = let rest = split_dots s in if c == b'.' then [] ∷ rest else onto_first c rest

-- `_DOMAIN_RE.fullmatch`
unfoldable pub is_domain : Text → Bool
is_domain s = leb 2 (length (split_dots s)) && all is_label (split_dots s)

unfoldable pub clean_text : Text → Option Text
clean_text s = if is_domain (fold_case s) then some (fold_case s) else none

-- The entry stripped and in lower case, where it is a domain.
abbrev pub clean_entry : Entry → Option Text
clean_entry none = none
clean_entry (some s) = clean_text s

abbrev pub added : Text → List Text → List Text
added d out = if elem d out then out else out ++ d ∷ []

-- The loop of `normalize_domains`.
unfoldable pub collect : List Text → List Entry → Refusal ⊎ List Text
collect out [] = inr out
collect out (entry ∷ entries) = elim (clean_entry entry) [
  | none ↦ inl (invalid entry)
  | some d ↦ collect (added d out) entries
]

-- `normalize_domains`
unfoldable pub normalize_domains : Option (List Entry) → Refusal ⊎ List Text
normalize_domains none = inl not_a_list
normalize_domains (some entries) = collect [] entries

-- The loop of `load`: entries that are no domain are skipped.
unfoldable pub keep_domains : List Text → List Entry → List Text
keep_domains out [] = out
keep_domains out (entry ∷ entries) = elim (clean_entry entry) [
  | none ↦ keep_domains out entries
  | some d ↦ keep_domains (added d out) entries
]

-- `load`
unfoldable pub load : File → List Text
load none = []
load (some entries) = keep_domains [] entries

abbrev pub stored : Refusal ⊎ List Text → File → (Refusal ⊎ List Text) × File
stored (inl refusal) file = (inl refusal, file)
stored (inr clean) file = (inr clean, some (map some clean))

-- `save`
unfoldable pub save : Option (List Entry) → File → (Refusal ⊎ List Text) × File
save domains file = stored (normalize_domains domains) file

-- `is_configured`
unfoldable pub is_configured : File → Bool
is_configured file = not (is_nil (load file))

-- `email.rsplit("@", 1)[1]`, where there is an "@".
unfoldable pub after_at : Text → Option Text
after_at [] = none
after_at (c ∷ s) = elim (after_at s) [
  | some domain ↦ some domain
  | none ↦ if c == b'@' then some s else none
]

abbrev pub allows_domain : File → Option Text → Bool
allows_domain file none = false
allows_domain file (some s) = not (is_nil (fold_case s)) && elem (fold_case s) (load file)

-- `allows_email`; `none` is not a text.
unfoldable pub allows_email : Option Text → File → Bool
allows_email none file = false
allows_email (some email) file = allows_domain file (after_at email)
