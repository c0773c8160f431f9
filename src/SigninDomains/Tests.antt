-- ===== src/SigninDomains/Tests.antt =====
-- signin_domains.py on concrete lists.
use pdc_client.Base.{
  ◌≡◌, refl, inl, inr, false, none, some, List, [], ◌∷◌, Text, nat_Eq, text_Eq, pair_Eq, str_eq,
}
use pdc_client.Base.Lists.{all, elem}
use pdc_client.Base.Strings.{codes, strip, lower, lower_char}
use pdc_client.SigninDomains.{
  Entry, invalid, is_alnum, is_label_char, starts_alnum, ends_alnum, is_label, split_dots,
  is_domain, clean_text, collect, normalize_domains, keep_domains, load, save, after_at,
  allows_email,
}
use pdc_client.SigninDomains.Saved.{saved_entries_decide, address_named}

-- Opens the code for the runs below.
runs_open : Unit {0}
unfolding elem all str_eq strip lower lower_char is_alnum is_label_char starts_alnum ends_alnum
    is_label split_dots is_domain clean_text collect normalize_domains save load keep_domains
    after_at allows_email
runs_open = tt

abbrev entries : List Entry
entries = some (codes " Example.org") ∷ some (codes "a-b.co.uk") ∷ some (codes "example.ORG ") ∷ []

abbrev approved : List Text
approved = codes "example.org" ∷ codes "a-b.co.uk" ∷ []

entries_saved : (save (some entries) none).0 ≡ inr approved
unfolding runs_open
entries_saved = refl

host_refused :
    (save (some (some (codes "localhost") ∷ [])) none).0 ≡ inl (invalid (some (codes "localhost")))
unfolding runs_open
host_refused = refl

last_at_counts :
    allows_email (some (codes "a@example.org@evil.org")) (save (some entries) none).1 ≡ false
unfolding runs_open
last_at_counts = refl

saved_entries_decide_example :
    allows_email (some (codes "Ann@EXAMPLE.org")) (save (some entries) none).1
    ≡ address_named entries (after_at (codes "Ann@EXAMPLE.org"))
saved_entries_decide_example =
    saved_entries_decide entries approved none (codes "Ann@EXAMPLE.org") entries_saved
