-- ===== src/SigninDomains/Saved.antt =====
-- signin_domains.py: the list that was saved is the one that decides.
use pdc_client.Base.{
  ◌≡◌, refl, sym, ap, ◌∙◌, ◌⊎◌, inl, inr, Bool, true, false, not, ◌&&◌, ◌||◌, Option, none, some,
  List, [], ◌∷◌, ◌++◌, map, arith, Bool-cases, Option-cases, Text, str_eq_iff, nat_Eq, text_Eq,
  pair_Eq, str_eq,
}
use mathlib.Core.List.{append_assoc, append-nil}
use pdc_client.Base.Lists.{All, any, is_nil, elem, elem-append, distinct, distinct-concat}
use pdc_client.Base.Strings.{fold_case, fold_case_idem}
use pdc_client.SigninDomains.{
  Entry, File, Refusal, is_domain, clean_text, clean_entry, added, collect, normalize_domains,
  keep_domains, load, save, stored, after_at, allows_domain, allows_email,
}

-- A text that is a domain in the normal form.
pub IsClean : Text → Type 0
IsClean d = clean_text d ≡ some d

cleaned_stays :
    (s : Text) → is_domain (fold_case s) ≡ true → clean_text (fold_case s) ≡ some (fold_case s)
unfolding clean_text
cleaned_stays s valid = rw (fold_case_idem s) (rw valid refl)

cleaned_text :
    (s d : Text) → clean_text s ≡ some d → (is_domain (fold_case s) ≡ true) × (fold_case s ≡ d)
unfolding clean_text
cleaned_text s d h = ground (arith, h)

IsClean-clean_entry : (entry : Entry) (d : Text) → clean_entry entry ≡ some d → IsClean d
unfolding IsClean
IsClean-clean_entry none d h = cc
IsClean-clean_entry (some s) d h =
    rw⁻¹ (cleaned_text s d h).1 (cleaned_stays s (cleaned_text s d h).0)

All-concat :
    (out : List Text) (d : Text) → All IsClean out → IsClean d → All IsClean (out ++ d ∷ [])
All-concat [] d h c = (c, tt)
All-concat (x ∷ out) d h c = (h.0, All-concat out d h.1 c)

All-added : (out : List Text) (d : Text) → All IsClean out → IsClean d → All IsClean (added d out)
All-added out d h c = elim (Bool-cases (elem d out)) [
  | inl there ↦ rw there h
  | inr new ↦ rw new (All-concat out d h c)
]

distinct-added : (out : List Text) (d : Text) → distinct out ≡ true → distinct (added d out) ≡ true
distinct-added out d h = elim (Bool-cases (elem d out)) [
  | inl there ↦ rw there h
  | inr new ↦ rw new (distinct-concat d out h new)
]

-- What the loops build: clean domains, each once.
kept :
    (out : List Text) (entries : List Entry)
    → All IsClean out
    → distinct out ≡ true
    → All IsClean (keep_domains out entries) × (distinct (keep_domains out entries) ≡ true)
unfolding keep_domains
kept out [] h u = (h, u)
kept out (entry ∷ entries) h u = elim (Option-cases (clean_entry entry)) [
  | inl junk ↦ rw (junk, keep_domains) (kept out entries h u)
  | inr (d, clean) ↦
      rw (clean, keep_domains)
        (kept (added d out) entries (All-added out d h (IsClean-clean_entry entry d clean))
          (distinct-added out d u))
]

collected :
    (out ds : List Text) (entries : List Entry)
    → collect out entries ≡ inr ds
    → keep_domains out entries ≡ ds
unfolding collect keep_domains
collected out ds [] h = ground (arith, h)
collected out ds (entry ∷ entries) h = elim (Option-cases (clean_entry entry)) [
  | inl junk ↦ cc (rw (junk, collect) at h)
  | inr (d, clean) ↦
      rw (clean, keep_domains) (collected (added d out) ds entries (rw (clean, collect) at h))
]

-- Whether an entry names the domain.
pub names : Text → Entry → Bool
names d entry = elim (clean_entry entry) [ none ↦ false | some f ↦ str_eq f d ]

elem-added : (a d : Text) (out : List Text) → elem a (added d out) ≡ (elem a out || str_eq d a)
elem-added a d out = elim (Bool-cases (elem d out)) [
  | inl there ↦ rw there (ground (arith, there, str_eq_iff d a))
  | inr new ↦ rw new (elem-append a out (d ∷ []) ∙ unfold elem in ground arith)
]

elem-keep_domains :
    (d : Text) (out : List Text) (entries : List Entry)
    → elem d (keep_domains out entries) ≡ (elem d out || any (names d) entries)
unfolding keep_domains any names
elem-keep_domains d out [] = ground arith
elem-keep_domains d out (entry ∷ entries) = elim (Option-cases (clean_entry entry)) [
  | inl junk ↦ rw (junk, keep_domains) (rw (junk, any, names) (elem-keep_domains d out entries))
  | inr (f, clean) ↦
      rw (clean, keep_domains, any, names)
        (ground (arith, elem-keep_domains d (added f out) entries, elem-added d f out))
]

distinct-append :
    (out : List Text) (d : Text) (ds : List Text)
    → distinct (out ++ d ∷ ds) ≡ true
    → elem d out ≡ false
unfolding distinct elem
distinct-append [] d ds h = refl
distinct-append (x ∷ out) d ds h =
    ground (arith, h, distinct-append out d ds, elem-append x out (d ∷ ds), str_eq_iff x d)

-- Clean domains, each once, pass unchanged.
keep_clean :
    (out ds : List Text)
    → All IsClean ds
    → distinct (out ++ ds) ≡ true
    → keep_domains out (map some ds) ≡ out ++ ds
unfolding keep_domains IsClean
keep_clean out [] h u = sym (append-nil out)
keep_clean out (d ∷ ds) h u =
    let new = distinct-append out d ds u in
    let grown : added d out ≡ out ++ d ∷ [] = rw new refl in
    let moved = append_assoc out (d ∷ []) ds in
    rw (h.0, keep_domains)
      (rw grown (keep_clean (out ++ d ∷ []) ds h.1 (ap distinct moved ∙ u) ∙ moved))

-- The domains that are read are domains in the normal form, each once, whatever the file holds.
pub loaded_domains_clean : (file : File) → All IsClean (load file) × (distinct (load file) ≡ true)
unfolding load
loaded_domains_clean none = (tt, unfold distinct in refl)
loaded_domains_clean (some entries) = kept [] entries tt (unfold distinct in refl)

answered :
    (result : Refusal ⊎ List Text) (ds : List Text) (file : File)
    → (stored result file).0 ≡ inr ds
    → result ≡ inr ds
answered (inl refusal) ds file h = h
answered (inr clean) ds file h = h

-- A list that was saved is read back as it was answered.
pub saved_domains_loaded :
    (domains : Option (List Entry)) (ds : List Text) (file : File)
    → (save domains file).0 ≡ inr ds
    → load (save domains file).1 ≡ ds
unfolding load save normalize_domains
saved_domains_loaded none ds file h = cc
saved_domains_loaded (some entries) ds file h =
    let result = answered (collect [] entries) ds file h in
    let clean : All IsClean ds × (distinct ds ≡ true) =
      rw⁻¹ (collected [] ds entries result) (kept [] entries tt (unfold distinct in refl)) in
    rw result (keep_clean [] ds clean.0 clean.1)

-- Whether the part of an address after its last "@" is named by one of the entries.
pub address_named : List Entry → Option Text → Bool
address_named entries none = false
address_named entries (some s) = not (is_nil (fold_case s)) && any (names (fold_case s)) entries

allows-named :
    (entries : List Entry) (ds : List Text) (file : File) (part : Option Text)
    → load file ≡ ds
    → keep_domains [] entries ≡ ds
    → allows_domain file part ≡ address_named entries part
unfolding address_named
allows-named entries ds file none read same = refl
allows-named entries ds file (some s) read same =
    rw read (rw⁻¹ same (rw (elem-keep_domains (fold_case s) [] entries) (unfold elem in refl)))

-- After a list was saved, an address may sign in exactly when the part after its last "@", stripped
-- and in lower case, is named by one of the entries given.
pub saved_entries_decide :
    (entries : List Entry) (ds : List Text) (file : File) (email : Text)
    → (save (some entries) file).0 ≡ inr ds
    → allows_email (some email) (save (some entries) file).1
      ≡ address_named entries (after_at email)
unfolding allows_email
saved_entries_decide entries ds file email h =
    allows-named entries ds (save (some entries) file).1 (after_at email)
      (saved_domains_loaded (some entries) ds file h)
      (collected [] ds entries
        (answered (collect [] entries) ds file (unfold save normalize_domains in h)))
