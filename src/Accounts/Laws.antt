-- ===== src/Accounts/Laws.antt =====
-- What the writes of the AuthStore of local_store.py change, and what they leave.
use pdc_client.Base.{
  ℕ, ◌≡◌, refl, sym, ap, ◌∙◌, ◌≢◌, inl, inr, true, false, some, [], ◌∷◌, map, arith, Bool-cases,
  Text, str_eq_iff, nat_Eq, text_Eq, pair_Eq, str_eq,
}
use pdc_client.Base.Dict.{lookup-insert}
use pdc_client.Base.Strings.{
  codes, is_space, lower_char, strip, lower, fold_case, fold_case-map, fold_case_idem,
}
use pdc_client.Accounts.{
  slash_to_underscore, plain_name, as_child, truthy, Auth, Profile, Store, holds, safe_email,
  folder_of, user_exists, get_auth, write_auth, get_profile, write_profile,
}

is_space-slash : (c : ℕ) → is_space (slash_to_underscore c) ≡ is_space c
unfolding is_space
is_space-slash c = ground arith

lower_char-slash : (c : ℕ) → lower_char (slash_to_underscore c) ≡ slash_to_underscore (lower_char c)
unfolding lower_char
lower_char-slash c = ground arith

map-slash_idem :
    (s : Text) → map slash_to_underscore (map slash_to_underscore s) ≡ map slash_to_underscore s
map-slash_idem [] = refl
map-slash_idem (c ∷ s) = ground (arith, map-slash_idem s)

plain_name_idem : (email : Text) → plain_name (plain_name email) ≡ plain_name email
plain_name_idem email =
    ap (map slash_to_underscore) (
      fold_case-map slash_to_underscore is_space-slash lower_char-slash (fold_case email)
      ∙ ap (map slash_to_underscore) (fold_case_idem email))
    ∙ map-slash_idem (fold_case email)

as_child_kept :
    (out : Text)
    → plain_name out ≡ out
    → as_child out ≡ out
    → as_child (plain_name (as_child out)) ≡ as_child out
as_child_kept out same kept = ap (λ o. as_child (plain_name o)) kept ∙ ap as_child same

as_child-plain_name :
    (out : Text) → plain_name out ≡ out → as_child (plain_name (as_child out)) ≡ as_child out
unfolding as_child str_eq strip lower
as_child-plain_name out same = elim (Bool-cases (str_eq out [])) [
  | inl e ↦ rw ((str_eq_iff out []).0 e) refl
  | inr a ↦ elim (Bool-cases (str_eq out (codes "."))) [
    | inl e ↦ rw ((str_eq_iff out (codes ".")).0 e) refl
    | inr b ↦ elim (Bool-cases (str_eq out (codes ".."))) [
      | inl e ↦ rw ((str_eq_iff out (codes "..")).0 e) refl
      | inr c ↦ as_child_kept out same (ground (arith, a, b, c))
    ]
  ]
]

-- The name of a folder names itself.
pub safe_email_idem : (email : Text) → safe_email (safe_email email) ≡ safe_email email
unfolding safe_email
safe_email_idem email = as_child-plain_name (plain_name email) (plain_name_idem email)

plain_kept :
    (out : Text)
    → fold_case out ≡ out
    → as_child out ≡ out
    → fold_case (as_child out) ≡ as_child out
plain_kept out same kept = ap fold_case kept ∙ same ∙ sym kept

fold_case-as_child : (out : Text) → fold_case out ≡ out → fold_case (as_child out) ≡ as_child out
unfolding as_child str_eq strip lower
fold_case-as_child out same = elim (Bool-cases (str_eq out [])) [
  | inl e ↦ rw ((str_eq_iff out []).0 e) refl
  | inr a ↦ elim (Bool-cases (str_eq out (codes "."))) [
    | inl e ↦ rw ((str_eq_iff out (codes ".")).0 e) refl
    | inr b ↦ elim (Bool-cases (str_eq out (codes ".."))) [
      | inl e ↦ rw ((str_eq_iff out (codes "..")).0 e) refl
      | inr c ↦ plain_kept out same (ground (arith, a, b, c))
    ]
  ]
]

-- The name of a folder is stripped and in lower case.
pub fold_case-safe_email : (email : Text) → fold_case (safe_email email) ≡ safe_email email
unfolding safe_email
fold_case-safe_email email = fold_case-as_child (plain_name email) (
    fold_case-map slash_to_underscore is_space-slash lower_char-slash (fold_case email)
    ∙ ap (map slash_to_underscore) (fold_case_idem email))

pub truthy_ne : (s : Text) → s ≢ [] → truthy (some s) ≡ true
truthy_ne [] h = absurd (h refl)
truthy_ne (c ∷ s) h = refl

pub safe_email-ne-nil : (email : Text) → truthy (some (safe_email email)) ≡ true
unfolding safe_email as_child
safe_email-ne-nil email = elim (Bool-cases (str_eq (plain_name email) [])) [
  | inl e ↦ rw e
  | inr a ↦ ground (arith, str_eq_iff (plain_name email) [], truthy_ne (plain_name email))
]

module _ (email : Text) (auth : Auth) (st : Store) where
  pub folder_of-write_auth :
      folder_of (safe_email email) (write_auth email auth st)
      ≡ record (folder_of (safe_email email) st) { auth = holds auth }
  unfolding folder_of write_auth
  folder_of-write_auth = ground (
    arith,
    lookup-insert (safe_email email) (safe_email email)
        (record (folder_of (safe_email email) st) { auth = holds auth }) st.users,
    str_eq_iff (safe_email email) (safe_email email),
  )

  pub get_auth-write_auth : get_auth email (write_auth email auth st) ≡ auth
  unfolding get_auth
  get_auth-write_auth = rw folder_of-write_auth

  pub user_exists-write_auth : user_exists email (write_auth email auth st) ≡ true
  unfolding user_exists
  user_exists-write_auth = rw folder_of-write_auth (ground arith)

  -- The record of a folder by another name stays.
  pub folder_of-write_auth_ne :
      (name : Text)
      → str_eq (safe_email email) name ≡ false
      → folder_of name (write_auth email auth st) ≡ folder_of name st
  unfolding folder_of write_auth
  folder_of-write_auth_ne name h = ground (
    arith,
    lookup-insert (safe_email email) name
        (record (folder_of (safe_email email) st) { auth = holds auth }) st.users,
  )

module _ (email : Text) (profile : Profile) (st : Store) where
  folder_of-write_profile :
      folder_of (safe_email email) (write_profile email profile st)
      ≡ record (folder_of (safe_email email) st) { profile = holds profile }
  unfolding folder_of write_profile
  folder_of-write_profile = ground (
    arith,
    lookup-insert (safe_email email) (safe_email email)
        (record (folder_of (safe_email email) st) { profile = holds profile }) st.users,
    str_eq_iff (safe_email email) (safe_email email),
  )

  pub get_profile-write_profile : get_profile email (write_profile email profile st) ≡ some profile
  unfolding get_profile
  get_profile-write_profile = rw folder_of-write_profile

  pub get_auth-write_profile : get_auth email (write_profile email profile st) ≡ get_auth email st
  unfolding get_auth
  get_auth-write_profile = rw folder_of-write_profile

pub get_auth-safe_email :
    (email : Text) (st : Store) → get_auth (safe_email email) st ≡ get_auth email st
unfolding get_auth
get_auth-safe_email email st = rw safe_email_idem

pub get_auth-same_users :
    (email : Text) (st st' : Store) → st.users ≡ st'.users → get_auth email st ≡ get_auth email st'
unfolding get_auth folder_of
get_auth-same_users email st st' e = rw e
