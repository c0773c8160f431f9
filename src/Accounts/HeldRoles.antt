-- ===== src/Accounts/HeldRoles.antt =====
-- local_store.py: the data roles that an account was given are the ones that are read back.
use pdc_client.Base.{
  ◌≡◌, refl, ◌∙◌, inl, inr, Bool, true, not, ◌&&◌, Option, none, some, List, [], ◌∷◌, arith,
  Bool-cases, Option-cases, Text, str_eq_iff, str_eq_refl, nat_Eq, text_Eq, pair_Eq,
}
use pdc_client.Base.Lists.{elem, filter, all, distinct, elem-filter, all-filter, filter-all}
use pdc_client.Accounts.{Store, Profile, user_exists, get_profile, profile_or_plain, safe_email}
use pdc_client.Accounts.Laws.{get_profile-write_profile}
use pdc_client.Accounts.Profiles.{
  nonempty, unique_from, role_ids, set_data_roles, get_data_roles, held_roles, texts_eq, same_roles,
}

elem-unique_from :
    (a : Text) (seen ids : List Text)
    → elem a (unique_from seen ids) ≡ (not (elem a seen) && elem a ids)
unfolding unique_from elem
elem-unique_from a seen [] = ground arith
elem-unique_from a seen (x ∷ ids) =
    ground (arith, elem-unique_from a seen ids, elem-unique_from a (x ∷ seen) ids, str_eq_iff x a)

distinct-unique_from : (seen ids : List Text) → distinct (unique_from seen ids) ≡ true
unfolding unique_from distinct elem
distinct-unique_from seen [] = refl
distinct-unique_from seen (x ∷ ids) = ground (
  arith,
  distinct-unique_from seen ids,
  distinct-unique_from (x ∷ seen) ids,
  elem-unique_from x (x ∷ seen) ids,
  str_eq_refl x,
)

all-unique_from :
    (p : Text → Bool) (seen ids : List Text)
    → all p ids ≡ true
    → all p (unique_from seen ids) ≡ true
unfolding unique_from all
all-unique_from p seen [] h = refl
all-unique_from p seen (x ∷ ids) h =
    ground (arith, all-unique_from p seen ids, all-unique_from p (x ∷ seen) ids)

texts_eq_sound : (xs ys : List Text) → texts_eq xs ys ≡ true → xs ≡ ys
unfolding texts_eq
texts_eq_sound [] [] h = refl
texts_eq_sound (x ∷ xs) (y ∷ ys) h = ground (arith, texts_eq_sound xs ys, str_eq_iff x y)
texts_eq_sound _ _ h = cc

filter-role_ids : (ids : List Text) → filter nonempty (role_ids ids) ≡ role_ids ids
filter-role_ids ids =
    filter-all nonempty (role_ids ids)
      (all-unique_from nonempty [] (filter nonempty ids) (all-filter nonempty ids))

same-held :
    (email : Text) (o : Option Profile) (ids : List Text)
    → same_roles (profile_or_plain email o) ids ≡ true
    → held_roles o ≡ filter nonempty ids
same-held email none ids h = cc
same-held email (some profile) ids h = elim (Option-cases profile.data_roles) [
  | inl nothing ↦ cc (rw nothing at h)
  | inr (held, found) ↦ ground (arith, found, texts_eq_sound held ids, h)
]

read_back :
    (email : Text) (ids : List Text) (st : Store)
    → user_exists email st ≡ true
    → get_data_roles email (set_data_roles email ids st).1 ≡ role_ids ids
unfolding get_data_roles set_data_roles
read_back email ids st exists =
    let profile = profile_or_plain (safe_email email) (get_profile email st) in
    elim (Bool-cases (same_roles profile (role_ids ids))) [
      | inl same ↦ rw exists (
          rw same (
            same-held (safe_email email) (get_profile email st) (role_ids ids) same
            ∙ filter-role_ids ids))
      | inr changed ↦ rw exists (rw changed (rw get_profile-write_profile (filter-role_ids ids)))
    ]

-- The data roles read after they were set for an existing account are the ids given that are not
-- empty, each once.
pub set_roles_are_held :
    (email : Text) (ids : List Text) (st : Store)
    → user_exists email st ≡ true
    → (distinct (get_data_roles email (set_data_roles email ids st).1) ≡ true)
      × ((a : Text)
          → elem a (get_data_roles email (set_data_roles email ids st).1)
            ≡ (nonempty a && elem a ids))
set_roles_are_held email ids st exists = (
  rw (read_back email ids st exists) (distinct-unique_from [] (filter nonempty ids)),
  λ a.
      rw (read_back email ids st exists)
        (unfold elem in elem-unique_from a [] (filter nonempty ids) ∙ elem-filter nonempty a ids),
)
