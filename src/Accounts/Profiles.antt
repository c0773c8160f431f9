-- ===== src/Accounts/Profiles.antt =====
-- local_store.py: what the AuthStore keeps in profile.json.
use pdc_client.Base.{
  Bool, true, false, not, ◌&&◌, Option, none, some, List, [], ◌∷◌, if◌then◌else◌, Text, nat_Eq,
  text_Eq, pair_Eq, str_eq,
}
use pdc_client.Base.Lists.{elem, filter}
use pdc_client.Base.Strings.{codes, fold_case}
use pdc_client.Accounts.{
  Profile, Store, truthy, text_or_empty, safe_email, user_exists, get_profile, profile_or_plain,
  write_profile,
}

abbrev pub known_roles : List Text
known_roles = codes "user" ∷ codes "power" ∷ codes "admin" ∷ []

abbrev role_field : Option Profile → Text
role_field none = []
role_field (some profile) = text_or_empty profile.role

-- `get_role`
unfoldable pub get_role : Text → Store → Text
get_role email st =
    let role = role_field (get_profile email st) in
    if elem role known_roles then role else codes "user"

abbrev pub opt_eq : Option Text → Text → Bool
opt_eq none s = false
opt_eq (some r) s = str_eq r s

-- `set_role`
unfoldable pub set_role : Text → Text → Store → Bool × Store
set_role email role st =
    let profile = profile_or_plain (safe_email email) (get_profile email st) in
    if user_exists email st
    then (
      true,
      if opt_eq profile.role role
          then st
          else write_profile email (record profile { role = some role }) st,
    )
    else (false, st)

unfoldable pub is_admin : Text → Store → Bool
is_admin email st = str_eq (get_role email st) (codes "admin")

unfoldable pub is_power : Text → Store → Bool
is_power email st = str_eq (get_role email st) (codes "power")

-- `is_bootstrap_admin`, with the name in the settings.
unfoldable pub is_bootstrap_admin : Text → Text → Bool
is_bootstrap_admin username email =
    let uname = fold_case username in not (str_eq uname []) && str_eq (fold_case email) uname

abbrev pub nonempty : Text → Bool
nonempty [] = false
nonempty (c ∷ s) = true

abbrev pub held_roles : Option Profile → List Text
held_roles none = []
held_roles (some profile) = elim profile.data_roles [
  | some ids ↦ filter nonempty ids
  | none ↦ if truthy profile.data_role then text_or_empty profile.data_role ∷ [] else []
]

-- `get_data_roles`
unfoldable pub get_data_roles : Text → Store → List Text
get_data_roles email st = held_roles (get_profile email st)

-- `dict.fromkeys`: the first of each, in order.
unfoldable pub unique_from : List Text → List Text → List Text
unique_from seen [] = []
unique_from seen (x ∷ xs) =
    let kept = elem x seen in
    let rest = unique_from (if kept then seen else x ∷ seen) xs in if kept then rest else x ∷ rest

abbrev pub role_ids : List Text → List Text
role_ids ids = unique_from [] (filter nonempty ids)

abbrev pub first_or_base : List Text → Text
first_or_base [] = codes "base"
first_or_base (r ∷ rs) = r

unfoldable pub texts_eq : List Text → List Text → Bool
texts_eq [] [] = true
texts_eq (x ∷ xs) (y ∷ ys) = str_eq x y && texts_eq xs ys
texts_eq _ _ = false

-- `prof.get("data_roles") == ids and prof.get("data_role") == mirror`
abbrev pub same_roles : Profile → List Text → Bool
same_roles profile ids = elim profile.data_roles [
  | none ↦ false
  | some held ↦ texts_eq held ids && opt_eq profile.data_role (first_or_base ids)
]

-- `set_data_roles`
unfoldable pub set_data_roles : Text → List Text → Store → Bool × Store
unfolding unique_from texts_eq
set_data_roles email ids st =
    let held = role_ids ids in
    let profile = profile_or_plain (safe_email email) (get_profile email st) in
    if user_exists email st
    then (
      true,
      if same_roles profile held
          then st
          else write_profile email
              (record profile { data_roles = some held; data_role = some (first_or_base held) }) st,
    )
    else (false, st)

-- `get_data_role`
unfoldable pub get_data_role : Text → Store → Text
get_data_role email st = first_or_base (get_data_roles email st)

abbrev switch : Option Profile → Bool
switch none = true
switch (some profile) = elim profile.self_service [ none ↦ true | some on ↦ on ]

-- `get_self_service`: on, unless the profile says `false`.
unfoldable pub get_self_service : Text → Store → Bool
get_self_service email st = switch (get_profile email st)

abbrev same_switch : Option Bool → Bool → Bool
same_switch none allowed = false
same_switch (some true) allowed = allowed
same_switch (some false) allowed = not allowed

-- `set_self_service`
unfoldable pub set_self_service : Text → Bool → Store → Bool × Store
set_self_service email allowed st =
    let profile = profile_or_plain (safe_email email) (get_profile email st) in
    if user_exists email st
    then (
      true,
      if same_switch profile.self_service allowed
          then st
          else write_profile email (record profile { self_service = some allowed }) st,
    )
    else (false, st)
