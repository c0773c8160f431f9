-- ===== src/Accounts/Spent.antt =====
-- local_store.py, AuthStore: that no account's record holds the hash of a link unused.
use pdc_client.Base.{
  ◌≡◌, refl, sym, ap, ◌∙◌, ◌≢◌, inl, inr, Bool, true, false, not, ◌||◌, Option, [], ◌∷◌, arith,
  if◌then◌else◌, Bool-cases, if_both, Text, str_eq_iff, str_eq_refl, nat_Eq, text_Eq, pair_Eq,
  str_eq,
}
use pdc_client.Base.Lists.{all}
use pdc_client.Base.Dict.{
  Dict, lookup, insert, erase, contains, distinct_keys, lookup-insert, lookup-erase,
}
use pdc_client.Accounts.{
  Auth, Folder, Store, Profile, holds, no_auth, no_folder, safe_email, truthy, text_or_empty,
  auth_or_empty, folder_or_empty, folder_of, user_exists, get_auth, write_auth, write_profile,
  remove_user,
}
use pdc_client.Accounts.Passwords.{forget_token}
use pdc_client.Accounts.Laws.{get_auth-same_users}
use pdc_client.Accounts.Writers.{get_auth_gone}
use pdc_client.Accounts.Resets.{holds_hash, is_used}

-- A record that does not hold the hash, or holds it used.
abbrev pub is_spent : Text → Auth → Bool
is_spent h auth = not (holds_hash h auth) || is_used auth

abbrev pub folder_spent : Text → Folder → Bool
folder_spent h folder = is_spent h (auth_or_empty folder.auth)

abbrev pub all_values : (Folder → Bool) → Dict Text Folder → Bool
all_values p d = all (λ (e : Text × Folder). p e.1) d

pub all_values-insert :
    (p : Folder → Bool) (k : Text) (f : Folder) (d : Dict Text Folder)
    → p f ≡ true
    → all_values p d ≡ true
    → all_values p (insert k f d) ≡ true
unfolding all insert
all_values-insert p k f [] q h = ground (arith, q)
all_values-insert p k f ((j, g) ∷ d) q h = ground (arith, q, h, all_values-insert p k f d)

all_values-erase :
    (p : Folder → Bool) (k : Text) (d : Dict Text Folder)
    → all_values p d ≡ true
    → all_values p (erase k d) ≡ true
unfolding all erase
all_values-erase p k [] h = h
all_values-erase p k ((j, g) ∷ d) h = ground (arith, h, all_values-erase p k d)

all_values-lookup :
    (p : Folder → Bool) (k : Text) (d : Dict Text Folder)
    → p no_folder ≡ true
    → all_values p d ≡ true
    → p (folder_or_empty (lookup k d)) ≡ true
unfolding all lookup
all_values-lookup p k [] q h = q
all_values-lookup p k ((j, g) ∷ d) q h = ground (arith, q, h, all_values-lookup p k d)

all_values_absent :
    (p : Folder → Bool) (k : Text) (d : Dict Text Folder)
    → contains k d ≡ false
    → all (λ (e : Text × Folder). str_eq e.0 k || p e.1) d ≡ true
    → all_values p d ≡ true
unfolding all lookup
all_values_absent p k [] a h = h
all_values_absent p k ((j, g) ∷ d) a h = ground (arith, a, h, all_values_absent p k d)

-- What holds of every folder but one holds of all, once that one is replaced.
pub all_values_but_one :
    (p : Folder → Bool) (k : Text) (f : Folder) (d : Dict Text Folder)
    → distinct_keys d ≡ true
    → p f ≡ true
    → all (λ (e : Text × Folder). str_eq e.0 k || p e.1) d ≡ true
    → all_values p (insert k f d) ≡ true
unfolding all insert distinct_keys
all_values_but_one p k f [] u q h = ground (arith, q)
all_values_but_one p k f ((j, g) ∷ d) u q h =
    ground (arith, u, q, h, all_values_but_one p k f d, all_values_absent p k d, str_eq_iff j k)

-- No record holds the hash unused, and the account has a password.
pub record Spent (h email : Text) (st : Store) : Type 0 where
  pub all_used : all_values (folder_spent h) st.users ≡ true
  pub has_own : truthy (get_auth email st).password_hash ≡ true

pub get_auth_after_write :
    (email e : Text) (a : Auth) (st : Store)
    → get_auth email (write_auth e a st)
      ≡ (if str_eq (safe_email e) (safe_email email) then a else get_auth email st)
unfolding get_auth folder_of write_auth
get_auth_after_write email e a st = ground (
  arith,
  lookup-insert (safe_email e) (safe_email email)
      (record (folder_of (safe_email e) st) { auth = holds a }) st.users,
)

get_auth_after_profile :
    (email e : Text) (p : Profile) (st : Store)
    → get_auth email (write_profile e p st) ≡ get_auth email st
unfolding get_auth folder_of write_profile
get_auth_after_profile email e p st = elim (Bool-cases (str_eq (safe_email e) (safe_email email))) [
  | inr other ↦ ground (
    arith,
    other,
    lookup-insert (safe_email e) (safe_email email)
        (record (folder_of (safe_email e) st) { profile = holds p }) st.users,
  )
  | inl same ↦ rw (sym ((str_eq_iff (safe_email e) (safe_email email)).0 same)) (
      ground (
        arith,
        lookup-insert (safe_email e) (safe_email e)
            (record (folder_of (safe_email e) st) { profile = holds p }) st.users,
        str_eq_refl (safe_email e),
      ))
]

get_auth_after_removal :
    (email e : Text) (st : Store)
    → str_eq (safe_email e) (safe_email email) ≡ false
    → get_auth email (remove_user e st) ≡ get_auth email st
unfolding get_auth folder_of remove_user
get_auth_after_removal email e st other =
    ground (arith, other, lookup-erase (safe_email e) (safe_email email) st.users)

module _ (h email : Text) (ne : h ≢ []) where
  pub empty_spent : is_spent h no_auth ≡ true
  empty_spent = ground (arith, str_eq_iff [] h, λ (e : [] ≡ h). ne (sym e))

  pub own-Spent : (e : Text) (st : Store) → Spent h email st → is_spent h (get_auth e st) ≡ true
  unfolding get_auth folder_of
  own-Spent e st s =
      all_values-lookup (folder_spent h) (safe_email e) st.users empty_spent s.all_used

  implied : (b c : Bool) → c ≡ true → not b || c ≡ true
  implied b c k = ground (arith, k)

  pub own_password :
      (e : Text) (st : Store)
      → Spent h email st
      → not (str_eq (safe_email e) (safe_email email)) || truthy (get_auth e st).password_hash
        ≡ true
  unfolding get_auth
  own_password e st s = elim (Bool-cases (str_eq (safe_email e) (safe_email email))) [
    | inr other ↦ ground (arith, other)
    | inl same ↦
        rw ((str_eq_iff (safe_email e) (safe_email email)).0 same)
          (implied (str_eq (safe_email email) (safe_email email)) _ s.has_own)
  ]

  pub Spent-same_users :
      (st st' : Store) → st.users ≡ st'.users → Spent h email st → Spent h email st'
  Spent-same_users st st' e s = record {
    all_used = ap (all_values (folder_spent h)) (sym e) ∙ s.all_used;
    has_own =
        ap (λ (a : Auth). truthy a.password_hash) (sym (get_auth-same_users email st st' e))
        ∙ s.has_own;
  }

  pub Spent-write_auth :
      (e : Text) (a : Auth) (st : Store)
      → is_spent h a ≡ true
      → not (str_eq (safe_email e) (safe_email email)) || truthy a.password_hash ≡ true
      → Spent h email st
      → Spent h email (write_auth e a st)
  Spent-write_auth e a st spent password s = record {
    all_used =
        unfold write_auth in
        all_values-insert (folder_spent h) (safe_email e)
          (record (folder_of (safe_email e) st) { auth = holds a }) st.users spent s.all_used;
    has_own = ground (arith, password, s.has_own, get_auth_after_write email e a st);
  }

  pub Spent-write_profile :
      (e : Text) (p : Profile) (st : Store)
      → Spent h email st
      → Spent h email (write_profile e p st)
  Spent-write_profile e p st s = record {
    all_used =
        unfold write_profile in
        all_values-insert (folder_spent h) (safe_email e)
          (record (folder_of (safe_email e) st) { profile = holds p }) st.users
          (unfold get_auth in own-Spent e st s) s.all_used;
    has_own = rw (get_auth_after_profile email e p st) s.has_own;
  }

  pub Spent-forget_token :
      (old : Option Text) (st : Store) → Spent h email st → Spent h email (forget_token old st)
  Spent-forget_token old st s =
      if_both (Spent h email) (truthy old)
        (record st { tokens = erase (text_or_empty old) st.tokens }) st
        (Spent-same_users st _ refl s) s

  pub Spent-remove_user :
      (e : Text) (st : Store)
      → str_eq (safe_email e) (safe_email email) ≡ false
      → Spent h email st
      → Spent h email (remove_user e st)
  Spent-remove_user e st other s = record {
    all_used =
        unfold remove_user in all_values-erase (folder_spent h) (safe_email e) st.users s.all_used;
    has_own = rw (get_auth_after_removal email e st other) s.has_own;
  }

  -- An account that is not there is another one.
  pub missing_is_other :
      (e : Text) (st : Store)
      → Spent h email st
      → user_exists e st ≡ false
      → str_eq (safe_email e) (safe_email email) ≡ false
  missing_is_other e st s gone = ground (arith, own_password e st s, get_auth_gone e st gone)
