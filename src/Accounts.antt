-- ===== src/Accounts.antt =====
-- local_store.py, AuthStore: the account folders under users/, with the caches kept beside them.
-- A folder holds profile.json and auth.json, each absent, unreadable or a record; the time stamps
-- that no decision reads are left out. The lock makes every operation one step. What the program
-- draws at random (generations, tokens) and what hashlib computes are arguments.
pub mod Passwords
pub mod Sessions
pub mod Resets
pub mod Sso
pub mod Profiles
pub mod Laws
pub mod Links
pub mod Writers
pub mod Identities
pub mod HeldRoles
pub mod Spent
pub mod Calls
pub mod SpentCalls
pub mod SingleUse
mod Tests
use pdc_client.Base.{
  ℕ, zero, suc, ◌+◌, ◌-◌, ◌*◌, ◌/◌, ◌%◌, ◌^◌, ◌≤◌, ◌<◌, min, max, ◌≡◌, refl, sym, ap, ◌∙◌, ◌≢◌, ◌↔◌,
  ◌⊎◌, inl, inr, Bool, true, false, not, ◌&&◌, ◌||◌, Option, none, some, List, [], ◌∷◌, ◌++◌, map,
  arith, ltb, leb, ◌==◌, if◌then◌else◌, leb→le, le→leb, ltb→lt, ==_iff, Bool-cases, Option-cases,
  is_some, if_both, Eq, Text, str_eq_iff, str_eq_refl, nat_Eq, text_Eq, pair_Eq, str_eq,
}
use pdc_client.Base.Strings.{codes, fold_case, lower, strip}
use pdc_client.Base.Dict.{Dict, lookup, insert, erase, contains}

-- A JSON file.
pub data File {ℓ} (A : Type ℓ) : Type ℓ where
  absent unreadable : File A
  holds : A → File A

pub record Profile : Type 0 where
  pub email : Text
  pub invited_by : Option Text
  pub role : Option Text
  pub data_roles : Option (List Text)
  pub data_role : Option Text
  pub self_service : Option Bool

pub record Auth : Type 0 where
  pub password_hash : Option Text
  pub temp_password_hash : Option Text
  pub must_change : Bool
  pub reset_token_hash : Option Text
  pub reset_expires_at : Option ℕ
  pub reset_used : Option Bool
  pub session_generation : Option Text
  pub sso_provider : Option Text
  pub sso_share_placeholder : Bool
  pub sso_tid : Option Text
  pub sso_oid : Option Text

pub record Folder : Type 0 where
  pub profile : File Profile
  pub auth : File Auth

-- The users/ directory, `_SESSION_GEN_CACHE`, `_RESET_TOKEN_INDEX` and `_SSO_INDEX`.
pub record Store : Type 0 where
  pub users : Dict Text Folder
  pub generations : Dict Text Text
  pub tokens : Dict Text Text
  pub identities : Dict (Text × Text) Text

-- `{}` where a record is read.
abbrev pub no_auth : Auth
no_auth = record {
  password_hash = none;
  temp_password_hash = none;
  must_change = false;
  reset_token_hash = none;
  reset_expires_at = none;
  reset_used = none;
  session_generation = none;
  sso_provider = none;
  sso_share_placeholder = false;
  sso_tid = none;
  sso_oid = none;
}

abbrev pub plain_profile : Text → Profile
plain_profile email = record {
  email = email;
  invited_by = none;
  role = none;
  data_roles = none;
  data_role = none;
  self_service = none;
}

abbrev pub no_folder : Folder
no_folder = record { profile = absent; auth = absent }

abbrev pub slash_to_underscore : ℕ → ℕ
slash_to_underscore c = if c == b'/' || c == b'\\' then b'_' else c

abbrev pub plain_name : Text → Text
plain_name email = map slash_to_underscore (fold_case email)

-- `.`, `..` and the empty name would leave the users/ directory.
unfoldable pub as_child : Text → Text
as_child out =
    if str_eq out [] || str_eq out (codes ".") || str_eq out (codes "..") then b'_' ∷ out else out

-- `_safe_email`: the folder's name.
unfoldable pub safe_email : Text → Text
unfolding as_child
safe_email email = as_child (plain_name email)

-- Python's truth of an optional text.
abbrev pub truthy : Option Text → Bool
truthy none = false
truthy (some []) = false
truthy (some (c ∷ s)) = true

abbrev pub text_or_empty : Option Text → Text
text_or_empty none = []
text_or_empty (some s) = s

abbrev pub folder_or_empty : Option Folder → Folder
folder_or_empty none = no_folder
folder_or_empty (some folder) = folder

pub folder_of : Text → Store → Folder
folder_of name st = folder_or_empty (lookup name st.users)

abbrev pub is_file {ℓ} : {A : Type ℓ} → File A → Bool
is_file absent = false
is_file _ = true

-- `user_exists`
pub user_exists : Text → Store → Bool
user_exists email st =
    let folder = folder_of (safe_email email) st in is_file folder.profile || is_file folder.auth

abbrev pub auth_or_empty : File Auth → Auth
auth_or_empty (holds auth) = auth
auth_or_empty _ = no_auth

-- `get_auth`: an absent or unreadable record reads as `{}`.
pub get_auth : Text → Store → Auth
get_auth email st = auth_or_empty (folder_of (safe_email email) st).auth

-- `_write_auth`: the whole record is replaced.
pub write_auth : Text → Auth → Store → Store
write_auth email auth st =
    let name = safe_email email in
    record st { users = insert name (record (folder_of name st) { auth = holds auth }) st.users }

abbrev pub readable {ℓ} : {A : Type ℓ} → File A → Option A
readable (holds a) = some a
readable _ = none

-- `get_profile`
pub get_profile : Text → Store → Option Profile
get_profile email st = readable (folder_of (safe_email email) st).profile

abbrev pub profile_or_plain : Text → Option Profile → Profile
profile_or_plain email none = plain_profile email
profile_or_plain email (some profile) = profile

pub write_profile : Text → Profile → Store → Store
write_profile email profile st =
    let name = safe_email email in
    record st {
      users = insert name (record (folder_of name st) { profile = holds profile }) st.users;
    }

abbrev pub cache_generation : Text → Text → Store → Store
cache_generation email generation st = record st {
  generations = insert (safe_email email) generation st.generations;
}

-- `create_account`; the flag is its answer.
pub create_account : Text → Option Text → Text → Store → Bool × Store
create_account email invited_by generation st =
    let safe = safe_email email in
    let profile = record (plain_profile safe) {
      invited_by = elim invited_by [ none ↦ none | some who ↦ some (fold_case who) ];
    } in
    if user_exists email st
    then (
      false,
      if is_file (folder_of safe st).profile
          then st
          else write_profile email (plain_profile safe) st,
    )
    else (
      true,
      cache_generation email generation (
          write_auth email (record no_auth { session_generation = some generation })
            (write_profile email profile st)),
    )

-- `ensure_invited_user`
pub ensure_invited_user : Text → Text → Bool → Text → Store → Bool × Store
ensure_invited_user email invited_by sso_only generation st =
    let (created, st') = create_account email (some invited_by) generation st in
    if created && sso_only
    then (
      true,
      write_auth email
          (record (get_auth email st') {
            sso_provider = some (codes "microsoft");
            sso_share_placeholder = true;
          })
          st',
    )
    else (created, st')

-- The hash of the outstanding link, as `_read_auth_for_scan` sees it.
abbrev pub link_of : File Auth → Option Text
link_of (holds auth) = auth.reset_token_hash
link_of _ = none

without_value {ℓ} : {K : Type ℓ} → Text → Dict K Text → Dict K Text
without_value safe [] = []
without_value safe ((k, who) ∷ d) =
    let rest = without_value safe d in if str_eq who safe then rest else (k, who) ∷ rest

-- `remove_user`, where the folder can be deleted.
pub remove_user : Text → Store → Store
unfolding without_value
remove_user email st =
    let safe = safe_email email in
    record {
      users = erase safe st.users;
      generations = erase safe st.generations;
      tokens = without_value safe (
          if truthy (link_of (folder_of safe st).auth)
          then erase (text_or_empty (link_of (folder_of safe st).auth)) st.tokens
          else st.tokens);
      identities = without_value safe st.identities;
    }

-- What `session_generation` answers for an address with no account.
abbrev pub removed_mark : Text
removed_mark = codes "-"
