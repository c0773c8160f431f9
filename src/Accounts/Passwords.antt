-- ===== src/Accounts/Passwords.antt =====
-- local_store.py: passwords of the AuthStore.
use pdc_client.Base.{
  Bool, true, false, not, ◌&&◌, ◌||◌, Option, none, some, [], if◌then◌else◌, is_some, Text, nat_Eq,
  text_Eq, pair_Eq, str_eq,
}
use pdc_client.Accounts.{
  Auth, Store, truthy, text_or_empty, user_exists, get_auth, write_auth, cache_generation,
  create_account,
}
use pdc_client.Accounts.Profiles.{set_role}
use pdc_client.Base.Dict.{erase}
use pdc_client.Base.Strings.{codes, fold_case}

-- `has_password`
unfoldable pub has_password : Text → Store → Bool
has_password email st = truthy (get_auth email st).password_hash

-- `_apply_password_hash`
unfoldable pub apply_password_hash : Auth → Text → Bool → Auth
apply_password_hash auth password_hash force_change = record auth {
  password_hash = some password_hash;
  temp_password_hash = none;
  must_change = force_change;
  reset_token_hash = none;
  reset_expires_at = none;
  reset_used = none;
}

abbrev pub forget_token : Option Text → Store → Store
forget_token old st =
    if truthy old then record st { tokens = erase (text_or_empty old) st.tokens } else st

-- `set_password`, with the hash of the new password; `none` is AccountMissing.
unfoldable pub set_password : Text → Text → Bool → Text → Store → Option Store
unfolding apply_password_hash
set_password email new_hash force_change generation st =
    let auth = get_auth email st in
    let changed = record (apply_password_hash auth new_hash force_change) {
      session_generation = some generation;
    } in
    if user_exists email st
    then some (
        forget_token auth.reset_token_hash
          (cache_generation email generation (write_auth email changed st)))
    else none

-- `clear_temp_password`
unfoldable pub clear_temp_password : Text → Store → Store
clear_temp_password email st =
    let auth = get_auth email st in
    let cleared = record auth { temp_password_hash = none; must_change = false } in
    if is_some auth.temp_password_hash || auth.must_change then write_auth email cleared st else st

pub data Match : Type 0 where
  own temporary : Match

-- `verify_password`; `check` is `check_password_hash`.
unfoldable pub verify_password : (Text → Text → Bool) → Text → Text → Store → Option Match × Store
unfolding clear_temp_password
verify_password check email password st =
    let auth = get_auth email st in
    if truthy auth.password_hash && check (text_or_empty auth.password_hash) password
    then (some own, if truthy auth.temp_password_hash then clear_temp_password email st else st)
    else if truthy auth.temp_password_hash && check (text_or_empty auth.temp_password_hash) password
    then (some temporary, st)
    else (none, st)

-- `is_sso_only`
unfoldable pub is_sso_only : Text → Store → Bool
is_sso_only email st =
    let auth = get_auth email st in
    truthy auth.sso_provider && not (truthy auth.password_hash || truthy auth.temp_password_hash)

-- `mark_sso_login`; the flag is its answer.
unfoldable pub mark_sso_login : Text → Text → Store → Bool × Store
mark_sso_login email provider st =
    if user_exists email st
    then (true, write_auth email (record (get_auth email st) { sso_provider = some provider }) st)
    else (false, st)

abbrev or_same : Store → Option Store → Store
or_same st none = st
or_same st (some st') = st'

-- `ensure_local_admin`: the account named in the settings, with its first password.
unfoldable pub ensure_local_admin : Text → Text → Text → Text → Text → Store → Store
ensure_local_admin username boot_password boot_hash generation generation' st =
    let uname = fold_case username in
    let (_, created) = create_account uname none generation st in
    let (_, admin) = set_role uname (codes "admin") created in
    let auth = get_auth uname admin in
    if str_eq uname []
    then st
    else if truthy auth.password_hash || truthy auth.temp_password_hash
    then admin
    else if str_eq boot_password []
    then admin
    else or_same admin (set_password uname boot_hash true generation' admin)
