-- ===== src/Accounts/Calls.antt =====
-- local_store.py, AuthStore: sequences of calls that write the accounts.
use pdc_client.Base.{
  ℕ, Bool, true, not, ◌||◌, Option, none, some, List, [], ◌∷◌, Text, nat_Eq, text_Eq, pair_Eq,
  str_eq,
}
use pdc_client.Accounts.{
  Auth, Store, safe_email, text_or_empty, remove_user, create_account, ensure_invited_user,
}
use pdc_client.Accounts.Passwords.{set_password, clear_temp_password, mark_sso_login}
use pdc_client.Accounts.Profiles.{nonempty, set_role, set_data_roles, set_self_service}
use pdc_client.Accounts.Sessions.{Bump, missing, failed, bumped, bump_session_generation}
use pdc_client.Accounts.Resets.{
  create_reset_token, consume_reset_token, clear_reset_token, restore_reset_token,
  load_reset_token_index,
}
use pdc_client.Accounts.Sso.{bind_sso_identity}

-- The modelled calls of the AuthStore that write an account's folder, and the reload of the index of the
-- links.
pub data AuthCall : Type 0 where
  creating : Text → Option Text → Text → AuthCall
  inviting : Text → Text → Bool → Text → AuthCall
  setting_password : Text → Text → Bool → Text → AuthCall
  clearing_temp : Text → AuthCall
  marking_sso : Text → Text → AuthCall
  changing_role : Text → Text → AuthCall
  changing_data_roles : Text → List Text → AuthCall
  switching : Text → Bool → AuthCall
  ending_sessions : Text → Text → AuthCall
  minting : Text → Text → Option ℕ → ℕ → AuthCall
  redeeming : Text → Text → Text → ℕ → AuthCall
  clearing : Text → AuthCall
  restoring : Text → Auth → Text → AuthCall
  reindexing : AuthCall
  binding : Text → Text → Text → AuthCall
  removing_account : Text → AuthCall

abbrev pub or_store : Store → Option Store → Store
or_store st none = st
or_store st (some st') = st'

abbrev pub or_bumped : Store → Bump → Store
or_bumped st (bumped st') = st'
or_bumped st missing = st
or_bumped st failed = st

unfoldable pub auth_after : (Text → Text) → AuthCall → Store → Store
auth_after hash (creating e by g) st = (create_account e by g st).1
auth_after hash (inviting e by sso g) st = (ensure_invited_user e by sso g st).1
auth_after hash (setting_password e p force g) st = or_store st (set_password e p force g st)
auth_after hash (clearing_temp e) st = clear_temp_password e st
auth_after hash (marking_sso e provider) st = (mark_sso_login e provider st).1
auth_after hash (changing_role e role) st = (set_role e role st).1
auth_after hash (changing_data_roles e ids) st = (set_data_roles e ids st).1
auth_after hash (switching e on) st = (set_self_service e on st).1
auth_after hash (ending_sessions e g) st = or_bumped st (bump_session_generation e g st)
auth_after hash (minting e token ttl now) st = (create_reset_token hash e token ttl now st).1
auth_after hash (redeeming token p g now) st = (consume_reset_token hash token p g now st).1
auth_after hash (clearing e) st = clear_reset_token e st
auth_after hash (restoring e previous minted) st = restore_reset_token hash e previous minted st
auth_after hash reindexing st = load_reset_token_index st
auth_after hash (binding e tid oid) st = (bind_sso_identity e tid oid st).1
auth_after hash (removing_account e) st = remove_user e st

unfoldable pub auth_run : (Text → Text) → List AuthCall → Store → Store
auth_run hash [] st = st
auth_run hash (c ∷ cs) st = auth_run hash cs (auth_after hash c st)

-- A call that mints no token with the hash `h`, sets no empty password hash, restores no record with `h`
-- on an account other than `email`, and does not remove that account.
unfoldable pub spares : (Text → Text) → Text → Text → AuthCall → Bool
spares hash h email (setting_password e p force g) = nonempty p
spares hash h email (minting e token ttl now) = not (str_eq (hash token) h)
spares hash h email (redeeming token p g now) = nonempty p
spares hash h email (restoring e previous minted) =
    str_eq (safe_email e) (safe_email email)
    || not (str_eq (text_or_empty previous.reset_token_hash) h)
spares hash h email (removing_account e) = not (str_eq (safe_email e) (safe_email email))
spares hash h email _ = true
