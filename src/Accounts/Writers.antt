-- ===== src/Accounts/Writers.antt =====
-- local_store.py: what the AuthStore reads of an account that is not there, and what its removal and a
-- new password mean for the sessions of an account.
use pdc_client.Base.{
  ◌≡◌, Bool, false, ◌||◌, Option, none, some, arith, if◌then◌else◌, Text, str_eq_iff, nat_Eq,
  text_Eq, pair_Eq, str_eq,
}
use pdc_client.Base.Dict.{lookup, lookup-insert, lookup-erase}
use pdc_client.Accounts.{
  holds, Auth, Folder, Store, no_auth, no_folder, safe_email, folder_of, user_exists, get_auth,
  write_auth, cache_generation, remove_user, removed_mark, is_file,
}
use pdc_client.Accounts.Passwords.{set_password, forget_token, apply_password_hash}
use pdc_client.Accounts.Sessions.{session_generation}

no_files :
    (folder : Folder) → (is_file folder.profile || is_file folder.auth) ≡ false → folder ≡ no_folder
no_files folder h = ground arith

module _ (email : Text) (st : Store) (gone : user_exists email st ≡ false) where
  folder_of_gone : folder_of (safe_email email) st ≡ no_folder
  folder_of_gone = no_files (folder_of (safe_email email) st) (unfold user_exists in gone)

  pub get_auth_gone : get_auth email st ≡ no_auth
  unfolding get_auth
  get_auth_gone = rw folder_of_gone

users_after_removal :
    (email : Text) (st : Store) → folder_of (safe_email email) (remove_user email st) ≡ no_folder
unfolding folder_of remove_user
users_after_removal email st = ground (
  arith,
  lookup-erase (safe_email email) (safe_email email) st.users,
  str_eq_iff (safe_email email) (safe_email email),
)

generations_after_removal :
    (email : Text) (st : Store)
    → lookup (safe_email email) (remove_user email st).generations ≡ none
unfolding remove_user
generations_after_removal email st = ground (
  arith,
  lookup-erase (safe_email email) (safe_email email) st.generations,
  str_eq_iff (safe_email email) (safe_email email),
)

-- After its removal an account is not there, and reading its session generation answers the mark
-- of a removed account, whatever was cached or stored before.
pub removed_account_is_gone :
    (email : Text) (st : Store)
    → (user_exists email (remove_user email st) ≡ false)
      × ((session_generation email (remove_user email st)).0 ≡ removed_mark)
unfolding user_exists session_generation
removed_account_is_gone email st = (
  rw (users_after_removal email st),
  rw (generations_after_removal email st, session_generation) (rw (users_after_removal email st)),
)

cached_generation :
    (email name generation : Text) (st : Store)
    → (session_generation name (cache_generation email generation st)).0 ≡ (
        if str_eq (safe_email email) (safe_email name)
        then generation
        else (session_generation name st).0)
unfolding session_generation folder_of
cached_generation email name generation st =
    ground (arith, lookup-insert (safe_email email) (safe_email name) generation st.generations)

-- Which generation `name` reads after `email`'s was replaced.
module _ (email name : Text) (auth : Auth) (st : Store)
    (other : str_eq (safe_email email) (safe_email name) ≡ false) where
  generation_elsewhere :
      (session_generation name (write_auth email auth st)).0 ≡ (session_generation name st).0
  unfolding session_generation write_auth folder_of
  generation_elsewhere = ground (
    arith,
    lookup-insert (safe_email email) (safe_email name)
        (record (folder_of (safe_email email) st) { auth = holds auth }) st.users,
  )

generation-forget_token :
    (name : Text) (old : Option Text) (st : Store)
    → (session_generation name (forget_token old st)).0 ≡ (session_generation name st).0
unfolding session_generation folder_of
generation-forget_token name old st = ground arith

-- A new password gives the account the new session generation, which ends its other sessions, and
-- leaves the generation that every other account reads.
pub new_password_ends_sessions :
    (email name new_hash generation : Text) (force : Bool) (st st' : Store)
    → set_password email new_hash force generation st ≡ some st'
    → (session_generation name st').0 ≡ (
        if str_eq (safe_email email) (safe_email name)
        then generation
        else (session_generation name st).0)
unfolding set_password
new_password_ends_sessions email name new_hash generation force st st' h =
    let changed = record (apply_password_hash (get_auth email st) new_hash force) {
      session_generation = some generation;
    } in
    let written = write_auth email changed st in
    ground (
      arith,
      generation-forget_token name (get_auth email st).reset_token_hash
          (cache_generation email generation written),
      cached_generation email name generation written,
      generation_elsewhere email name changed st,
    )
