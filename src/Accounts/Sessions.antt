-- ===== src/Accounts/Sessions.antt =====
-- local_store.py: the session generation of an account.
use pdc_client.Base.{
  Bool, true, false, none, some, [], if◌then◌else◌, Text, nat_Eq, text_Eq, pair_Eq,
}
use pdc_client.Base.Dict.{lookup}
use pdc_client.Accounts.{
  absent, unreadable, holds, Auth, Folder, Store, safe_email, text_or_empty, folder_of, user_exists,
  write_auth, cache_generation, removed_mark, is_file, no_auth,
}

-- What the folder says, and whether the answer is cached.
abbrev pub generation_on_disk : Folder → Text × Bool
generation_on_disk folder = elim folder.auth [
  | absent ↦ if is_file folder.profile then ([], true) else (removed_mark, false)
  | unreadable ↦ ([], false)
  | holds auth ↦ (text_or_empty auth.session_generation, true)
]

-- `session_generation`
unfoldable pub session_generation : Text → Store → Text × Store
session_generation email st = elim (lookup (safe_email email) st.generations) [
  | some cached ↦ (cached, st)
  | none ↦
      let (generation, kept) = generation_on_disk (folder_of (safe_email email) st) in
      (generation, if kept then cache_generation email generation st else st)
]

pub data Bump : Type 0 where
  -- AccountMissing
  missing : Bump
  -- the record cannot be read
  failed : Bump
  bumped : Store → Bump

-- `bump_session_generation`
unfoldable pub bump_session_generation : Text → Text → Store → Bump
bump_session_generation email generation st =
    let ended = λ (auth : Auth). bumped (
      cache_generation email generation
        (write_auth email (record auth { session_generation = some generation }) st)) in
    if user_exists email st
    then elim (folder_of (safe_email email) st).auth [
      | absent ↦ ended no_auth
      | unreadable ↦ failed
      | holds auth ↦ ended auth
    ]
    else missing
