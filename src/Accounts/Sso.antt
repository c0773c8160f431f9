-- ===== src/Accounts/Sso.antt =====
-- local_store.py: the binding of an account to a Microsoft Entra identity.
use pdc_client.Base.{
  Bool, true, false, not, ◌&&◌, Option, none, some, [], ◌∷◌, if◌then◌else◌, Text, nat_Eq, text_Eq,
  pair_Eq, str_eq,
}
use pdc_client.Base.Strings.{fold_case}
use pdc_client.Base.Dict.{Dict, lookup, insert, erase}
use pdc_client.Accounts.{
  File, unreadable, Auth, Folder, Store, safe_email, text_or_empty, folder_of, user_exists,
  get_auth, write_auth, readable, truthy,
}

-- `_sso_key`, within one data root.
abbrev pub sso_key : Text → Text → Text × Text
sso_key tid oid = (fold_case tid, fold_case oid)

abbrev pub identity_of : Auth → Text × Text
identity_of auth = (fold_case (text_or_empty auth.sso_tid), fold_case (text_or_empty auth.sso_oid))

-- `sso_identity`
unfoldable pub sso_identity : Text → Store → Text × Text
sso_identity email st = identity_of (get_auth email st)

abbrev pub complete : Text × Text → Bool
complete key = truthy (some key.0) && truthy (some key.1)

abbrev pub same_identity : Text × Text → Text × Text → Bool
same_identity a b = str_eq a.0 b.0 && str_eq a.1 b.1

unfoldable pub scan_identities : Text × Text → Dict Text Folder → Option Text
scan_identities key [] = none
scan_identities key ((name, folder) ∷ users) =
    let rest = scan_identities key users in
    elim (readable folder.auth) [
      | none ↦ rest
      | some auth ↦ if same_identity (identity_of auth) key then some name else rest
    ]

abbrev scanned : Text × Text → Store → Option Text × Store
scanned key st =
    let dropped = record st { identities = erase key st.identities } in
    elim (scan_identities key st.users) [
      | none ↦ (none, dropped)
      | some name ↦ (some name, record dropped { identities = insert key name dropped.identities })
    ]

-- `find_sso_account`
unfoldable pub find_sso_account : Text → Text → Store → Option Text × Store
unfolding sso_identity scan_identities
find_sso_account tid oid st =
    let key = sso_key tid oid in
    if not (complete key) then (none, st) else elim (lookup key st.identities) [
      | none ↦ scanned key st
      | some cached ↦
          if truthy (some cached) && same_identity (sso_identity cached st) key
          then (some cached, st)
          else scanned key st
    ]

pub data Binding : Type 0 where
  bound already conflict missing failed : Binding

abbrev pub is_unreadable : File Auth → Bool
is_unreadable unreadable = true
is_unreadable _ = false

-- `bind_sso_identity`
unfoldable pub bind_sso_identity : Text → Text → Text → Store → Binding × Store
bind_sso_identity email tid oid st =
    let key = sso_key tid oid in
    let auth = get_auth email st in
    let have = identity_of auth in
    let indexed =
      λ (s : Store). record s { identities = insert key (safe_email email) s.identities } in
    if not (complete key)
    then (failed, st)
    else if not (user_exists email st)
    then (missing, st)
    else if is_unreadable (folder_of (safe_email email) st).auth
    then (failed, st)
    else if same_identity have key
    then (already, indexed st)
    else if truthy (some have.1)
    then (conflict, st)
    else (
      bound,
      indexed (write_auth email (record auth { sso_tid = some key.0; sso_oid = some key.1 }) st),
    )
