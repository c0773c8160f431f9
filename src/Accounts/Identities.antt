-- ===== src/Accounts/Identities.antt =====
-- local_store.py: what holds of the Entra identity and of the roles that an account was given.
use pdc_client.Base.{
  ◌≡◌, refl, ap, ◌∙◌, true, not, some, arith, if◌then◌else◌, Text, str_eq_refl, nat_Eq, text_Eq,
  pair_Eq,
}
use pdc_client.Base.Strings.{fold_case, fold_case_idem}
use pdc_client.Base.Dict.{lookup, insert, lookup-insert}
use pdc_client.Accounts.{
  holds, Folder, Auth, Store, safe_email, user_exists, get_auth, write_auth, truthy, folder_of,
}
use pdc_client.Accounts.Laws.{
  get_auth-same_users, folder_of-write_auth, get_auth-write_auth, user_exists-write_auth,
  get_auth-safe_email, safe_email-ne-nil,
}
use pdc_client.Accounts.Sso.{
  bound, already, conflict, failed, sso_key, identity_of, complete, same_identity,
  bind_sso_identity, find_sso_account, sso_identity,
}

-- The record and the store that a first binding writes.
abbrev bound_auth : Text → Text → Auth → Auth
bound_auth tid oid auth = record auth {
  sso_tid = some (fold_case tid);
  sso_oid = some (fold_case oid);
}

abbrev bound_store : Text → Text → Text → Store → Store
bound_store email tid oid st =
    let written = write_auth email (bound_auth tid oid (get_auth email st)) st in
    record written { identities = insert (sso_key tid oid) (safe_email email) written.identities }

bind_result :
    (email tid oid : Text) (st st' : Store)
    → bind_sso_identity email tid oid st ≡ (bound, st')
    → (complete (sso_key tid oid) ≡ true) × (st' ≡ bound_store email tid oid st)
unfolding bind_sso_identity
bind_result email tid oid st st' bind = (ground arith, ground arith)

module _ (email tid oid : Text) (st : Store) where
  abbrev after : Store
  after = bound_store email tid oid st

  get_auth-after : get_auth email after ≡ bound_auth tid oid (get_auth email st)
  get_auth-after = get_auth-same_users email after _ refl ∙ get_auth-write_auth email _ st

  user_exists-after : user_exists email after ≡ true
  unfolding user_exists folder_of
  user_exists-after = unfold user_exists folder_of in user_exists-write_auth email _ st

  auth_file-after :
      (folder_of (safe_email email) after).auth ≡ holds (bound_auth tid oid (get_auth email st))
  unfolding folder_of
  auth_file-after =
      unfold folder_of in
      ap (λ (f : Folder). f.auth)
        (folder_of-write_auth email (bound_auth tid oid (get_auth email st)) st)

  identity-after : identity_of (get_auth email after) ≡ sso_key tid oid
  identity-after = rw get_auth-after (ground (arith, fold_case_idem tid, fold_case_idem oid))

module _ (email tid oid : Text) (st : Store) (ok : complete (sso_key tid oid) ≡ true)
    (tid' oid' : Text) where
  bound_answer : (bind_sso_identity email tid' oid' (after email tid oid st)).0 ≡ (
      if not (complete (sso_key tid' oid'))
      then failed
      else if same_identity (sso_key tid oid) (sso_key tid' oid')
      then already
      else conflict)
  unfolding bind_sso_identity
  bound_answer = ground (
    arith,
    ok,
    identity-after email tid oid st,
    user_exists-after email tid oid st,
    auth_file-after email tid oid st,
  )

  users_stay :
      (bind_sso_identity email tid' oid' (after email tid oid st)).1.users
      ≡ (after email tid oid st).users
  unfolding bind_sso_identity
  users_stay = ground (
    arith,
    ok,
    identity-after email tid oid st,
    user_exists-after email tid oid st,
    auth_file-after email tid oid st,
  )

  bound_stays :
      sso_identity email (bind_sso_identity email tid' oid' (after email tid oid st)).1
      ≡ sso_key tid oid
  unfolding sso_identity
  bound_stays =
      ap identity_of (get_auth-same_users email _ _ users_stay) ∙ identity-after email tid oid st

-- After its first binding an account stays bound to that identity: a further attempt with any identity
-- leaves the identity that is stored, and answers "failed" for an incomplete one, "already" for the
-- same one and "conflict" for every other one.
pub identity_bound_once :
    (email tid oid tid' oid' : Text) (st st' : Store)
    → bind_sso_identity email tid oid st ≡ (bound, st')
    → (sso_identity email (bind_sso_identity email tid' oid' st').1 ≡ sso_key tid oid)
      × ((bind_sso_identity email tid' oid' st').0 ≡ (
          if not (complete (sso_key tid' oid'))
          then failed
          else if same_identity (sso_key tid oid) (sso_key tid' oid')
          then already
          else conflict))
identity_bound_once email tid oid tid' oid' st st' bind =
    let (ok, e) = bind_result email tid oid st st' bind in
    rw e (bound_stays email tid oid st ok tid' oid', bound_answer email tid oid st ok tid' oid')

find_cached :
    (tid oid name : Text) (st : Store)
    → complete (sso_key tid oid) ≡ true
    → lookup (sso_key tid oid) st.identities ≡ some name
    → truthy (some name) ≡ true
    → same_identity (sso_identity name st) (sso_key tid oid) ≡ true
    → find_sso_account tid oid st ≡ (some name, st)
unfolding find_sso_account
find_cached tid oid name st c l t s =
    rw (c, find_sso_account) (rw (l, find_sso_account) (rw t (rw s)))

-- A bound identity finds its account.
pub bound_identity_finds_account :
    (email tid oid : Text) (st st' : Store)
    → bind_sso_identity email tid oid st ≡ (bound, st')
    → (find_sso_account tid oid st').0 ≡ some (safe_email email)
bound_identity_finds_account email tid oid st st' bind =
    let (ok, e) = bind_result email tid oid st st' bind in
    let s = bound_store email tid oid st in
    let identity : sso_identity (safe_email email) s ≡ sso_key tid oid =
      unfold sso_identity in
      ap identity_of (get_auth-safe_email email s) ∙ identity-after email tid oid st in
    let same : same_identity (sso_identity (safe_email email) s) (sso_key tid oid) ≡ true =
      rw identity (ground (arith, str_eq_refl (fold_case tid), str_eq_refl (fold_case oid))) in
    let indexed : lookup (sso_key tid oid) s.identities ≡ some (safe_email email) = ground (
      arith,
      lookup-insert (sso_key tid oid) (sso_key tid oid) (safe_email email)
          (write_auth email (bound_auth tid oid (get_auth email st)) st).identities,
      str_eq_refl (fold_case tid),
      str_eq_refl (fold_case oid),
    ) in
    rw e (rw (find_cached tid oid (safe_email email) s ok indexed (safe_email-ne-nil email) same))
