-- ===== src/Accounts/Tests.antt =====
-- The AuthStore of local_store.py on concrete accounts.
use pdc_client.Base.{
  ◌≡◌, refl, true, false, ◌||◌, Option, none, some, List, [], ◌∷◌, Text, nat_Eq, text_Eq, pair_Eq,
  str_eq,
}
use pdc_client.Base.Lists.{elem, filter, all}
use pdc_client.Base.Strings.{codes, strip, lower}
use pdc_client.Base.Dict.{lookup, insert, erase}
use pdc_client.Accounts.{
  Folder, Store, create_account, user_exists, safe_email, as_child, folder_of, get_auth,
  get_profile, write_auth, write_profile,
}
use pdc_client.Accounts.Passwords.{set_password}
use pdc_client.Accounts.Sessions.{session_generation}
use pdc_client.Accounts.Resets.{
  is_token, reset_record_live, create_reset_token, find_reset_token, consume_reset_token,
  scan_tokens,
}
use pdc_client.Accounts.Sso.{
  sso_identity, sso_key, bound, conflict, bind_sso_identity, find_sso_account,
}
use pdc_client.Accounts.Links.{minted_link_works}
use pdc_client.Accounts.Spent.{folder_spent}
use pdc_client.Base.Dict.{distinct_keys}
use pdc_client.Accounts.Calls.{
  AuthCall, minting, restoring, creating, redeeming, ending_sessions, spares, auth_run,
}
use pdc_client.Accounts.SingleUse.{reset_link_single_use}
use pdc_client.Accounts.Writers.{new_password_ends_sessions}
use pdc_client.Accounts.Identities.{identity_bound_once, bound_identity_finds_account}

-- Opens the code for the runs below.
runs_open : Unit {0}
unfolding create_account user_exists safe_email as_child folder_of get_auth get_profile write_auth
    write_profile set_password is_token reset_record_live create_reset_token find_reset_token
    consume_reset_token scan_tokens bind_sso_identity lookup insert erase strip lower str_eq all
    elem filter
runs_open = tt

abbrev none_yet : Store
none_yet = record { users = []; generations = []; tokens = []; identities = [] }

abbrev ann : Text
ann = codes "Ann@x.org"

abbrev start : Store
start = (create_account ann none (codes "g0") none_yet).1

abbrev hash : Text → Text
hash s = b'h' ∷ s

abbrev token : Text
token = codes "0123456789012345678901234567890123456789abc"

abbrev token2 : Text
token2 = codes "9123456789012345678901234567890123456789abc"

abbrev mailed : Store
mailed = (create_reset_token hash ann token (some 60) 100 start).1

abbrev used : Store
used = (consume_reset_token hash token (codes "new") (codes "g1") 120 mailed).1

abbrev bound_ann : Store
bound_ann = (bind_sso_identity ann (codes "T1") (codes "o1") start).1

ann_exists : user_exists ann start ≡ true
unfolding runs_open
ann_exists = refl

-- A second link is mailed and taken back, Bob joins, and the sessions end.
abbrev in_between : List AuthCall
in_between =
    minting ann token2 none 130
    ∷ restoring ann (get_auth ann used) token2
    ∷ creating (codes "bob@x.org") none (codes "g5")
    ∷ redeeming token (codes "sly") (codes "g6") 140
    ∷ ending_sessions ann (codes "g7")
    ∷ []

in_between-spares : all (spares hash (hash token) (codes "ann@x.org")) in_between ≡ true
unfolding runs_open spares
in_between-spares = refl

others_spent :
    all
      (λ (e : Text × Folder).
        str_eq e.0 (safe_email (codes "ann@x.org")) || folder_spent (hash token) e.1)
      mailed.users
    ≡ true
unfolding runs_open
others_spent = refl

folders_distinct : distinct_keys mailed.users ≡ true
unfolding runs_open distinct_keys
folders_distinct = refl

used_by :
    (consume_reset_token hash token (codes "new") (codes "g1") 120 mailed).0
    ≡ some (codes "ann@x.org")
unfolding runs_open
used_by = refl

reset_link_single_use_example :
    (consume_reset_token hash token (codes "other") (codes "g2") 150 (
      auth_run hash in_between
        (consume_reset_token hash token (codes "new") (codes "g1") 120 mailed).1)).0
    ≡ none
reset_link_single_use_example =
    reset_link_single_use hash token (codes "new") (codes "g1") (codes "other") (codes "g2") 120 150
      mailed (codes "ann@x.org") in_between folders_distinct others_spent (λ e. cc) refl used_by
      in_between-spares

minted_link_works_example :
    (consume_reset_token hash token (codes "new") (codes "g1") 159 mailed).0 ≡ some (safe_email ann)
minted_link_works_example =
    minted_link_works hash ann token (codes "new") (codes "g1") 60 100 159 start ann_exists token_ok
      (λ e. cc)
  where
    token_ok : is_token token ≡ true
    token_ok = unfold runs_open in refl

abbrev or_none_yet : Option Store → Store
or_none_yet none = none_yet
or_none_yet (some st) = st

new_password_ends_sessions_example :
    (session_generation ann
      (or_none_yet (set_password ann (codes "new") false (codes "g9") start))).0
    ≡ codes "g9"
unfolding runs_open
new_password_ends_sessions_example =
    new_password_ends_sessions ann ann (codes "new") (codes "g9") false start
      (or_none_yet (set_password ann (codes "new") false (codes "g9") start)) refl

ann_bound : bind_sso_identity ann (codes "T1") (codes "o1") start ≡ (bound, bound_ann)
unfolding runs_open
ann_bound = refl

identity_bound_once_example :
    (sso_identity ann (bind_sso_identity ann (codes "t1") (codes "o2") bound_ann).1
      ≡ sso_key (codes "T1") (codes "o1"))
    × ((bind_sso_identity ann (codes "t1") (codes "o2") bound_ann).0 ≡ conflict)
unfolding runs_open
identity_bound_once_example =
    identity_bound_once ann (codes "T1") (codes "o1") (codes "t1") (codes "o2") start bound_ann
      ann_bound

bound_identity_finds_account_example :
    (find_sso_account (codes "T1") (codes "o1") bound_ann).0 ≡ some (safe_email ann)
bound_identity_finds_account_example =
    bound_identity_finds_account ann (codes "T1") (codes "o1") start bound_ann ann_bound

abbrev given : List Text
given = codes "r1" ∷ [] ∷ codes "r2" ∷ codes "r1" ∷ []
