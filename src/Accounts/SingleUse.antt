-- ===== src/Accounts/SingleUse.antt =====
-- local_store.py, AuthStore: a reset link that was used stays refused.
use pdc_client.Base.{
  ℕ, ◌≡◌, refl, ◌≢◌, inl, inr, true, ◌||◌, Option, none, some, List, [], ◌∷◌, arith, Option-cases,
  Text, nat_Eq, text_Eq, pair_Eq, str_eq,
}
use pdc_client.Base.Lists.{all}
use pdc_client.Base.Dict.{Dict, lookup, distinct_keys}
use pdc_client.Accounts.{Auth, Folder, Store, holds, safe_email, folder_of, write_auth}
use pdc_client.Accounts.Passwords.{apply_password_hash}
use pdc_client.Accounts.Profiles.{nonempty}
use pdc_client.Accounts.Laws.{get_auth-write_auth}
use pdc_client.Accounts.Resets.{
  scan_tokens, find_reset_token, adopt, redeem, is_used, consumed, consume_reset_token,
}
use pdc_client.Accounts.Links.{users-find_reset_token, redeem-some}
use pdc_client.Accounts.Spent.{
  folder_spent, all_values, all_values_but_one, Spent, own-Spent, Spent-same_users,
}
use pdc_client.Accounts.Calls.{AuthCall, auth_after, auth_run, spares}
use pdc_client.Accounts.SpentCalls.{Spent-auth_after}

scanned_used :
    (h name : Text) (auth : Auth) (users : Dict Text Folder)
    → all_values (folder_spent h) users ≡ true
    → scan_tokens h users ≡ some (name, auth)
    → is_used auth ≡ true
unfolding all scan_tokens
scanned_used h name auth [] s e = cc
scanned_used h name auth ((n, folder) ∷ users) s e =
    ground (arith, s, e, scanned_used h name auth users)

adopted_used :
    (h name : Text) (auth : Auth) (o : Option (Text × Auth)) (st : Store)
    → (o ≡ some (name, auth) → is_used auth ≡ true)
    → (adopt h o st).0 ≡ some (name, auth)
    → is_used auth ≡ true
adopted_used h name auth none st f e = cc
adopted_used h name auth (some (n, a)) st f e = f e

-- What a lookup finds is used.
found_used :
    (hash : Text → Text) (token email name : Text) (auth : Auth) (st : Store)
    → hash token ≢ []
    → Spent (hash token) email st
    → (find_reset_token hash token st).0 ≡ some (name, auth)
    → is_used auth ≡ true
unfolding find_reset_token
found_used hash token email name auth st ne s e =
    let h = hash token in
    let scanned =
      adopted_used h name auth (scan_tokens h st.users) st
        (scanned_used h name auth st.users s.all_used) in
    elim (Option-cases (lookup h st.tokens)) [
      | inl absent ↦ ground (arith, e, absent, scanned)
      | inr (cached, known) ↦ ground (arith, e, known, scanned, own-Spent h email ne cached st s)
    ]

redeem_used :
    (p g : Text) (now : ℕ) (o : Option (Text × Auth)) (st : Store)
    → ((name : Text) (auth : Auth) → o ≡ some (name, auth) → is_used auth ≡ true)
    → (redeem p g now o st).0 ≡ none
redeem_used p g now none st f = refl
redeem_used p g now (some (name, auth)) st f = ground (arith, f name auth refl)

Spent-link_refused :
    (hash : Text → Text) (token email p g : Text) (now : ℕ) (st : Store)
    → hash token ≢ []
    → Spent (hash token) email st
    → (consume_reset_token hash token p g now st).0 ≡ none
unfolding consume_reset_token
Spent-link_refused hash token email p g now st ne s =
    redeem_used p g now (find_reset_token hash token st).0 (find_reset_token hash token st).1
      (λ name auth. found_used hash token email name auth st ne s)

-- The use itself leaves the hash used, when no other record holds it.
Spent-write_consumed :
    (h email p g : Text) (auth : Auth) (st : Store)
    → nonempty p ≡ true
    → distinct_keys st.users ≡ true
    → all (λ (e : Text × Folder). str_eq e.0 (safe_email email) || folder_spent h e.1) st.users
      ≡ true
    → Spent h email (write_auth email (consumed p g auth) st)
Spent-write_consumed h email p g auth st ok distinct others = record {
  all_used =
      unfold write_auth in
      all_values_but_one (folder_spent h) (safe_email email)
        (record (folder_of (safe_email email) st) { auth = holds (consumed p g auth) }) st.users
        distinct (ground arith) others;
  has_own =
      rw (get_auth-write_auth email (consumed p g auth) st)
        (unfold apply_password_hash in ground (arith, ok));
}

Spent-run :
    (hash : Text → Text) (h email : Text) (ne : h ≢ []) (cs : List AuthCall) (st : Store)
    → all (spares hash h email) cs ≡ true
    → Spent h email st
    → Spent h email (auth_run hash cs st)
unfolding all auth_run
Spent-run hash h email ne [] st ok s = s
Spent-run hash h email ne (c ∷ cs) st ok s =
    Spent-run hash h email ne cs (auth_after hash c st) (ground (arith, ok))
      (Spent-auth_after h email ne hash c st (ground (arith, ok)) s)

-- After a use of a reset link that succeeded and set a password hash that is not empty, every later use
-- of the token is refused, with any password and at any time, whatever calls of the kinds in
-- AuthCall come in between: creating and inviting accounts, setting passwords, clearing temporary
-- ones, marking SSO sign-ins, changing roles and the self-service switch, ending sessions, minting,
-- redeeming, clearing and restoring links, reloading their index, binding identities and removing
-- accounts. Conditions: the folders have different names, no other account's record holds the
-- token's hash unused, the hash is not empty, and none of the calls in between mints a token with
-- the same hash, sets an empty password hash, restores on another account a record with the hash,
-- or removes the account itself.
pub reset_link_single_use :
    (hash : Text → Text) (token hash1 gen1 hash2 gen2 : Text) (now later : ℕ) (st : Store)
    (email : Text) (calls : List AuthCall)
    → distinct_keys st.users ≡ true
    → all
        (λ (e : Text × Folder). str_eq e.0 (safe_email email) || folder_spent (hash token) e.1)
        st.users
      ≡ true
    → hash token ≢ []
    → nonempty hash1 ≡ true
    → (consume_reset_token hash token hash1 gen1 now st).0 ≡ some email
    → all (spares hash (hash token) email) calls ≡ true
    → (consume_reset_token hash token hash2 gen2 later
        (auth_run hash calls (consume_reset_token hash token hash1 gen1 now st).1)).0
      ≡ none
reset_link_single_use hash token hash1 gen1 hash2 gen2 now later st email calls distinct others ne
      ok used spared =
    let h = hash token in
    let st' = (find_reset_token hash token st).1 in
    let same = users-find_reset_token hash token st in
    let (auth, found, unused, live, after) =
      redeem-some hash1 gen1 now (find_reset_token hash token st).0 st' email
        (unfold consume_reset_token in used) in
    let first : Spent h email (consume_reset_token hash token hash1 gen1 now st).1 =
      unfold consume_reset_token in
      rw after (
        Spent-same_users h email ne (write_auth email (consumed hash1 gen1 auth) st') _ refl (
          Spent-write_consumed h email hash1 gen1 auth st' ok (rw same distinct)
            (rw same others))) in
    Spent-link_refused hash token email hash2 gen2 later _ ne
      (Spent-run hash h email ne calls _ spared first)
