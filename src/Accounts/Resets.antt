-- ===== src/Accounts/Resets.antt =====
-- local_store.py: reset links. A token is mailed, its hash is stored in the account's auth.json.
use pdc_client.Base.{
  ℕ, ◌+◌, Bool, true, false, not, ◌&&◌, ◌||◌, Option, none, some, [], ◌∷◌, ltb, leb, ◌==◌,
  if◌then◌else◌, is_some, Text, nat_Eq, text_Eq, pair_Eq, str_eq,
}
use pdc_client.Base.Lists.{length, all}
use pdc_client.Base.Dict.{Dict, lookup, insert}
use pdc_client.Accounts.{
  Auth, Folder, Store, safe_email, truthy, text_or_empty, user_exists, get_auth, write_auth,
  cache_generation, readable,
}
use pdc_client.Accounts.Passwords.{apply_password_hash, forget_token}

abbrev pub reset_token_ttl_s : ℕ
reset_token_ttl_s = 1800

-- `[A-Za-z0-9_-]`
token_char : ℕ → Bool
token_char c =
    leb b'A' c && leb c b'Z'
    || leb b'a' c && leb c b'z'
    || leb b'0' c && leb c b'9'
    || c == b'_'
    || c == b'-'

-- `_RESET_TOKEN_RE.fullmatch`
unfoldable pub is_token : Text → Bool
unfolding token_char
is_token token = length token == 43 && all token_char token

-- `reset_record_live` at the time `now`.
unfoldable pub reset_record_live : ℕ → Auth → Bool
reset_record_live now auth =
    truthy auth.reset_token_hash
    && elim auth.reset_used [ none ↦ false | some used ↦ not used ]
    && elim auth.reset_expires_at [ none ↦ false | some expires ↦ ltb now expires ]

-- `create_reset_token`; `hash` is SHA-256. The answer is the token.
unfoldable pub create_reset_token :
    (Text → Text) → Text → Text → Option ℕ → ℕ → Store → Option Text × Store
create_reset_token hash email token ttl_s now st =
    let auth = get_auth email st in
    let ttl : ℕ = elim ttl_s [ none ↦ reset_token_ttl_s | some s ↦ s ] in
    let minted = record auth {
      reset_token_hash = some (hash token);
      reset_expires_at = some (now + ttl);
      reset_used = some false;
    } in
    let written = forget_token auth.reset_token_hash (write_auth email minted st) in
    if user_exists email st
    then (
      some token,
      record written { tokens = insert (hash token) (safe_email email) written.tokens },
    )
    else (none, st)

abbrev pub holds_hash : Text → Auth → Bool
holds_hash token_hash auth = str_eq (text_or_empty auth.reset_token_hash) token_hash

-- The scan of the folders for a readable record with the hash.
unfoldable pub scan_tokens : Text → Dict Text Folder → Option (Text × Auth)
scan_tokens token_hash [] = none
scan_tokens token_hash ((name, folder) ∷ users) =
    let rest = scan_tokens token_hash users in
    elim (readable folder.auth) [
      | none ↦ rest
      | some auth ↦ if holds_hash token_hash auth then some (name, auth) else rest
    ]

-- What the scan found goes into the index.
abbrev pub adopt : Text → Option (Text × Auth) → Store → Option (Text × Auth) × Store
adopt token_hash none st = (none, st)
adopt token_hash (some (name, auth)) st =
    (some (name, auth), record st { tokens = insert token_hash name st.tokens })

-- `find_reset_token`: the folder's name and its record. (An empty name in the index reads as a
-- miss.)
unfoldable pub find_reset_token : (Text → Text) → Text → Store → Option (Text × Auth) × Store
find_reset_token hash token st =
    let token_hash = hash token in
    if not (is_token token) then (none, st) else elim (lookup token_hash st.tokens) [
      | none ↦ adopt token_hash (scan_tokens token_hash st.users) st
      | some cached ↦
          if truthy (some cached) && holds_hash token_hash (get_auth cached st)
          then (some (cached, get_auth cached st), st)
          else adopt token_hash (scan_tokens token_hash st.users) st
    ]

abbrev pub is_used : Auth → Bool
is_used auth = elim auth.reset_used [ none ↦ false | some used ↦ used ]

-- The record that `consume_reset_token` writes: the hash stays, marked used.
abbrev pub consumed : Text → Text → Auth → Auth
consumed new_hash generation auth = record (apply_password_hash auth new_hash false) {
  reset_token_hash = auth.reset_token_hash;
  reset_expires_at = auth.reset_expires_at;
  reset_used = some true;
  session_generation = some generation;
}

-- The checks on what was found, and the write.
abbrev pub redeem : Text → Text → ℕ → Option (Text × Auth) → Store → Option Text × Store
redeem new_hash generation now none st = (none, st)
redeem new_hash generation now (some (email, auth)) st =
    if is_used auth then (none, st) else if not (reset_record_live now auth) then (none, st) else (
      some email,
      cache_generation email generation (write_auth email (consumed new_hash generation auth) st),
    )

-- `consume_reset_token`; the answer is the account.
unfoldable pub consume_reset_token :
    (Text → Text) → Text → Text → Text → ℕ → Store → Option Text × Store
consume_reset_token hash token new_hash generation now st =
    let (found, st') = find_reset_token hash token st in redeem new_hash generation now found st'

abbrev no_link : Auth → Auth
no_link auth = record auth { reset_token_hash = none; reset_expires_at = none; reset_used = none }

-- `clear_reset_token`
unfoldable pub clear_reset_token : Text → Store → Store
clear_reset_token email st =
    let auth = get_auth email st in
    if is_some auth.reset_token_hash || is_some auth.reset_expires_at || is_some auth.reset_used
    then forget_token auth.reset_token_hash (write_auth email (no_link auth) st)
    else st

-- The test of `restore_reset_token`: the record still holds the minted token, unused, and the
-- account has no password.
unfoldable pub may_restore : (Text → Text) → Text → Auth → Bool
may_restore hash minted auth =
    truthy auth.reset_token_hash
    && holds_hash (hash minted) auth
    && elim auth.reset_used [ none ↦ false | some used ↦ not used ]
    && not (truthy auth.password_hash || truthy auth.temp_password_hash)

-- `restore_reset_token`, with the record read before the mint.
unfoldable pub restore_reset_token : (Text → Text) → Text → Auth → Text → Store → Store
unfolding may_restore
restore_reset_token hash email previous minted st =
    let auth = get_auth email st in
    let kept = record auth {
      reset_token_hash = previous.reset_token_hash;
      reset_expires_at = previous.reset_expires_at;
      reset_used = previous.reset_used;
    } in
    let restored = forget_token auth.reset_token_hash (write_auth email kept st) in
    if not (user_exists email st)
    then st
    else if not (may_restore hash minted auth)
    then st
    else if truthy previous.reset_token_hash
    then record restored {
      tokens = insert (text_or_empty previous.reset_token_hash) (safe_email email) restored.tokens;
    }
    else forget_token auth.reset_token_hash (write_auth email (no_link auth) st)

-- The entries of `load_reset_token_index`.
unfoldable pub index_tokens : Dict Text Folder → Dict Text Text → Dict Text Text
index_tokens [] tokens = tokens
index_tokens ((name, folder) ∷ users) tokens = index_tokens users (elim (readable folder.auth) [
  | none ↦ tokens
  | some auth ↦
      if truthy auth.reset_token_hash
      then insert (text_or_empty auth.reset_token_hash) name tokens
      else tokens
])

-- `load_reset_token_index`
unfoldable pub load_reset_token_index : Store → Store
unfolding index_tokens
load_reset_token_index st = record st { tokens = index_tokens st.users st.tokens }
