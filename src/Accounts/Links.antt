-- ===== src/Accounts/Links.antt =====
-- The life of a reset link of local_store.py.
use pdc_client.Base.{
  ℕ, ◌+◌, ◌≡◌, refl, ap, ◌∙◌, ◌≢◌, Bool, true, false, Option, none, some, [], arith, ltb,
  if◌then◌else◌, Text, str_eq_iff, str_eq_refl, nat_Eq, text_Eq, pair_Eq,
}
use pdc_client.Base.Dict.{lookup, insert, lookup-insert}
use pdc_client.Accounts.{
  Auth, Store, safe_email, truthy, user_exists, get_auth, write_auth, cache_generation,
}
use pdc_client.Accounts.Passwords.{forget_token}
use pdc_client.Accounts.Laws.{
  get_auth-write_auth, truthy_ne, safe_email-ne-nil, get_auth-safe_email, get_auth-same_users,
}
use pdc_client.Accounts.Resets.{
  is_token, reset_record_live, create_reset_token, holds_hash, find_reset_token, redeem, is_used,
  consumed, consume_reset_token,
}

module _ (hash : Text → Text) (token : Text) where
  -- A lookup never changes a folder.
  pub users-find_reset_token : (st : Store) → (find_reset_token hash token st).1.users ≡ st.users
  unfolding find_reset_token
  users-find_reset_token st = ground arith

  -- A name that the index holds, with the hash in its record, is what a lookup answers.
  find_indexed :
      (st : Store) (name : Text)
      → is_token token ≡ true
      → lookup (hash token) st.tokens ≡ some name
      → truthy (some name) ≡ true
      → holds_hash (hash token) (get_auth name st) ≡ true
      → find_reset_token hash token st ≡ (some (name, get_auth name st), st)
  unfolding find_reset_token
  find_indexed st name t i n h = rw (i, find_reset_token) (ground arith)

pub redeem-some :
    (new_hash generation : Text) (now : ℕ) (o : Option (Text × Auth)) (st : Store) (email : Text)
    → (redeem new_hash generation now o st).0 ≡ some email
    → (auth : Auth) × (o ≡ some (email, auth))
      × (is_used auth ≡ false)
      × (reset_record_live now auth ≡ true)
      × ((redeem new_hash generation now o st).1
          ≡ cache_generation email generation
              (write_auth email (consumed new_hash generation auth) st))
redeem-some new_hash generation now none st email h = cc
redeem-some new_hash generation now (some (name, auth)) st email h =
    (auth, ground arith, ground arith, ground arith, ground arith)

redeem-none :
    (new_hash generation : Text) (now : ℕ) (o : Option (Text × Auth)) (st : Store)
    → (redeem new_hash generation now o st).0 ≡ none
    → (redeem new_hash generation now o st).1.users ≡ st.users
redeem-none new_hash generation now none st h = refl
redeem-none new_hash generation now (some (name, auth)) st h = ground arith

-- A refused use of a link changes no account: the folders are as they were.
pub refused_link_writes_nothing :
    (hash : Text → Text) (token new_hash generation : Text) (now : ℕ) (st : Store)
    → (consume_reset_token hash token new_hash generation now st).0 ≡ none
    → (consume_reset_token hash token new_hash generation now st).1.users ≡ st.users
unfolding consume_reset_token
refused_link_writes_nothing hash token new_hash generation now st refused =
    redeem-none new_hash generation now (find_reset_token hash token st).0
      (find_reset_token hash token st).1 refused
    ∙ users-find_reset_token hash token st

redeem_unused :
    (new_hash generation : Text) (now : ℕ) (name : Text) (auth : Auth) (st : Store)
    → is_used auth ≡ false
    → (redeem new_hash generation now (some (name, auth)) st).0
      ≡ (if reset_record_live now auth then some name else none)
redeem_unused new_hash generation now name auth st h = ground arith

abbrev with_link : Text → ℕ → Auth → Auth
with_link token_hash expires auth = record auth {
  reset_token_hash = some token_hash;
  reset_expires_at = some expires;
  reset_used = some false;
}

with_link_live :
    (token_hash : Text) (expires t : ℕ) (auth : Auth)
    → token_hash ≢ []
    → reset_record_live t (with_link token_hash expires auth) ≡ ltb t expires
unfolding reset_record_live
with_link_live token_hash expires t auth h = ground (arith, truthy_ne token_hash h)

users-forget_token : (old : Option Text) (st : Store) → (forget_token old st).users ≡ st.users
users-forget_token old st = ground arith

module _ (hash : Text → Text) (email token : Text) (ttl now : ℕ) (st : Store)
    (exists : user_exists email st ≡ true) where
  abbrev written : Store
  written =
      forget_token (get_auth email st).reset_token_hash
        (write_auth email (with_link (hash token) (now + ttl) (get_auth email st)) st)

  abbrev minted : Store
  minted = record written { tokens = insert (hash token) (safe_email email) written.tokens }

  create_existing : (create_reset_token hash email token (some ttl) now st).1 ≡ minted
  unfolding create_reset_token
  create_existing = rw (exists, create_reset_token)

  get_auth-minted :
      get_auth (safe_email email) minted ≡ with_link (hash token) (now + ttl) (get_auth email st)
  get_auth-minted =
      get_auth-same_users (safe_email email) _ _ (users-forget_token _ _)
      ∙ get_auth-safe_email email _
      ∙ get_auth-write_auth email _ st

  tokens-minted : lookup (hash token) minted.tokens ≡ some (safe_email email)
  tokens-minted = ground (
    arith,
    lookup-insert (hash token) (hash token) (safe_email email) written.tokens,
    str_eq_iff (hash token) (hash token),
  )

-- A link that was just minted for an existing account works exactly until its time is over, and
-- opens the account that it was minted for.
pub minted_link_works :
    (hash : Text → Text) (email token new_hash generation : Text) (ttl now t : ℕ) (st : Store)
    → user_exists email st ≡ true
    → is_token token ≡ true
    → hash token ≢ []
    → (consume_reset_token hash token new_hash generation t
        (create_reset_token hash email token (some ttl) now st).1).0
      ≡ (if ltb t (now + ttl) then some (safe_email email) else none)
unfolding consume_reset_token
minted_link_works hash email token new_hash generation ttl now t st exists ok h =
    let s = minted hash email token ttl now st exists in
    let kept = get_auth-minted hash email token ttl now st exists in
    rw
      (
        create_existing hash email token ttl now st exists,
        find_indexed hash token s (safe_email email) ok
            (tokens-minted hash email token ttl now st exists) (safe_email-ne-nil email)
            (rw kept (str_eq_refl (hash token))),
      )
      (redeem_unused new_hash generation t (safe_email email) _ s (rw kept)
        ∙ ap (λ (b : Bool). if b then some (safe_email email) else none)
            (ap (reset_record_live t) kept
              ∙ with_link_live (hash token) (now + ttl) t (get_auth email st) h))
