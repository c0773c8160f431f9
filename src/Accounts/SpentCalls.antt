-- ===== src/Accounts/SpentCalls.antt =====
-- local_store.py, AuthStore: no call that writes the accounts revives a used link.
use pdc_client.Base.{
  ℕ, ◌≡◌, refl, sym, ◌≢◌, inl, inr, Bool, true, false, not, ◌&&◌, ◌||◌, Option, none, some, List,
  [], arith, Bool-cases, is_some, if_both, Text, nat_Eq, text_Eq, pair_Eq, str_eq,
}
use pdc_client.Accounts.{
  File, absent, unreadable, holds, Auth, Store, no_auth, safe_email, truthy, text_or_empty,
  auth_or_empty, folder_of, user_exists, get_auth, write_auth, write_profile, plain_profile,
  cache_generation, is_file, create_account, ensure_invited_user,
}
use pdc_client.Accounts.Passwords.{
  set_password, clear_temp_password, mark_sso_login, apply_password_hash,
}
use pdc_client.Accounts.Profiles.{nonempty, set_role, set_data_roles, set_self_service}
use pdc_client.Accounts.Sessions.{Bump, missing, failed, bumped, bump_session_generation}
use pdc_client.Accounts.Resets.{
  is_used, may_restore, create_reset_token, find_reset_token, redeem, consumed, reset_record_live,
  consume_reset_token, clear_reset_token, restore_reset_token, load_reset_token_index,
}
use pdc_client.Accounts.Sso.{
  Binding, already, conflict, bind_sso_identity, sso_key, complete, same_identity, identity_of,
  is_unreadable,
}
use pdc_client.Accounts.Links.{users-find_reset_token}
use pdc_client.Accounts.Spent.{
  is_spent, Spent, own-Spent, own_password, Spent-same_users, Spent-write_auth, Spent-write_profile,
  Spent-forget_token, Spent-remove_user, missing_is_other, empty_spent,
}
use pdc_client.Accounts.Calls.{
  AuthCall, creating, inviting, setting_password, clearing_temp, marking_sso, changing_role,
  changing_data_roles, switching, ending_sessions, minting, redeeming, clearing, restoring,
  reindexing, binding, removing_account, or_store, or_bumped, auth_after, spares,
}

module _ (h email : Text) (ne : h ≢ []) where
  abbrev Kept : Store → Type 0
  Kept st = Spent h email st

  abbrev KeptPair : {A : Type 0} → A × Store → Type 0
  KeptPair x = Spent h email x.1

  Spent-cache : (e g : Text) (st : Store) → Kept st → Kept (cache_generation e g st)
  Spent-cache e g st s = Spent-same_users h email ne st (cache_generation e g st) refl s

  -- A record with the reset fields and the password of the one that is there.
  Spent-create_account :
      (e : Text) (by : Option Text) (g : Text) (st : Store)
      → Kept st
      → Kept (create_account e by g st).1
  unfolding create_account
  Spent-create_account e by g st s = elim (Bool-cases (user_exists e st)) [
    | inl there ↦ rw there (
        if_both Kept (is_file (folder_of (safe_email e) st).profile) st
          (write_profile e (plain_profile (safe_email e)) st) s
          (Spent-write_profile h email ne e (plain_profile (safe_email e)) st s))
    | inr gone ↦ rw gone (
        Spent-cache e g _ (
          Spent-write_auth h email ne e (record no_auth { session_generation = some g }) _
            (empty_spent h email ne) (ground (arith, missing_is_other h email ne e st s gone))
            (Spent-write_profile h email ne e _ st s)))
  ]

  Spent-ensure_invited_user :
      (e by : Text) (sso : Bool) (g : Text) (st : Store)
      → Kept st
      → Kept (ensure_invited_user e by sso g st).1
  unfolding ensure_invited_user
  Spent-ensure_invited_user e by sso g st s =
      let s' = Spent-create_account e (some by) g st s in
      let st' = (create_account e (some by) g st).1 in
      if_both KeptPair ((create_account e (some by) g st).0 && sso) _ _
        (Spent-write_auth h email ne e _ st' (own-Spent h email ne e st' s')
          (own_password h email ne e st' s') s')
        s'

  Spent-set_password :
      (e p : Text) (force : Bool) (g : Text) (st : Store)
      → nonempty p ≡ true
      → Kept st
      → Kept (or_store st (set_password e p force g st))
  unfolding set_password apply_password_hash
  Spent-set_password e p force g st ok s = elim (Bool-cases (user_exists e st)) [
    | inr gone ↦ rw (gone, or_store) s
    | inl there ↦
        rw (there, or_store)
          (Spent-forget_token h email ne (get_auth e st).reset_token_hash _ (
            Spent-cache e g _
              (Spent-write_auth h email ne e _ st (empty_spent h email ne) (ground (arith, ok)) s)))
  ]

  Spent-clear_temp_password : (e : Text) (st : Store) → Kept st → Kept (clear_temp_password e st)
  unfolding clear_temp_password
  Spent-clear_temp_password e st s =
      if_both Kept (is_some (get_auth e st).temp_password_hash || (get_auth e st).must_change) _ st
        (Spent-write_auth h email ne e _ st (own-Spent h email ne e st s)
          (own_password h email ne e st s) s)
        s

  Spent-mark_sso_login :
      (e provider : Text) (st : Store) → Kept st → Kept (mark_sso_login e provider st).1
  unfolding mark_sso_login
  Spent-mark_sso_login e provider st s =
      if_both KeptPair (user_exists e st) _ (false, st)
        (Spent-write_auth h email ne e _ st (own-Spent h email ne e st s)
          (own_password h email ne e st s) s)
        s

  Spent-set_role : (e role : Text) (st : Store) → Kept st → Kept (set_role e role st).1
  unfolding set_role
  Spent-set_role e role st s =
      if_both KeptPair (user_exists e st) _ (false, st)
        (if_both Kept _ st _ s (Spent-write_profile h email ne e _ st s)) s

  Spent-set_data_roles :
      (e : Text) (ids : List Text) (st : Store) → Kept st → Kept (set_data_roles e ids st).1
  unfolding set_data_roles
  Spent-set_data_roles e ids st s =
      if_both KeptPair (user_exists e st) _ (false, st)
        (if_both Kept _ st _ s (Spent-write_profile h email ne e _ st s)) s

  Spent-set_self_service :
      (e : Text) (on : Bool) (st : Store) → Kept st → Kept (set_self_service e on st).1
  unfolding set_self_service
  Spent-set_self_service e on st s =
      if_both KeptPair (user_exists e st) _ (false, st)
        (if_both Kept _ st _ s (Spent-write_profile h email ne e _ st s)) s

  -- The answers of the write, by what auth.json holds.
  abbrev ended : Text → Text → Store → Auth → Bump
  ended e g st auth =
      bumped (cache_generation e g (write_auth e (record auth { session_generation = some g }) st))

  Spent-ended :
      (e g : Text) (st : Store) (f : File Auth)
      → is_spent h (auth_or_empty f) ≡ true
      → not (str_eq (safe_email e) (safe_email email)) || truthy (auth_or_empty f).password_hash
        ≡ true
      → Kept st
      → Kept (
          or_bumped st (elim f [
            | absent ↦ ended e g st no_auth
            | unreadable ↦ failed
            | holds auth ↦ ended e g st auth
          ]))
  Spent-ended e g st absent spent password s =
      Spent-cache e g _ (Spent-write_auth h email ne e _ st spent password s)
  Spent-ended e g st unreadable spent password s = s
  Spent-ended e g st (holds auth) spent password s =
      Spent-cache e g _ (Spent-write_auth h email ne e _ st spent password s)

  Spent-bump_session_generation :
      (e g : Text) (st : Store) → Kept st → Kept (or_bumped st (bump_session_generation e g st))
  unfolding bump_session_generation
  Spent-bump_session_generation e g st s =
      if_both (λ (b : Bump). Kept (or_bumped st b)) (user_exists e st) _ missing
        (Spent-ended e g st (folder_of (safe_email e) st).auth
          (unfold get_auth in own-Spent h email ne e st s)
          (unfold get_auth in own_password h email ne e st s) s)
        s

  Spent-clear_reset_token : (e : Text) (st : Store) → Kept st → Kept (clear_reset_token e st)
  unfolding clear_reset_token
  Spent-clear_reset_token e st s =
      if_both Kept _ _ st
        (Spent-forget_token h email ne (get_auth e st).reset_token_hash _ (
          Spent-write_auth h email ne e _ st (empty_spent h email ne)
            (own_password h email ne e st s) s))
        s

  Spent-create_reset_token :
      (hash : Text → Text) (e token : Text) (ttl : Option ℕ) (now : ℕ) (st : Store)
      → str_eq (hash token) h ≡ false
      → Kept st
      → Kept (create_reset_token hash e token ttl now st).1
  unfolding create_reset_token
  Spent-create_reset_token hash e token ttl now st other s =
      if_both KeptPair (user_exists e st) _ (none, st)
        (Spent-same_users h email ne _ _ refl (
          Spent-forget_token h email ne (get_auth e st).reset_token_hash _ (
            Spent-write_auth h email ne e _ st (ground (arith, other))
              (own_password h email ne e st s) s)))
        s

  Spent-redeem :
      (p g : Text) (now : ℕ) (o : Option (Text × Auth)) (st : Store)
      → nonempty p ≡ true
      → Kept st
      → Kept (redeem p g now o st).1
  Spent-redeem p g now none st ok s = s
  Spent-redeem p g now (some (e, auth)) st ok s =
      if_both KeptPair (is_used auth) (none, st) _ s
        (if_both KeptPair (not (reset_record_live now auth)) (none, st) _ s
          (Spent-cache e g _ (
            Spent-write_auth h email ne e (consumed p g auth) st (ground arith)
              (unfold apply_password_hash in ground (arith, ok)) s)))

  Spent-consume_reset_token :
      (hash : Text → Text) (token p g : Text) (now : ℕ) (st : Store)
      → nonempty p ≡ true
      → Kept st
      → Kept (consume_reset_token hash token p g now st).1
  unfolding consume_reset_token
  Spent-consume_reset_token hash token p g now st ok s =
      Spent-redeem p g now (find_reset_token hash token st).0 (find_reset_token hash token st).1 ok
        (Spent-same_users h email ne st _ (sym (users-find_reset_token hash token st)) s)

  Spent-restore_reset_token :
      (hash : Text → Text) (e : Text) (previous : Auth) (minted : Text) (st : Store)
      → str_eq (safe_email e) (safe_email email)
          || not (str_eq (text_or_empty previous.reset_token_hash) h)
        ≡ true
      → Kept st
      → Kept (restore_reset_token hash e previous minted st)
  unfolding restore_reset_token
  Spent-restore_reset_token hash e previous minted st ok s =
      elim (Bool-cases (may_restore hash minted (get_auth e st))) [
        | inr barred ↦ rw barred (if_both Kept (not (user_exists e st)) st st s s)
        | inl free ↦
            let other : str_eq (safe_email e) (safe_email email) ≡ false =
              unfold may_restore in ground (arith, free, own_password h email ne e st s) in
            let written = λ (a : Auth) (q : is_spent h a ≡ true).
              Spent-forget_token h email ne (get_auth e st).reset_token_hash (write_auth e a st)
                (Spent-write_auth h email ne e a st q (ground (arith, other)) s) in
            rw free (
              if_both Kept (not (user_exists e st)) st _ s (
                if_both Kept (truthy previous.reset_token_hash) _ _
                  (Spent-same_users h email ne _ _ refl (written _ (ground (arith, ok, other))))
                  (written _ (empty_spent h email ne))))
      ]

  Spent-bind_sso_identity :
      (e tid oid : Text) (st : Store) → Kept st → Kept (bind_sso_identity e tid oid st).1
  unfolding bind_sso_identity
  Spent-bind_sso_identity e tid oid st s =
      let key = sso_key tid oid in
      let auth = get_auth e st in
      let of = λ (x : Binding × Store). Spent h email x.1 in
      let next = write_auth e (record auth { sso_tid = some key.0; sso_oid = some key.1 }) st in
      if_both of (not (complete key)) (Binding.failed, st) _ s
        (if_both of (not (user_exists e st)) (Binding.missing, st) _ s
          (if_both of (is_unreadable (folder_of (safe_email e) st).auth) (Binding.failed, st) _ s
            (if_both of (same_identity (identity_of auth) key) (already, _) _
              (Spent-same_users h email ne st _ refl s)
              (if_both of (truthy (some (identity_of auth).1)) (conflict, st) _ s
                (Spent-same_users h email ne next _ refl (
                  Spent-write_auth h email ne e _ st (own-Spent h email ne e st s)
                    (own_password h email ne e st s) s))))))

  pub Spent-auth_after :
      (hash : Text → Text) (c : AuthCall) (st : Store)
      → spares hash h email c ≡ true
      → Kept st
      → Kept (auth_after hash c st)
  unfolding auth_after spares
  Spent-auth_after hash (creating e by g) st ok s = Spent-create_account e by g st s
  Spent-auth_after hash (inviting e by sso g) st ok s = Spent-ensure_invited_user e by sso g st s
  Spent-auth_after hash (setting_password e p force g) st ok s =
      Spent-set_password e p force g st ok s
  Spent-auth_after hash (clearing_temp e) st ok s = Spent-clear_temp_password e st s
  Spent-auth_after hash (marking_sso e provider) st ok s = Spent-mark_sso_login e provider st s
  Spent-auth_after hash (changing_role e role) st ok s = Spent-set_role e role st s
  Spent-auth_after hash (changing_data_roles e ids) st ok s = Spent-set_data_roles e ids st s
  Spent-auth_after hash (switching e on) st ok s = Spent-set_self_service e on st s
  Spent-auth_after hash (ending_sessions e g) st ok s = Spent-bump_session_generation e g st s
  Spent-auth_after hash (minting e token ttl now) st ok s =
      Spent-create_reset_token hash e token ttl now st (ground (arith, ok)) s
  Spent-auth_after hash (redeeming token p g now) st ok s =
      Spent-consume_reset_token hash token p g now st ok s
  Spent-auth_after hash (clearing e) st ok s = Spent-clear_reset_token e st s
  Spent-auth_after hash (restoring e previous minted) st ok s =
      Spent-restore_reset_token hash e previous minted st ok s
  Spent-auth_after hash reindexing st ok s =
      unfold load_reset_token_index in Spent-same_users h email ne st _ refl s
  Spent-auth_after hash (binding e tid oid) st ok s = Spent-bind_sso_identity e tid oid st s
  Spent-auth_after hash (removing_account e) st ok s =
      Spent-remove_user h email ne e st (ground (arith, ok)) s
