-- ===== src/AuthLimiter/Reachable.antt =====
-- Invariants of the limiter of auth_limiter.py over every sequence of calls.
use pdc_client.Base.{
  ℕ, ◌≡◌, refl, ◌∙◌, Bool, true, false, Option, none, some, inl, inr, Text, str_eq, str_eq_iff,
  text_Eq, arith, Option-cases, Bool-cases,
}
use pdc_client.Base.Lists.{length}
use pdc_client.Base.Dict.{
  lookup, contains, insert, move_to_end, length-erase, length-insert, length-move_to_end,
  lookup-insert, lookup-move_to_end,
}
use pdc_client.AuthLimiter.View.{spaces-addr_report, space_of-put_space, space_of-put_space_self}
use pdc_client.AuthLimiter.Sound.{
  IsSpaceSound, erase-IsKeyed, move_to_end-IsKeyed, insert-IsKeyed, shrink-IsKeyed, length-shrink,
  lookup-shrink,
}
use pdc_client.AuthLimiter.{
  Config, Entry, Space, Limiter, fresh, ip_space, space_of, put_space, put_entry, find, prune,
  create, limit_of, check_key, ip_step, record_addr, record_ip, retract, retract_ip, clear_addr,
  ip_key,
}

pub record IsSound (cfg : Config) (st : Limiter) : Type 0 where
  pub at : (name : Text) → IsSpaceSound cfg name (space_of name st)

module _ (cfg : Config) where
  put_space-IsSound :
      (name : Text) {space : Space} {st : Limiter}
      → IsSpaceSound cfg name space
      → IsSound cfg st
      → IsSound cfg (put_space name space st)
  put_space-IsSound name {space} {st} h s = record {
    at = λ other. elim (Bool-cases (str_eq name other)) [
      | inl same ↦ rw (space_of-put_space, same) (rw ((str_eq_iff name other).0 same) at h)
      | inr apart ↦ rw (space_of-put_space, apart) (s.at other)
    ];
  }

  move_to_end-IsSpaceSound :
      (name k : Text) {space : Space}
      → IsSpaceSound cfg name space
      → IsSpaceSound cfg name (move_to_end k space)
  move_to_end-IsSpaceSound name k {space} h = record {
    keyed = move_to_end-IsKeyed k h.keyed;
    fits = omega (arith, h.fits, length-move_to_end k space);
  }

  -- An entry that is there is written back.
  insert-IsSpaceSound :
      (name k : Text) (entry : Entry) {space : Space}
      → contains k space ≡ true
      → (str_eq name ip_space ≡ true → entry.locked_until ≡ 0)
      → IsSpaceSound cfg name space
      → IsSpaceSound cfg name (insert k entry space)
  insert-IsSpaceSound name k entry {space} there u h = record {
    keyed = insert-IsKeyed k entry u h.keyed;
    fits = ground (arith, length-insert k entry space, h.fits, there);
  }

  put_entry-IsSound :
      (name k : Text) (entry : Entry) {st : Limiter}
      → contains k (space_of name st) ≡ true
      → (str_eq name ip_space ≡ true → entry.locked_until ≡ 0)
      → IsSound cfg st
      → IsSound cfg (put_entry name k entry st)
  put_entry-IsSound name k entry there u s =
      put_space-IsSound name (insert-IsSpaceSound name k entry there u (s.at name)) s

  find-IsSound : (name k : Text) {st : Limiter} → IsSound cfg st → IsSound cfg (find name k st).1
  unfolding find
  find-IsSound name k s = put_space-IsSound name (move_to_end-IsSpaceSound name k (s.at name)) s

  -- The entry that `find` returns is still there after it.
  find-contains :
      (name k : Text) (st : Limiter) {entry : Entry}
      → (find name k st).0 ≡ some entry
      → contains k (space_of name (find name k st).1) ≡ true
  unfolding find
  find-contains name k st found =
      rw (space_of-put_space_self name _ st)
        (ground (arith, lookup-move_to_end k k (space_of name st)))

  create-IsSound :
      (name k : Text) (now : ℕ) {st : Limiter}
      → IsSound cfg st
      → IsSound cfg (create cfg name k now st).1
  unfolding create
  create-IsSound name k now {st} s = elim (Option-cases (lookup k (space_of name st))) [
    | inl absent ↦
        rw (absent, create)
          (let grown = insert k fresh (space_of name st) in
            let keyed = insert-IsKeyed k fresh (λ _. refl) (s.at name).keyed in
            put_space-IsSound name
              (record {
                keyed = shrink-IsKeyed (length grown) (limit_of cfg) k now grown keyed;
                fits =
                    length-shrink name (length grown) (limit_of cfg) k now grown keyed (omega arith)
                      (omega arith);
              })
              s)
    | inr (entry, found) ↦
        rw (found, create) (put_space-IsSound name (move_to_end-IsSpaceSound name k (s.at name)) s)
  ]

  create-contains :
      (name k : Text) (now : ℕ) (st : Limiter)
      → contains k (space_of name (create cfg name k now st).1) ≡ true
  unfolding create
  create-contains name k now st = elim (Option-cases (lookup k (space_of name st))) [
    | inl absent ↦
        rw (absent, create)
          (rw (space_of-put_space_self name _ st) (
            ground (
              arith,
              lookup-shrink (length (insert k fresh (space_of name st))) (limit_of cfg) k now
                  (insert k fresh (space_of name st)),
              lookup-insert k k fresh (space_of name st),
              str_eq_iff k k,
            )))
    | inr (entry, found) ↦
        rw (found, create)
          (rw (space_of-put_space_self name _ st)
            (ground (arith, lookup-move_to_end k k (space_of name st))))
  ]

  -- An entry of the peers' space carries no lockout when it is made or found.
  create_unlocked :
      (name k : Text) (now : ℕ) {st : Limiter}
      → IsSound cfg st
      → str_eq name ip_space ≡ true
      → (create cfg name k now st).0.locked_until ≡ 0
  unfolding create
  create_unlocked name k now {st} s ip = elim (Option-cases (lookup k (space_of name st))) [
    | inl absent ↦ rw (absent, create) refl
    | inr (entry, found) ↦ rw (found, create) ((s.at name).keyed.unlocked k entry ip found)
  ]

  pub check_key-IsSound :
      (now : ℕ) (key : Option (Text × Text)) {st : Limiter}
      → IsSound cfg st
      → IsSound cfg (check_key cfg now key st).1
  unfolding check_key
  check_key-IsSound now none s = s
  check_key-IsSound now (some (name, k)) {st} s = elim (Option-cases (find name k st).0) [
    | inl absent ↦ rw (absent, check_key) (find-IsSound name k s)
    | inr (entry, found) ↦
        rw (found, check_key)
          (put_entry-IsSound name k (prune cfg now entry) (find-contains name k st found)
            (λ ip. (s.at name).keyed.unlocked k entry ip found) (find-IsSound name k s))
  ]

  same_spaces-IsSound :
      {st st' : Limiter} → st'.spaces ≡ st.spaces → IsSound cfg st → IsSound cfg st'
  unfolding space_of
  same_spaces-IsSound e s = record { at = λ name. rw e (s.at name) }

  pub record_addr-IsSound :
      (lockout : Bool) (now : ℕ) (kind : Text) (addr : Text) {st : Limiter}
      → str_eq kind ip_space ≡ false
      → IsSound cfg st
      → IsSound cfg (record_addr cfg lockout now (some (kind, addr)) st).1
  unfolding record_addr
  record_addr-IsSound lockout now kind addr {st} k s =
      same_spaces-IsSound (spaces-addr_report cfg lockout now (kind, addr) _ _) (
        put_entry-IsSound kind addr _ (create-contains kind addr now st) (λ ip. cc)
          (create-IsSound kind addr now s))

  ip_step-locked_until :
      (now : ℕ) (entry : Entry) → (ip_step cfg now entry).locked_until ≡ entry.locked_until
  unfolding ip_step
  ip_step-locked_until now entry = ground arith

  pub record_ip-IsSound :
      (now : ℕ) (ip : Option Text) {st : Limiter}
      → IsSound cfg st
      → IsSound cfg (record_ip cfg now (ip_key ip) st)
  unfolding record_ip
  record_ip-IsSound now ip {st} s = elim (Option-cases (ip_key ip)) [
    | inl absent ↦ rw (absent, record_ip) s
    | inr ((name, k), found) ↦
        rw (found, record_ip)
          (put_entry-IsSound name k _ (create-contains name k now st)
            (λ p. ip_step-locked_until now _ ∙ create_unlocked name k now s p)
            (create-IsSound name k now s))
  ]

  retract-locked_until : (entry : Entry) → (retract cfg entry).locked_until ≡ entry.locked_until
  unfolding retract
  retract-locked_until entry = ground arith

  pub retract_ip-IsSound :
      (ip : Option Text) {st : Limiter}
      → IsSound cfg st
      → IsSound cfg (retract_ip cfg (ip_key ip) st)
  unfolding retract_ip
  retract_ip-IsSound ip {st} s = elim (Option-cases (ip_key ip)) [
    | inl absent ↦ rw (absent, retract_ip) s
    | inr ((name, k), found) ↦
        rw (found, retract_ip)
          (elim (Option-cases (find name k st).0) [
            | inl nothing ↦ rw (nothing, retract_ip) (find-IsSound name k s)
            | inr (entry, there) ↦
                rw (there, retract_ip)
                  (put_entry-IsSound name k (retract cfg entry) (find-contains name k st there)
                    (λ p. retract-locked_until entry ∙ (s.at name).keyed.unlocked k entry p there)
                    (find-IsSound name k s))
          ])
  ]

  pub clear_addr-IsSound :
      (key : Option (Text × Text)) {st : Limiter} → IsSound cfg st → IsSound cfg (clear_addr key st)
  unfolding clear_addr
  clear_addr-IsSound none s = s
  clear_addr-IsSound (some (kind, addr)) {st} s =
      put_space-IsSound kind
        (record {
          keyed = erase-IsKeyed addr (s.at kind).keyed;
          fits = omega (arith, (s.at kind).fits, length-erase addr (space_of kind st));
        })
        s
