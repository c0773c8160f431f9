-- ===== src/AuthLimiter/Trace.antt =====
-- The address entry through the calls that `begin` of auth_limiter.py makes.
use pdc_client.Base.{
  ◌≤◌, arith, ℕ, ◌≡◌, refl, ◌∙◌, ap, Bool, false, Option, none, some, inl, inr, Text, str_eq,
  text_Eq, Option-cases, Bool-cases,
}
use pdc_client.Base.Dict.{lookup}
use pdc_client.Base.Lists.{is_nil}
use pdc_client.Base.Strings.{strip}
use pdc_client.AuthLimiter.View.{
  space_of-same_spaces, spaces-addr_report, entry_at, entry_at-put_entry, entry_at-find,
  space_of-put_space_ne,
}
use pdc_client.AuthLimiter.{
  addr_key, check_both, record_both, Config, Entry, Limiter, fresh, ip_space, space_of, find,
  create, prune, wait, check_key, ip_key, addr_step, record_addr, record_ip, text_or_empty,
}

abbrev pub pruned : Config → ℕ → Option Entry → Option Entry
pruned cfg now none = none
pruned cfg now (some entry) = some (prune cfg now entry)

abbrev pub wait_at : ℕ → Option Entry → ℕ
wait_at now none = 0
wait_at now (some entry) = wait now entry

abbrev pub or_fresh : Option Entry → Entry
or_fresh none = fresh
or_fresh (some entry) = entry

module _ (cfg : Config) (now : ℕ) where
  pub check_key_wait :
      (name k : Text) (st : Limiter)
      → (check_key cfg now (some (name, k)) st).0 ≡ wait_at now (entry_at name k st)
  unfolding check_key find prune
  check_key_wait name k st = elim (Option-cases (entry_at name k st)) [
    | inl absent ↦ rw (absent, check_key)
    | inr (entry, found) ↦ rw (found, check_key)
  ]

  entry_at-check_key :
      (name k : Text) (st : Limiter)
      → entry_at name k (check_key cfg now (some (name, k)) st).1
        ≡ pruned cfg now (entry_at name k st)
  unfolding check_key
  entry_at-check_key name k st = elim (Option-cases (entry_at name k st)) [
    | inl absent ↦ rw (absent, check_key) (entry_at-find name k name k st ∙ absent)
    | inr (entry, found) ↦ rw (found, check_key) (entry_at-put_entry name k _ _)
  ]

  space_of-check_key_ne :
      (name k other : Text) (st : Limiter)
      → str_eq name other ≡ false
      → space_of other (check_key cfg now (some (name, k)) st).1 ≡ space_of other st
  unfolding check_key find
  space_of-check_key_ne name k other st h = elim (Option-cases (entry_at name k st)) [
    | inl absent ↦ rw (absent, check_key) (space_of-put_space_ne name other _ st h)
    | inr (entry, found) ↦
        rw (found, check_key)
          (space_of-put_space_ne name other _ _ h ∙ space_of-put_space_ne name other _ st h)
  ]

  entry_of-create :
      (name k : Text) (st : Limiter) → (create cfg name k now st).0 ≡ or_fresh (entry_at name k st)
  unfolding create
  entry_of-create name k st = elim (Option-cases (entry_at name k st)) [
    | inl absent ↦ rw (absent, create)
    | inr (entry, found) ↦ rw (found, create)
  ]

  space_of-create_ne :
      (name k other : Text) (st : Limiter)
      → str_eq name other ≡ false
      → space_of other (create cfg name k now st).1 ≡ space_of other st
  unfolding create
  space_of-create_ne name k other st h = elim (Option-cases (entry_at name k st)) [
    | inl absent ↦ rw (absent, create) (space_of-put_space_ne name other _ st h)
    | inr (entry, found) ↦ rw (found, create) (space_of-put_space_ne name other _ st h)
  ]

  entry_at-record_addr :
      (lockout : Bool) (name k : Text) (st : Limiter)
      → entry_at name k (record_addr cfg lockout now (some (name, k)) st).1
        ≡ some (addr_step cfg lockout now (or_fresh (entry_at name k st)))
  unfolding record_addr
  entry_at-record_addr lockout name k st =
      ap (lookup k)
        (space_of-same_spaces name _ _ (spaces-addr_report cfg lockout now (name, k) _ _))
      ∙ entry_at-put_entry name k _ _
      ∙ ap (λ e. some (addr_step cfg lockout now e)) (entry_of-create name k st)

  space_of-record_ip_ne :
      (ip : Option Text) (other : Text) (st : Limiter)
      → str_eq ip_space other ≡ false
      → space_of other (record_ip cfg now (ip_key ip) st) ≡ space_of other st
  unfolding record_ip ip_key
  space_of-record_ip_ne ip other st h = elim (Bool-cases (is_nil (strip (text_or_empty ip)))) [
    | inl missing ↦ rw missing
    | inr given ↦
        rw given
          (space_of-put_space_ne ip_space other _ _ h ∙ space_of-create_ne ip_space _ other st h)
  ]

  space_of-check_ip_ne :
      (ip : Option Text) (other : Text) (st : Limiter)
      → str_eq ip_space other ≡ false
      → space_of other (check_key cfg now (ip_key ip) st).1 ≡ space_of other st
  unfolding ip_key
  space_of-check_ip_ne ip other st h = elim (Bool-cases (is_nil (strip (text_or_empty ip)))) [
    | inl missing ↦ rw missing (unfold check_key in refl)
    | inr given ↦ rw given (space_of-check_key_ne ip_space _ other st h)
  ]

module _ (cfg : Config) (kind addr : Text) (email ip : Option Text)
    (key : addr_key kind email ≡ some (kind, addr)) (apart : str_eq ip_space kind ≡ false)
    (st : Limiter) where
  pub check_both-le :
      (now : ℕ) → wait_at now (entry_at kind addr st) ≤ (check_both cfg now kind email ip st).0
  unfolding check_both
  check_both-le now = rw key (omega (arith, check_key_wait cfg now kind addr st))

  pub entry_at-check_both :
      (now : ℕ)
      → entry_at kind addr (check_both cfg now kind email ip st).1
        ≡ pruned cfg now (entry_at kind addr st)
  unfolding check_both
  entry_at-check_both now = rw key (
      ap (lookup addr) (space_of-check_ip_ne cfg now ip kind _ apart)
      ∙ entry_at-check_key cfg now kind addr st)

  pub entry_at-record_both :
      (now : ℕ) (lockout : Bool)
      → entry_at kind addr (record_both cfg now kind email ip lockout st).1
        ≡ some (addr_step cfg lockout now (or_fresh (entry_at kind addr st)))
  unfolding record_both
  entry_at-record_both now lockout = rw key (
      ap (lookup addr) (space_of-record_ip_ne cfg now ip kind _ apart)
      ∙ entry_at-record_addr cfg now lockout kind addr st)

-- With no peer, the address alone decides.
pub check_both-no_peer :
    (cfg : Config) (now : ℕ) (kind addr : Text) (email : Option Text) (st : Limiter)
    → addr_key kind email ≡ some (kind, addr)
    → (check_both cfg now kind email none st).0 ≡ wait_at now (entry_at kind addr st)
unfolding check_both ip_key check_key strip
check_both-no_peer cfg now kind addr email st key =
    rw key (omega (arith, check_key_wait cfg now kind addr st))
