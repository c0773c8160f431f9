-- ===== src/AuthLimiter/View.antt =====
-- What the limiter holds at a key, and how the writes of auth_limiter.py change it.
use pdc_client.Base.{
  Bool, ℕ, ◌≡◌, false, Option, some, Text, str_eq, str_eq_iff, text_Eq, arith, if◌then◌else◌,
}
use pdc_client.Base.Dict.{lookup, move_to_end, lookup-insert, lookup-move_to_end}
use pdc_client.AuthLimiter.{
  Config, spaced_first, addr_report, Entry, Space, Limiter, space_of, put_space, put_entry, find,
}

abbrev pub entry_at : Text → Text → Limiter → Option Entry
entry_at name key st = lookup key (space_of name st)

pub space_of-put_space :
    (name other : Text) (space : Space) (st : Limiter)
    → space_of other (put_space name space st)
      ≡ (if str_eq name other then space else space_of other st)
unfolding space_of put_space
space_of-put_space name other space st = ground (arith, lookup-insert name other space st.spaces)

pub space_of-put_space_self :
    (name : Text) (space : Space) (st : Limiter) → space_of name (put_space name space st) ≡ space
space_of-put_space_self name space st =
    ground (arith, space_of-put_space name name space st, str_eq_iff name name)

pub entry_at-put_entry :
    (name key : Text) (entry : Entry) (st : Limiter)
    → entry_at name key (put_entry name key entry st) ≡ some entry
entry_at-put_entry name key entry st =
    rw (space_of-put_space_self name _ st)
      (ground (arith, lookup-insert key key entry (space_of name st), str_eq_iff key key))

-- A write to one space leaves the others as they were.
pub space_of-put_space_ne :
    (name other : Text) (space : Space) (st : Limiter)
    → str_eq name other ≡ false
    → space_of other (put_space name space st) ≡ space_of other st
space_of-put_space_ne name other space st h = ground (arith, space_of-put_space name other space st)

pub entry_at-find :
    (name key other j : Text) (st : Limiter)
    → entry_at other j (find name key st).1 ≡ entry_at other j st
unfolding find
entry_at-find name key other j st = ground (
  arith,
  space_of-put_space name other (move_to_end key (space_of name st)) st,
  lookup-move_to_end key j (space_of name st),
  str_eq_iff name other,
)

module _ (cfg : Config) where
  spaces-spaced_first :
      (key : Text × Text) (now : ℕ) (st : Limiter)
      → (spaced_first cfg key now st).1.spaces ≡ st.spaces
  unfolding spaced_first
  spaces-spaced_first key now st = ground arith

  -- The latch of AUTH_ADMIN_SPACED is all that the report writes.
  pub spaces-addr_report :
      (lockout : Bool) (now : ℕ) (key : Text × Text) (n : ℕ) (st : Limiter)
      → (addr_report cfg lockout now key n st).1.spaces ≡ st.spaces
  unfolding addr_report
  spaces-addr_report lockout now (kind, addr) n st =
      ground (arith, spaces-spaced_first (kind, addr) now st)

pub space_of-same_spaces :
    (name : Text) (st st' : Limiter) → st'.spaces ≡ st.spaces → space_of name st' ≡ space_of name st
unfolding space_of
space_of-same_spaces name st st' e = rw e
