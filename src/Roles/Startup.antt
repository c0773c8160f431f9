-- ===== src/Roles/Startup.antt =====
-- roles_store.py and the start of app.py: what the registry holds after the start-up steps and after a
-- role was deleted or created.
use pdc_client.Base.{
  ℕ, ◌≡◌, refl, sym, ◌∙◌, inl, inr, true, false, not, ◌&&◌, none, some, List, [], ◌∷◌, map, arith,
  ltb, leb, Bool-cases, Text, str_eq_iff, str_eq_refl, nat_Eq, text_Eq, pair_Eq, str_eq,
}
use pdc_client.Base.Lists.{filter, filter_idem}
use pdc_client.Roles.{
  Role, Doc, Registry, base_role_id, legacy_poweruser_id, base_role_doc, has_id, normalize_role,
  read_doc, find_role, ensure_base_role, without_role, remove_poweruser_role, copy_grants,
  migrate_manage_grants, list_roles, delete_role, has_role,
}
use pdc_client.Roles.Grants.{still_valid}

-- The registry's steps at the start of the application, in their order.
pub start_up : Registry → Registry
start_up file = remove_poweruser_role (ensure_base_role (migrate_manage_grants file))

find-normal :
    (rid : Text) (roles : List Role)
    → str_eq rid [] ≡ false
    → has_role rid (map normalize_role (filter has_id roles)) ≡ has_role rid roles
unfolding filter has_id normalize_role find_role
find-normal rid [] h = refl
find-normal rid (r ∷ roles) h = elim (Bool-cases (str_eq r.id rid)) [
  | inl same ↦ ground (arith, same, h, (str_eq_iff r.id rid).0 same)
  | inr other ↦ ground (arith, other, find-normal rid roles h)
]

list_roles-some :
    (rid : Text) (doc : Doc)
    → str_eq rid [] ≡ false
    → has_role rid (list_roles (some doc)) ≡ has_role rid doc.roles
unfolding list_roles read_doc
list_roles-some rid doc h = find-normal rid doc.roles h

find-without_role :
    (rid gone : Text) (roles : List Role)
    → has_role rid (without_role gone roles) ≡ (has_role rid roles && not (str_eq rid gone))
unfolding filter find_role
find-without_role rid gone [] = ground arith
find-without_role rid gone (r ∷ roles) = ground (
  arith,
  find-without_role rid gone roles,
  str_eq_iff r.id gone,
  str_eq_iff r.id rid,
  str_eq_iff rid gone,
)

pub version_of : Registry → ℕ
version_of file = (read_doc file).version

version-migrate : (file : Registry) → leb 2 (version_of (migrate_manage_grants file)) ≡ true
unfolding version_of read_doc migrate_manage_grants
version-migrate none = refl
version-migrate (some doc) = ground arith

version-ensure : (file : Registry) → version_of (ensure_base_role file) ≡ version_of file
unfolding version_of read_doc ensure_base_role
version-ensure none = ground arith
version-ensure (some doc) = ground arith

version-remove : (file : Registry) → version_of (remove_poweruser_role file) ≡ version_of file
unfolding version_of read_doc remove_poweruser_role
version-remove none = ground arith
version-remove (some doc) = ground arith

base-ensure : (file : Registry) → has_role base_role_id (list_roles (ensure_base_role file)) ≡ true
unfolding ensure_base_role
base-ensure file = elim (Bool-cases (has_role base_role_id (read_doc file).roles)) [
  | inl there ↦ rw there (unfold list_roles in there)
  | inr missing ↦ rw missing (
      list_roles-some base_role_id
        (record (read_doc file) { roles = base_role_doc ∷ (read_doc file).roles })
        (unfold str_eq in refl)
      ∙ unfold find_role str_eq in refl)
]

roles-remove :
    (rid : Text) (file : Registry)
    → str_eq rid [] ≡ false
    → has_role rid (list_roles (remove_poweruser_role file))
      ≡ (has_role rid (list_roles file) && not (str_eq rid legacy_poweruser_id))
unfolding remove_poweruser_role
roles-remove rid file h = elim (Bool-cases (has_role legacy_poweruser_id (read_doc file).roles)) [
  | inl there ↦ rw there (
      list_roles-some rid
        (record (read_doc file) { roles = without_role legacy_poweruser_id (read_doc file).roles })
        h
      ∙ unfold list_roles in find-without_role rid legacy_poweruser_id (read_doc file).roles)
  | inr missing ↦
      rw missing (unfold list_roles in ground (arith, missing, str_eq_iff rid legacy_poweruser_id))
]

settled_stays :
    (file : Registry)
    → leb 2 (version_of file) ≡ true
    → has_role base_role_id (list_roles file) ≡ true
    → has_role legacy_poweruser_id (list_roles file) ≡ false
    → start_up file ≡ file
unfolding start_up migrate_manage_grants ensure_base_role remove_poweruser_role version_of
    list_roles
settled_stays file new there gone = rw new (rw there (rw gone refl))

-- After the start-up steps Base exists, the legacy power-user role does not, the document has at
-- least version 2, and running the steps again changes nothing.
pub start_up_settles :
    (file : Registry)
    → (has_role base_role_id (list_roles (start_up file)) ≡ true)
      × (has_role legacy_poweruser_id (list_roles (start_up file)) ≡ false)
      × (leb 2 (version_of (start_up file)) ≡ true)
      × (start_up (start_up file) ≡ start_up file)
start_up_settles file =
    let earlier = ensure_base_role (migrate_manage_grants file) in
    let base : has_role base_role_id (list_roles (start_up file)) ≡ true =
      unfold start_up in
      (roles-remove base_role_id earlier (unfold str_eq in refl)
        ∙ rw (base-ensure (migrate_manage_grants file)) (unfold str_eq in refl)) in
    let gone : has_role legacy_poweruser_id (list_roles (start_up file)) ≡ false =
      unfold start_up in
      (roles-remove legacy_poweruser_id earlier (unfold str_eq in refl)
        ∙ ground (arith, str_eq_refl legacy_poweruser_id)) in
    let new : leb 2 (version_of (start_up file)) ≡ true =
      unfold start_up in
      rw (version-remove earlier)
        (rw (version-ensure (migrate_manage_grants file)) (version-migrate file)) in
    (base, gone, new, settled_stays (start_up file) new base gone)

-- Deleting a role succeeds exactly for an existing role other than Base, then that role is the only
-- one that the registry loses, and Base is never lost.
pub delete_role_exact :
    (rid kept : Text) (file : Registry)
    → str_eq kept [] ≡ false
    → ((delete_role rid file).0 ≡ (not (str_eq rid base_role_id) && has_role rid (list_roles file)))
      × (has_role kept (list_roles (delete_role rid file).1) ≡ (
          has_role kept (list_roles file)
          && not (not (str_eq rid base_role_id) && str_eq kept rid)))
unfolding delete_role
delete_role_exact rid kept file h = elim (Bool-cases (str_eq rid base_role_id)) [
  | inl base ↦ rw base (refl, ground arith)
  | inr other ↦ rw other (elim (Bool-cases (has_role rid (read_doc file).roles)) [
    | inl there ↦ rw there (
      unfold list_roles in sym there,
      list_roles-some kept
            (record (read_doc file) { roles = without_role rid (read_doc file).roles }) h
          ∙ unfold list_roles in find-without_role kept rid (read_doc file).roles,
    )
    | inr missing ↦ rw missing (
      unfold list_roles in sym missing,
      unfold list_roles in ground (arith, missing, str_eq_iff kept rid),
    )
  ])
]

migrated_roles :
    (roles : List Role)
    → map normalize_role
        (filter has_id (map copy_grants (map normalize_role (filter has_id roles))))
      ≡ map copy_grants (map normalize_role (filter has_id roles))
unfolding filter has_id normalize_role
migrated_roles [] = refl
migrated_roles (r ∷ roles) =
    ground (arith, migrated_roles roles, filter_idem still_valid r.scope_grants)

-- A document older than version 2 is migrated once: each role may then manage what it could read, and
-- a second migration changes nothing.
pub migration_copies_scope :
    (doc : Doc)
    → ltb doc.version 2 ≡ true
    → (list_roles (migrate_manage_grants (some doc)) ≡ map copy_grants (list_roles (some doc)))
      × (migrate_manage_grants (migrate_manage_grants (some doc))
          ≡ migrate_manage_grants (some doc))
unfolding migrate_manage_grants list_roles read_doc
migration_copies_scope doc older = elim (Bool-cases (leb 2 doc.version)) [
  | inl newer ↦ ground (arith, older, newer)
  | inr old ↦ rw old (migrated_roles doc.roles, refl)
]
