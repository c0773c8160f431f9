-- ===== src/Roles/Created.antt =====
-- roles_store.py: a role that was created is the one that is read back.
use pdc_client.Base.{
  ◌≡◌, refl, sym, ap, ◌∙◌, inl, inr, true, false, none, some, List, [], ◌∷◌, ◌++◌, map, arith,
  Option-cases, Text, str_eq_refl, nat_Eq, text_Eq, pair_Eq, str_eq,
}
use pdc_client.Base.Lists.{filter, filter_idem}
use pdc_client.Roles.{
  Role, Registry, Fields, has_id, normalize_role, read_doc, find_role, has_role, list_roles,
  get_role, create_role, role_of_fields, valid_id, given_or,
}
use pdc_client.Roles.Grants.{
  Grant, RawGrant, null, other, text, fields, junk, still_valid, normalize_grant, normalize_grants,
}
use pdc_client.Base.Ids.{is_id}

normalized-still_valid :
    (raw : RawGrant) (g : Grant) → normalize_grant raw ≡ some g → still_valid g ≡ true
unfolding normalize_grant still_valid
normalized-still_valid junk g h = ground (arith, h)
normalized-still_valid (fields null schema) g h = ground (arith, h)
normalized-still_valid (fields other schema) g h = ground (arith, h)
normalized-still_valid (fields (text cid) null) g h = ground (arith, h)
normalized-still_valid (fields (text cid) other) g h = ground (arith, h)
normalized-still_valid (fields (text cid) (text s)) g h = ground (arith, h)

pub valid-normalize_grants :
    (raws : List RawGrant) → filter still_valid (normalize_grants raws) ≡ normalize_grants raws
unfolding normalize_grants filter
valid-normalize_grants [] = refl
valid-normalize_grants (raw ∷ raws) = elim (Option-cases (normalize_grant raw)) [
  | inl bad ↦ rw (bad, normalize_grants, filter) (valid-normalize_grants raws)
  | inr (g, good) ↦
      rw (good, normalize_grants, filter)
        (rw (normalized-still_valid raw g good) (rw (valid-normalize_grants raws) refl))
]

find-append_new :
    (rid : Text) (role : Role) (roles : List Role)
    → has_role rid roles ≡ false
    → role.id ≡ rid
    → find_role rid (roles ++ role ∷ []) ≡ some role
unfolding find_role
find-append_new rid role [] h same = rw (ap (λ i. str_eq i rid) same ∙ str_eq_refl rid) refl
find-append_new rid role (r ∷ roles) h same = ground (arith, h, find-append_new rid role roles)

normal_append :
    (role : Role) (roles : List Role)
    → has_id role ≡ true
    → normalize_role role ≡ role
    → map normalize_role (filter has_id (map normalize_role (filter has_id roles) ++ role ∷ []))
      ≡ map normalize_role (filter has_id (map normalize_role (filter has_id roles))) ++ role ∷ []
unfolding filter
normal_append role [] named normal = rw named (rw normal refl)
normal_append role (r ∷ roles) named normal = ground (arith, normal_append role roles named normal)

pub normal_twice :
    (roles : List Role)
    → map normalize_role (filter has_id (map normalize_role (filter has_id roles)))
      ≡ map normalize_role (filter has_id roles)
unfolding filter has_id normalize_role
normal_twice [] = refl
normal_twice (r ∷ roles) = ground (
  arith,
  normal_twice roles,
  filter_idem still_valid r.scope_grants,
  filter_idem still_valid r.manage_grants,
)

pub roles-read_doc :
    (file : Registry)
    → map normalize_role (filter has_id (read_doc file).roles) ≡ (read_doc file).roles
unfolding read_doc
roles-read_doc none = unfold filter in refl
roles-read_doc (some doc) = normal_twice doc.roles

created-has_id :
    (rid : Text) (body : Fields) → is_id rid ≡ true → has_id (role_of_fields rid body) ≡ true
unfolding has_id role_of_fields
created-has_id [] body h = unfold is_id in ground (arith, h)
created-has_id (c ∷ rid) body h = unfold str_eq in refl

created_normal :
    (rid : Text) (body : Fields)
    → normalize_role (role_of_fields rid body) ≡ role_of_fields rid body
unfolding normalize_role role_of_fields
created_normal rid body =
    rw (valid-normalize_grants (given_or [] body.scope_grants))
      (rw (valid-normalize_grants (given_or [] body.manage_grants)) refl)

appended :
    (role : Role) (file : Registry)
    → has_id role ≡ true
    → normalize_role role ≡ role
    → list_roles (some (record (read_doc file) { roles = (read_doc file).roles ++ role ∷ [] }))
      ≡ list_roles file ++ role ∷ []
unfolding list_roles
appended role file named normal = rw (sym (roles-read_doc file)) (
    unfold read_doc in
    normal_append role (read_doc file).roles named normal
    ∙ ap (λ roles. roles ++ role ∷ []) (normal_twice (read_doc file).roles))

-- A role created under a fresh well-formed id is the role that is read back for the id, and it stands
-- after all earlier roles.
pub created_role_found :
    (rid : Text) (body : Fields) (file : Registry)
    → is_id rid ≡ true
    → has_role rid (list_roles file) ≡ false
    → (get_role rid (create_role rid body file).1 ≡ some (create_role rid body file).0)
      × (list_roles (create_role rid body file).1
          ≡ list_roles file ++ (create_role rid body file).0 ∷ [])
unfolding create_role
created_role_found rid body file h fresh =
    let role = role_of_fields rid body in
    let after = appended role file (created-has_id rid body h) (created_normal rid body) in
    let found =
      ap (find_role rid) after
      ∙ find-append_new rid role (list_roles file) fresh (unfold role_of_fields in refl) in
    (unfold get_role valid_id list_roles in ground (arith, h, found), after)
