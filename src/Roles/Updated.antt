-- ===== src/Roles/Updated.antt =====
-- roles_store.py: what an edit of a role changes.
use pdc_client.Base.{
  ◌≡◌, refl, ap, ◌∙◌, inl, inr, true, false, Option, none, some, List, [], ◌∷◌, map, arith,
  if◌then◌else◌, Bool-cases, Text, str_eq_iff, nat_Eq, text_Eq, pair_Eq, str_eq,
}
use pdc_client.Base.Lists.{filter, filter_idem}
use pdc_client.Base.Strings.{codes}
use pdc_client.Roles.{
  Role, Registry, Fields, has_id, normalize_role, read_doc, find_role, has_role, list_roles, edited,
  edit_role, change_role, update_role,
}
use pdc_client.Roles.Grants.{
  Grant, RawGrant, still_valid, normalize_grants, normalize_texts, text_value,
}
use pdc_client.Roles.Created.{valid-normalize_grants, normal_twice, roles-read_doc}

edited_valid :
    (raws : Option (List RawGrant)) (grants : List Grant)
    → filter still_valid (edited normalize_grants raws (filter still_valid grants))
      ≡ edited normalize_grants raws (filter still_valid grants)
edited_valid none grants = filter_idem still_valid grants
edited_valid (some raws) grants = valid-normalize_grants raws

edited_normal :
    (body : Fields) (r : Role)
    → normalize_role (edit_role body (normalize_role r)) ≡ edit_role body (normalize_role r)
unfolding normalize_role edit_role
edited_normal body r =
    rw (edited_valid body.scope_grants r.scope_grants)
      (rw (edited_valid body.manage_grants r.manage_grants) refl)

edited_id : (body : Fields) (r : Role) → has_id (edit_role body (normalize_role r)) ≡ has_id r
unfolding has_id edit_role normalize_role
edited_id body r = refl

same_id : (body : Fields) (r : Role) → (edit_role body r).id ≡ r.id
unfolding edit_role
same_id body r = refl

normal_id : (r : Role) → (normalize_role r).id ≡ r.id
unfolding normalize_role
normal_id r = refl

named_normal : (r : Role) → has_id (normalize_role r) ≡ has_id r
unfolding has_id normalize_role
named_normal r = refl

normal_idem : (r : Role) → normalize_role (normalize_role r) ≡ normalize_role r
unfolding normalize_role
normal_idem r =
    rw (filter_idem still_valid r.scope_grants) (rw (filter_idem still_valid r.manage_grants) refl)

normal_changed :
    (rid : Text) (body : Fields) (roles : List Role)
    → map normalize_role (
        filter has_id (change_role rid (edit_role body) (map normalize_role (filter has_id roles))))
      ≡ change_role rid (edit_role body) (map normalize_role (filter has_id roles))
unfolding filter change_role
normal_changed rid body [] = refl
normal_changed rid body (r ∷ roles) = elim (Bool-cases (has_id r)) [
  | inr nameless ↦ rw nameless (normal_changed rid body roles)
  | inl named ↦ rw named (elim (Bool-cases (str_eq (normalize_role r).id rid)) [
    | inl same ↦ rw same (
        rw (edited_id body r) (rw named (rw (edited_normal body r) (rw (normal_twice roles) refl))))
    | inr other ↦ rw other (
        rw (named_normal r)
          (rw named (rw (normal_idem r) (rw (normal_changed rid body roles) refl))))
  ])
]

find-change_role :
    (rid other : Text) (body : Fields) (roles : List Role)
    → str_eq other rid ≡ false
    → find_role other (change_role rid (edit_role body) roles) ≡ find_role other roles
unfolding find_role change_role
find-change_role rid other body [] h = refl
find-change_role rid other body (r ∷ roles) h = ground (
  arith,
  h,
  find-change_role rid other body roles h,
  same_id body r,
  str_eq_iff r.id rid,
  str_eq_iff r.id other,
  str_eq_iff other rid,
)

find_edited :
    (rid : Text) (body : Fields) (roles : List Role) (r : Role)
    → find_role rid roles ≡ some r
    → find_role rid (change_role rid (edit_role body) roles) ≡ some (edit_role body r)
unfolding find_role change_role
find_edited rid body [] r h = cc
find_edited rid body (s ∷ roles) r h =
    ground (arith, h, find_edited rid body roles r, same_id body s)

roles-update_role :
    (rid : Text) (body : Fields) (file : Registry)
    → has_role rid (list_roles file) ≡ true
    → list_roles (update_role rid body file).1 ≡ change_role rid (edit_role body) (list_roles file)
unfolding update_role list_roles
roles-update_role rid body file there =
    rw there (
      rw⁻¹ (roles-read_doc file) (unfold read_doc in normal_changed rid body (read_doc file).roles))

-- What an edit with a request makes of a role: a field that the request has takes the request's value in
-- its normal form, every other field stays, and so do the id and the name of Base.
abbrev pub IsEditOf : Fields → Role → Role → Type 0
IsEditOf body r u =
    (u.id ≡ r.id)
    × (u.name ≡ (
        if str_eq r.id (codes "base")
        then r.name
        else elim body.name [ none ↦ r.name | some v ↦ text_value v ]))
    × (u.description ≡ (elim body.description [ none ↦ r.description | some v ↦ text_value v ]))
    × (u.table_ids ≡ (elim body.table_ids [ none ↦ r.table_ids | some vs ↦ normalize_texts vs ]))
    × (u.scope_grants
        ≡ (elim body.scope_grants [ none ↦ r.scope_grants | some gs ↦ normalize_grants gs ]))
    × (u.manage_grants
        ≡ (elim body.manage_grants [ none ↦ r.manage_grants | some gs ↦ normalize_grants gs ]))

edited_as {ℓ κ} :
    {A : Type ℓ} {B : Type κ} (f : A → B) (o : Option A) (b : B)
    → edited f o b ≡ (elim o [ none ↦ b | some a ↦ f a ])
edited_as f none b = refl
edited_as f (some a) b = refl

edit_role-IsEditOf : (body : Fields) (r : Role) → IsEditOf body r (edit_role body r)
unfolding edit_role
edit_role-IsEditOf body r = (
  refl,
  ap (λ (n : Text). if str_eq r.id (codes "base") then r.name else n)
      (edited_as text_value body.name r.name),
  edited_as text_value body.description r.description,
  edited_as normalize_texts body.table_ids r.table_ids,
  edited_as normalize_grants body.scope_grants r.scope_grants,
  edited_as normalize_grants body.manage_grants r.manage_grants,
)

-- An edit of an existing role answers that role, edited, and this is what is read back: a field that the
-- request has takes the request's value in its normal form, and every other field stays, as do the id
-- and the name of Base. Every other role reads as before.
pub updated_role_read :
    (rid other : Text) (body : Fields) (file : Registry) (r : Role)
    → str_eq other rid ≡ false
    → find_role rid (list_roles file) ≡ some r
    → (u : Role) × IsEditOf body r u
      × ((update_role rid body file).0 ≡ some u)
      × (find_role rid (list_roles (update_role rid body file).1) ≡ some u)
      × (find_role other (list_roles (update_role rid body file).1)
          ≡ find_role other (list_roles file))
updated_role_read rid other body file r h found =
    let there : has_role rid (list_roles file) ≡ true = rw found refl in
    let after = roles-update_role rid body file there in
    (
      edit_role body r,
      edit_role-IsEditOf body r,
      unfold update_role list_roles in rw there (find_edited rid body (list_roles file) r found),
      ap (find_role rid) after ∙ find_edited rid body (list_roles file) r found,
      ap (find_role other) after ∙ find-change_role rid other body (list_roles file) h,
    )
