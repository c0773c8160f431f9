-- ===== src/Roles/Reconcile.antt =====
-- roles_store.py: what the roles read after a change of the whole registry.
use pdc_client.Base.{
  ◌≡◌, refl, sym, ap, ◌∙◌, inl, inr, Bool, true, false, not, ◌&&◌, none, some, List, [], ◌∷◌, ◌++◌,
  map, arith, if◌then◌else◌, ==_iff, Bool-cases, if_both, Text, str_eq_iff, str_eq_refl, nat_Eq,
  text_Eq, pair_Eq, str_eq,
}
use pdc_client.Base.Lists.{
  length, elem, filter, any, All, elem-append, elem-filter, filter_idem, filter_comm, filter-length,
}
use pdc_client.Roles.{
  Role, Registry, normalize_role, has_id, read_doc, list_roles, reconcile, set_table_roles,
  prune_role, remove_connection,
}
use pdc_client.Roles.Grants.{Grant, still_valid}

-- A change of one role that keeps its id and keeps a normal role normal.
module _ (f : Role → Role × Bool) (same_id : (r : Role) → (f r).0.id ≡ r.id)
    (stays_normal : (r : Role) → normalize_role (f (normalize_role r)).0 ≡ (f (normalize_role r)).0)
    (unchanged : (r : Role) → (f r).1 ≡ false → (f r).0 ≡ r) where
  id_kept : (r : Role) → has_id (f (normalize_role r)).0 ≡ has_id r
  unfolding has_id normalize_role
  id_kept r = ap (λ i. not (str_eq i [])) (same_id (normalize_role r))

  normal_after :
      (roles : List Role)
      → map normalize_role (
          filter has_id
            (map (λ (p : Role × Bool). p.0) (map f (map normalize_role (filter has_id roles)))))
        ≡ map (λ r. (f r).0) (map normalize_role (filter has_id roles))
  unfolding filter
  normal_after [] = refl
  normal_after (r ∷ roles) = elim (Bool-cases (has_id r)) [
    | inl named ↦
        rw named (rw (id_kept r) (rw named (rw (stays_normal r) (rw (normal_after roles) refl))))
    | inr nameless ↦ rw nameless (normal_after roles)
  ]

  none_changed :
      (roles : List Role)
      → any (λ (p : Role × Bool). p.1) (map f roles) ≡ false
      → map (λ r. (f r).0) roles ≡ roles
  unfolding any
  none_changed [] h = refl
  none_changed (r ∷ roles) h = ground (arith, h, none_changed roles, unchanged r)

  all_changed :
      (file : Registry)
      → list_roles (
          let doc = read_doc file in
          let changes = map f doc.roles in
          if any (λ (p : Role × Bool). p.1) changes
          then some (record doc { roles = map (λ (p : Role × Bool). p.0) changes })
          else file)
        ≡ map (λ r. (f r).0) (list_roles file)
  unfolding list_roles read_doc
  all_changed none = unfold any in refl
  all_changed (some doc) =
      let roles = map normalize_role (filter has_id doc.roles) in
      elim (Bool-cases (any (λ (p : Role × Bool). p.1) (map f roles))) [
        | inl changed ↦ rw changed (normal_after doc.roles)
        | inr same ↦ rw same (sym (none_changed roles same))
      ]

changes_nothing :
    (table : Text) (wanted : List Text) (r : Role)
    → (reconcile table wanted r).1 ≡ false
    → (reconcile table wanted r).0 ≡ r
unfolding reconcile
changes_nothing table wanted r h = ground (arith, h)

id-reconcile :
    (table : Text) (wanted : List Text) (r : Role) → (reconcile table wanted r).0.id ≡ r.id
unfolding reconcile
id-reconcile table wanted r = ground arith

list_roles-set_table_roles :
    (table : Text) (wanted : List Text) (file : Registry)
    → list_roles (set_table_roles table wanted file)
      ≡ map (λ r. (reconcile table wanted r).0) (list_roles file)
unfolding set_table_roles
list_roles-set_table_roles table wanted file =
    all_changed (reconcile table wanted) (id-reconcile table wanted)
      (λ r.
        unfold reconcile normalize_role in
        ground
          (arith, filter_idem still_valid r.scope_grants, filter_idem still_valid r.manage_grants))
      (changes_nothing table wanted) file

elem_one : (a b : Text) → elem a (b ∷ []) ≡ str_eq a b
unfolding elem
elem_one a b = ground (arith, str_eq_iff a b, str_eq_iff b a)

elem-reconcile :
    (table : Text) (wanted : List Text) (r : Role)
    → elem table (reconcile table wanted r).0.table_ids ≡ elem r.id wanted
unfolding reconcile
elem-reconcile table wanted r = ground (
  arith,
  elem-append table r.table_ids (table ∷ []),
  elem-filter (λ t. not (str_eq t table)) table r.table_ids,
  str_eq_refl table,
  elem_one table table,
)

other-reconcile :
    (table t : Text) (wanted : List Text) (r : Role)
    → str_eq t table ≡ false
    → elem t (reconcile table wanted r).0.table_ids ≡ elem t r.table_ids
unfolding reconcile
other-reconcile table t wanted r h = ground (
  arith,
  h,
  elem-append t r.table_ids (table ∷ []),
  elem-filter (λ t. not (str_eq t table)) t r.table_ids,
  elem_one t table,
)

All-reconciled :
    (table : Text) (wanted : List Text) (roles : List Role)
    → All
        (λ r. elem table r.table_ids ≡ elem r.id wanted)
        (map (λ r. (reconcile table wanted r).0) roles)
All-reconciled table wanted [] = tt
All-reconciled table wanted (r ∷ roles) = (
  elem-reconcile table wanted r ∙ ap (λ i. elem i wanted) (sym (id-reconcile table wanted r)),
  All-reconciled table wanted roles,
)

-- A role's id and whether it lists a table.
abbrev pub lists_table : Text → Role → Text × Bool
lists_table t r = (r.id, elem t r.table_ids)

others_reconciled :
    (table t : Text) (wanted : List Text) (roles : List Role)
    → str_eq t table ≡ false
    → map (lists_table t) (map (λ r. (reconcile table wanted r).0) roles)
      ≡ map (lists_table t) roles
others_reconciled table t wanted [] h = refl
others_reconciled table t wanted (r ∷ roles) h =
    rw (id-reconcile table wanted r)
      (rw (other-reconcile table t wanted r h) (rw (others_reconciled table t wanted roles h) refl))

-- A role apart from the tables that it lists.
abbrev pub apart_from_tables : Role → Role
apart_from_tables r = record r { table_ids = [] }

rest_kept :
    (table : Text) (wanted : List Text) (r : Role)
    → apart_from_tables (reconcile table wanted r).0 ≡ apart_from_tables r
unfolding reconcile
rest_kept table wanted r =
    let more = record r { table_ids = r.table_ids ++ table ∷ [] } in
    let fewer = record r { table_ids = filter (λ t. not (str_eq t table)) r.table_ids } in
    let same = λ (p : Role × Bool). apart_from_tables p.0 ≡ apart_from_tables r in
    if_both same (elem r.id wanted && not (elem table r.table_ids)) (more, true)
      (if elem table r.table_ids && not (elem r.id wanted) then (fewer, true) else (r, false)) refl
      (if_both same (elem table r.table_ids && not (elem r.id wanted)) (fewer, true) (r, false) refl
        refl)

all_rest_kept :
    (table : Text) (wanted : List Text) (roles : List Role)
    → map apart_from_tables (map (λ r. (reconcile table wanted r).0) roles)
      ≡ map apart_from_tables roles
all_rest_kept table wanted [] = refl
all_rest_kept table wanted (r ∷ roles) =
    rw (rest_kept table wanted r) (rw (all_rest_kept table wanted roles) refl)

-- After the roles of a table are set, a role lists the table exactly when its id is among the ones
-- given; what the roles list of every other table stays, and so does all the rest of the roles, in
-- their order.
pub table_roles_exact :
    (table : Text) (wanted : List Text) (file : Registry)
    → All
        (λ r. elem table r.table_ids ≡ elem r.id wanted)
        (list_roles (set_table_roles table wanted file))
      × ((t : Text)
          → str_eq t table ≡ false
          → map (lists_table t) (list_roles (set_table_roles table wanted file))
            ≡ map (lists_table t) (list_roles file))
      × (map apart_from_tables (list_roles (set_table_roles table wanted file))
          ≡ map apart_from_tables (list_roles file))
table_roles_exact table wanted file = rw (list_roles-set_table_roles table wanted file) (
  All-reconciled table wanted (list_roles file),
  λ t h. others_reconciled table t wanted (list_roles file) h,
  all_rest_kept table wanted (list_roles file),
)

-- A role without its grants on a connection and without the tables in a list.
pub without_connection : Text → List Text → Role → Role
without_connection cid gone r = record r {
  scope_grants = filter (λ (g : Grant). not (str_eq g.connection_id cid)) r.scope_grants;
  manage_grants = filter (λ (g : Grant). not (str_eq g.connection_id cid)) r.manage_grants;
  table_ids = filter (λ t. not (elem t gone)) r.table_ids;
}

prune_role-filters :
    (cid : Text) (gone : List Text) (r : Role)
    → (prune_role cid gone r).0 ≡ without_connection cid gone r
unfolding prune_role without_connection
prune_role-filters cid gone r = ground (
  arith,
  filter-length (λ (g : Grant). not (str_eq g.connection_id cid)) r.scope_grants,
  filter-length (λ (g : Grant). not (str_eq g.connection_id cid)) r.manage_grants,
  filter-length (λ t. not (elem t gone)) r.table_ids,
  ==_iff (length (filter (λ (g : Grant). not (str_eq g.connection_id cid)) r.scope_grants))
      (length r.scope_grants),
  ==_iff (length (filter (λ (g : Grant). not (str_eq g.connection_id cid)) r.manage_grants))
      (length r.manage_grants),
  ==_iff (length (filter (λ t. not (elem t gone)) r.table_ids)) (length r.table_ids),
)

normal_without :
    (cid : Text) (gone : List Text) (r : Role)
    → normalize_role (without_connection cid gone (normalize_role r))
      ≡ without_connection cid gone (normalize_role r)
unfolding normalize_role without_connection
normal_without cid gone r =
    let kept = (λ (g : Grant). not (str_eq g.connection_id cid)) in
    rw (filter_comm still_valid kept (filter still_valid r.scope_grants)) (
      rw (filter_comm still_valid kept (filter still_valid r.manage_grants)) (
        rw (filter_idem still_valid r.scope_grants)
          (rw (filter_idem still_valid r.manage_grants) refl)))

all_pruned :
    (cid : Text) (gone : List Text) (roles : List Role)
    → map (λ r. (prune_role cid gone r).0) roles ≡ map (without_connection cid gone) roles
all_pruned cid gone [] = refl
all_pruned cid gone (r ∷ roles) =
    rw (prune_role-filters cid gone r) (rw (all_pruned cid gone roles) refl)

-- After a connection was removed, every role reads as before without its grants on the connection and
-- without the tables that went with it.
pub removed_connection_pruned :
    (cid : Text) (gone : List Text) (file : Registry)
    → list_roles (remove_connection cid gone file)
      ≡ map (without_connection cid gone) (list_roles file)
unfolding remove_connection
removed_connection_pruned cid gone file =
    all_changed (prune_role cid gone)
      (λ r.
        ap (λ (s : Role). s.id) (prune_role-filters cid gone r) ∙ unfold without_connection in refl)
      (λ r. rw (prune_role-filters cid gone (normalize_role r)) (normal_without cid gone r))
      (λ r h. unfold prune_role in ground (arith, h)) file
    ∙ all_pruned cid gone (list_roles file)
