-- ===== src/Roles.antt =====
-- roles_store.py: the registry of roles. Its document is `roles.json`; a missing or unreadable one
-- reads as the default document. Time stamps and the audit log, which no decision reads, are left
-- out. The lock makes every mutation one step.
pub mod Grants
pub mod Access
pub mod Reconcile
pub mod Coverage
pub mod Isolation
pub mod Refusals
pub mod Startup
pub mod Created
pub mod Updated
mod Tests
use pdc_client.Base.{
  ℕ, zero, suc, ◌+◌, ◌-◌, ◌*◌, ◌/◌, ◌%◌, ◌^◌, ◌≤◌, ◌<◌, min, max, ◌≡◌, refl, sym, ap, ◌∙◌, ◌≢◌, ◌↔◌,
  ◌⊎◌, inl, inr, Bool, true, false, not, ◌&&◌, ◌||◌, Option, none, some, List, [], ◌∷◌, ◌++◌, map,
  arith, ltb, leb, ◌==◌, if◌then◌else◌, leb→le, le→leb, ltb→lt, ==_iff, Bool-cases, Option-cases,
  is_some, if_both, Eq, Text, str_eq_iff, str_eq_refl, nat_Eq, text_Eq, pair_Eq, str_eq,
}
use pdc_client.Base.Lists.{length, elem, filter, any, all}
use pdc_client.Base.Strings.{codes, lower}
use pdc_client.Roles.Grants.{
  Grant, RawGrant, Value, null, text, normalize_grants, normalize_texts, still_valid, text_value,
}
use pdc_client.Base.Ids.{is_id}

pub record Role : Type 0 where
  pub id : Text
  pub name : Text
  pub description : Text
  pub table_ids : List Text
  pub scope_grants : List Grant
  pub manage_grants : List Grant

pub record Doc : Type 0 where
  pub version : ℕ
  pub roles : List Role

-- The file, as far as it can be read.
abbrev pub Registry : Type 0
Registry = Option Doc

-- The body of a create or edit request; an absent key is `none`.
pub record Fields : Type 0 where
  pub name : Option Value
  pub description : Option Value
  pub table_ids : Option (List Value)
  pub scope_grants : Option (List RawGrant)
  pub manage_grants : Option (List RawGrant)

abbrev pub base_role_id : Text
base_role_id = codes "base"

abbrev pub legacy_poweruser_id : Text
legacy_poweruser_id = codes "poweruser"

abbrev pub default_doc : Doc
default_doc = record { version = 2; roles = [] }

abbrev pub base_role_doc : Role
base_role_doc = record {
  id = base_role_id;
  name = codes "Base";
  description = codes "Default role for all users.";
  table_ids = [];
  scope_grants = [];
  manage_grants = [];
}

-- `_normalize_role` on a stored role.
pub normalize_role : Role → Role
normalize_role r = record r {
  scope_grants = filter still_valid r.scope_grants;
  manage_grants = filter still_valid r.manage_grants;
}

pub has_id : Role → Bool
has_id r = not (str_eq r.id [])

-- `read_doc`
pub read_doc : Registry → Doc
unfolding has_id normalize_role
read_doc none = default_doc
read_doc (some doc) = record doc { roles = map normalize_role (filter has_id doc.roles) }

-- `valid_id`
pub valid_id : Text → Bool
valid_id rid = str_eq rid base_role_id || is_id rid

pub find_role : Text → List Role → Option Role
find_role rid [] = none
find_role rid (r ∷ roles) = if str_eq r.id rid then some r else find_role rid roles

abbrev pub has_role : Text → List Role → Bool
has_role rid roles = is_some (find_role rid roles)

-- `ensure_base_role`
pub ensure_base_role : Registry → Registry
ensure_base_role file =
    let doc = read_doc file in
    if has_role base_role_id doc.roles
    then file
    else some (record doc { roles = base_role_doc ∷ doc.roles })

abbrev pub without_role : Text → List Role → List Role
without_role rid = filter (λ r. not (str_eq r.id rid))

-- `remove_poweruser_role`
pub remove_poweruser_role : Registry → Registry
remove_poweruser_role file =
    let doc = read_doc file in
    if has_role legacy_poweruser_id doc.roles
    then some (record doc { roles = without_role legacy_poweruser_id doc.roles })
    else file

abbrev pub copy_grants : Role → Role
copy_grants r = record r { manage_grants = r.scope_grants }

-- `migrate_manage_grants`
pub migrate_manage_grants : Registry → Registry
migrate_manage_grants file =
    let doc = read_doc file in
    if leb 2 doc.version
    then file
    else some (record { version = 2; roles = map copy_grants doc.roles })

-- `list_roles` and `get_role`
pub list_roles : Registry → List Role
list_roles file = (read_doc file).roles

pub get_role : Text → Registry → Option Role
get_role rid file = if valid_id rid then find_role rid (read_doc file).roles else none

abbrev pub given_or {ℓ} : {A : Type ℓ} → A → Option A → A
given_or a none = a
given_or a (some b) = b

-- The role that a create request describes: `_normalize_role` on the body.
pub role_of_fields : Text → Fields → Role
role_of_fields rid fields = record {
  id = rid;
  name = text_value (given_or null fields.name);
  description = text_value (given_or null fields.description);
  table_ids = normalize_texts (given_or [] fields.table_ids);
  scope_grants = normalize_grants (given_or [] fields.scope_grants);
  manage_grants = normalize_grants (given_or [] fields.manage_grants);
}

-- `create_role`, with the id that was drawn.
pub create_role : Text → Fields → Registry → Role × Registry
create_role rid fields file =
    let doc = read_doc file in
    let role = role_of_fields rid fields in
    (role, some (record doc { roles = doc.roles ++ role ∷ [] }))

abbrev pub edited {ℓ κ} : {A : Type ℓ} {B : Type κ} → (A → B) → Option A → B → B
edited f none b = b
edited f (some a) b = f a

-- The fields that are present replace the stored ones; the name of Base stays.
pub edit_role : Fields → Role → Role
edit_role fields r = record r {
  name = if str_eq r.id base_role_id then r.name else edited text_value fields.name r.name;
  description = edited text_value fields.description r.description;
  table_ids = edited normalize_texts fields.table_ids r.table_ids;
  scope_grants = edited normalize_grants fields.scope_grants r.scope_grants;
  manage_grants = edited normalize_grants fields.manage_grants r.manage_grants;
}

-- The first role of the id is changed in place.
pub change_role : Text → (Role → Role) → List Role → List Role
change_role rid f [] = []
change_role rid f (r ∷ roles) = if str_eq r.id rid then f r ∷ roles else r ∷ change_role rid f roles

-- `update_role`
pub update_role : Text → Fields → Registry → Option Role × Registry
update_role rid fields file =
    let doc = read_doc file in
    let roles = change_role rid (edit_role fields) doc.roles in
    if has_role rid doc.roles
    then (find_role rid roles, some (record doc { roles = roles }))
    else (none, file)

-- `delete_role`
pub delete_role : Text → Registry → Bool × Registry
delete_role rid file =
    let doc = read_doc file in
    if str_eq rid base_role_id
    then (false, file)
    else if has_role rid doc.roles
    then (true, some (record doc { roles = without_role rid doc.roles }))
    else (false, file)

-- One role in the reconcile of a table; the flag says whether it changed.
pub reconcile : Text → List Text → Role → Role × Bool
reconcile table wanted r =
    let has = elem table r.table_ids in
    let want = elem r.id wanted in
    if want && not has
    then (record r { table_ids = r.table_ids ++ table ∷ [] }, true)
    else if has && not want
    then (record r { table_ids = filter (λ t. not (str_eq t table)) r.table_ids }, true)
    else (r, false)

-- `set_table_roles`
pub set_table_roles : Text → List Text → Registry → Registry
unfolding reconcile
set_table_roles table wanted file =
    let doc = read_doc file in
    let changes = map (reconcile table wanted) doc.roles in
    if any (λ (p : Role × Bool). p.1) changes
    then some (record doc { roles = map (λ (p : Role × Bool). p.0) changes })
    else file

-- `remove_table`
pub remove_table : Text → Registry → Registry
remove_table table = set_table_roles table []

-- One role in the cleanup after a connection was deleted.
pub prune_role : Text → List Text → Role → Role × Bool
prune_role cid gone r =
    let grants = filter (λ (g : Grant). not (str_eq g.connection_id cid)) r.scope_grants in
    let manage = filter (λ (g : Grant). not (str_eq g.connection_id cid)) r.manage_grants in
    let tables = filter (λ t. not (elem t gone)) r.table_ids in
    if length grants == length r.scope_grants
      && length manage == length r.manage_grants
      && length tables == length r.table_ids
    then (r, false)
    else (record r { scope_grants = grants; manage_grants = manage; table_ids = tables }, true)

-- `remove_connection`
pub remove_connection : Text → List Text → Registry → Registry
unfolding prune_role
remove_connection cid gone file =
    let doc = read_doc file in
    let changes = map (prune_role cid gone) doc.roles in
    if any (λ (p : Role × Bool). p.1) changes
    then some (record doc { roles = map (λ (p : Role × Bool). p.0) changes })
    else file
