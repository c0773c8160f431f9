-- ===== src/Roles/Access.antt =====
-- roles_store.py: which tables an address may read and which it may manage, and the personal
-- connections of db_sources.py. A Python set is the list of its members, read through `elem`. The
-- readers that fail closed on an exception are modelled on readable files.
use pdc_client.Base.{
  Bool, true, false, not, ◌&&◌, ◌||◌, Option, none, some, List, [], ◌∷◌, ◌++◌, map, if◌then◌else◌,
  Text, nat_Eq, text_Eq, pair_Eq, str_eq,
}
use pdc_client.Base.Lists.{elem, filter, any, is_nil}
use pdc_client.Base.Strings.{codes, lower, strip, fold_case}
use pdc_client.Accounts.{Store, user_exists}
use pdc_client.Accounts.Profiles.{
  nonempty, is_admin, is_power, is_bootstrap_admin, get_data_roles, get_self_service,
}
use pdc_client.Roles.{Role, Registry, Fields, base_role_id, read_doc, given_or}
use pdc_client.Roles.Grants.{
  Grant, RawGrant, null, other, text, fields, junk, grant_matches, still_valid, normalize_texts,
}

pub record Table : Type 0 where
  pub id : Text
  pub connection_id : Text
  pub schema : Option Text
  pub is_connector : Bool
  pub registered_by : Text

-- A connection is personal when it has an owner.
pub record Connection : Type 0 where
  pub id : Text
  pub owner : Text

pub record Sources : Type 0 where
  pub tables : List Table
  pub connections : List Connection

unfoldable pub is_personal : Connection → Bool
is_personal c = nonempty c.id && nonempty (strip c.owner)

-- `personal_connection_ids`
unfoldable pub personal_connection_ids : Sources → List Text
personal_connection_ids src = map (λ (c : Connection). c.id) (filter is_personal src.connections)

abbrev pub whole_connection : Connection → Grant
whole_connection c = record { connection_id = c.id; schema = none }

unfoldable pub owned_by : Text → Connection → Bool
owned_by me c = nonempty c.id && str_eq (fold_case c.owner) me

-- `personal_grants_for`
unfoldable pub personal_grants_for : Text → Sources → List Grant
personal_grants_for email src =
    let me = fold_case email in
    if nonempty me then map whole_connection (filter (owned_by me) src.connections) else []

-- `scope_covers`
unfoldable pub scope_covers : List Grant → Text → Option Text → Bool
scope_covers scope cid schema = any (λ g. grant_matches g cid schema) scope

-- The body of the loop of `effective_table_ids`.
unfoldable pub role_reads : Role → List Text → Table → Bool
role_reads r personal t =
    nonempty t.id
    && not t.is_connector
    && not (elem t.connection_id personal)
    && (elem t.id r.table_ids
        || scope_covers (filter still_valid r.scope_grants) t.connection_id t.schema)

-- `effective_table_ids`
unfoldable pub effective_table_ids : Role → List Table → List Text → List Text
effective_table_ids r tables personal =
    map (λ (t : Table). t.id) (filter (role_reads r personal) tables)

-- `by_id`: of two roles with one id the last counts.
unfoldable pub role_by_id : Text → List Role → Option Role
role_by_id rid [] = none
role_by_id rid (r ∷ roles) = elim (role_by_id rid roles) [
  | some later ↦ some later
  | none ↦ if str_eq r.id rid then some r else none
]

-- `[dict(by_id[rid]) for rid in ids if rid in by_id]`
unfoldable pub held_docs : List Text → List Role → List Role
held_docs [] roles = []
held_docs (rid ∷ ids) roles =
    let rest = held_docs ids roles in
    elim (role_by_id rid roles) [ none ↦ rest | some r ↦ r ∷ rest ]

abbrev pub base_stub : Role
base_stub = record {
  id = base_role_id;
  name = codes "Base";
  description = [];
  table_ids = [];
  scope_grants = [];
  manage_grants = [];
}

unfoldable pub or_base : List Role → List Role → List Role
or_base roles [] = given_or base_stub (role_by_id base_role_id roles) ∷ []
or_base roles (r ∷ held) = r ∷ held

-- `roles_for_email`
unfoldable pub roles_for_email : Text → Registry → Store → List Role
roles_for_email email file st =
    let roles = (read_doc file).roles in or_base roles (held_docs (get_data_roles email st) roles)

unfoldable pub effective_of : List Role → List Table → List Text → List Text
effective_of [] tables personal = []
effective_of (r ∷ roles) tables personal =
    effective_table_ids r tables personal ++ effective_of roles tables personal

unfoldable pub registered_by_me : Text → Table → Bool
registered_by_me me t =
    nonempty me && nonempty t.id && not t.is_connector && str_eq (fold_case t.registered_by) me

-- `allowed_table_ids_for`
unfoldable pub allowed_table_ids_for : Text → Registry → Store → Sources → List Text
allowed_table_ids_for email file st src =
    effective_of (roles_for_email email file st) src.tables (personal_connection_ids src)
    ++ map (λ (t : Table). t.id) (filter (registered_by_me (fold_case email)) src.tables)

unfoldable pub same_schema : Option Text → Option Text → Bool
same_schema none none = true
same_schema (some s) (some t) = str_eq (lower s) (lower t)
same_schema none (some t) = false
same_schema (some s) none = false

-- Two grants with the same key: connection and schema in lower case.
unfoldable pub same_key : Grant → Grant → Bool
same_key g h = str_eq g.connection_id h.connection_id && same_schema g.schema h.schema

-- The loop over the grants; `seen` holds those that are kept.
unfoldable pub unique_grants : List Grant → List Grant → List Grant
unique_grants seen [] = []
unique_grants seen (g ∷ grants) =
    let again = any (same_key g) seen in
    let rest = unique_grants (if again then seen else g ∷ seen) grants in
    if again then rest else g ∷ rest

unfoldable pub manage_grants_of : List Role → List Grant
manage_grants_of [] = []
manage_grants_of (r ∷ roles) = filter still_valid r.manage_grants ++ manage_grants_of roles

-- `management_scope_for`
unfoldable pub management_scope_for : Text → Registry → Store → Option (List Grant)
management_scope_for email file st =
    if is_power email st
    then some (unique_grants [] (manage_grants_of (roles_for_email email file st)))
    else none

abbrev pub covered : Option (List Grant) → Text → Option Text → Bool
covered none cid schema = false
covered (some scope) cid schema = scope_covers scope cid schema

-- `can_manage_physical`
unfoldable pub can_manage_physical : Text → Text → Option Text → Registry → Store → Bool
can_manage_physical email cid schema file st =
    covered (management_scope_for email file st) cid schema

unfoldable pub scope_manages : List Grant → List Text → Table → Bool
scope_manages scope personal t =
    not (elem t.connection_id personal)
    && nonempty t.id
    && scope_covers scope t.connection_id t.schema

abbrev pub managed_ids : Option (List Grant) → List Text → List Table → List Text
managed_ids none personal tables = []
managed_ids (some scope) personal tables =
    map (λ (t : Table). t.id) (filter (scope_manages scope personal) tables)

-- `manageable_table_ids_for`
unfoldable pub manageable_table_ids_for : Text → Registry → Store → Sources → List Text
manageable_table_ids_for email file st src =
    managed_ids (management_scope_for email file st) (personal_connection_ids src) src.tables

-- `self_service_allowed`, with the bootstrap admin's name.
unfoldable pub self_service_allowed : Text → Text → Store → Bool
self_service_allowed username email st =
    nonempty (strip email)
    && user_exists email st
    && not (is_admin email st || is_bootstrap_admin username email)
    && get_self_service email st

unfoldable pub joined : Option (List Grant) → Option (List Grant) → Option (List Grant)
joined none none = none
joined power personal =
    some (unique_grants [] (filter still_valid (given_or [] power ++ given_or [] personal)))

-- `manager_scope_for`
unfoldable pub manager_scope_for : Text → Text → Registry → Store → Sources → Option (List Grant)
manager_scope_for username email file st src =
    joined (management_scope_for email file st) (
      if self_service_allowed username email st then some (personal_grants_for email src) else none)

-- A list or an object as the id, which Python cannot look up in a set, reads as no match.
unfoldable pub names_personal : List Text → RawGrant → Bool
names_personal personal (fields (text cid) schema) = elem cid personal
names_personal personal (fields null schema) = false
names_personal personal (fields other schema) = false
names_personal personal junk = false

-- `personal_grant_refusal`: whether the refusal text is the answer.
unfoldable pub personal_grant_refusal : Fields → Sources → Bool
personal_grant_refusal body src =
    let personal = personal_connection_ids src in
    let wanted = normalize_texts (given_or [] body.table_ids) in
    not (is_nil personal)
    && (any (names_personal personal) (given_or [] body.scope_grants)
        || any (names_personal personal) (given_or [] body.manage_grants)
        || not (is_nil wanted)
          && any (λ (t : Table). elem t.id wanted && elem t.connection_id personal) src.tables)
