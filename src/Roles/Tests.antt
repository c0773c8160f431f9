-- ===== src/Roles/Tests.antt =====
-- roles_store.py on concrete registries.
use pdc_client.Base.{
  ◌≡◌, refl, true, false, not, ◌&&◌, ◌||◌, none, some, [], ◌∷◌, map, leb, Text, nat_Eq, text_Eq,
  pair_Eq, str_eq,
}
use pdc_client.Base.Lists.{elem, filter, any, all, All}
use pdc_client.Base.Strings.{codes, lower, strip}
use pdc_client.Accounts.{Store, create_account}
use pdc_client.Accounts.Profiles.{is_power, set_role, set_data_roles}
use pdc_client.Roles.{
  Role, Doc, Registry, Fields, base_role_id, base_role_doc, legacy_poweruser_id, has_role,
  list_roles, read_doc, set_table_roles, remove_connection, update_role, has_id, normalize_role,
  find_role, role_of_fields,
}
use pdc_client.Roles.Grants.{null, text, fields, normalize_texts, still_valid}
use pdc_client.Base.Ids.{is_id}
use pdc_client.Roles.Access.{
  Table, is_personal, names_personal, Sources, scope_covers, can_manage_physical, manager_scope_for,
  covered, personal_connection_ids, self_service_allowed, roles_for_email, allowed_table_ids_for,
  manageable_table_ids_for, personal_grant_refusal,
}
use pdc_client.Roles.Coverage.{manages_by_grant, manager_scope_exact, owns}
use pdc_client.Roles.Isolation.{
  has_owner, opens, registered_itself, allowed_tables_exact, personal_table_unreachable,
}
use pdc_client.Accounts.Profiles.{nonempty}
use pdc_client.Roles.Refusals.{on_personal, lists_personal, accepted_role_has_no_personal_grant}
use pdc_client.Roles.Reconcile.{
  apart_from_tables, table_roles_exact, lists_table, without_connection, removed_connection_pruned,
}
use pdc_client.Roles.Startup.{start_up, start_up_settles, version_of}
use pdc_client.Roles.Updated.{IsEditOf, updated_role_read}

-- Opens the code for the runs below.
runs_open : Unit {0}
unfolding elem filter any all str_eq is_id still_valid personal_connection_ids has_id normalize_role
    find_role read_doc list_roles personal_grant_refusal is_personal strip names_personal
    normalize_texts
runs_open = tt

abbrev warehouse : Text
warehouse = codes "00000000000000aa"

abbrev private : Text
private = codes "00000000000000bb"

abbrev team : Text
team = codes "00000000000000cc"

abbrev sales : Text
sales = codes "0000000000000001"

abbrev diary : Text
diary = codes "0000000000000002"

abbrev team_role : Role
team_role = record {
  id = team;
  name = codes "Team";
  description = [];
  table_ids = diary ∷ [];
  scope_grants = record { connection_id = warehouse; schema = some (codes "Sales") } ∷ [];
  manage_grants = record { connection_id = warehouse; schema = none } ∷ [];
}

abbrev registry_doc : Doc
registry_doc = record { version = 1; roles = base_role_doc ∷ team_role ∷ [] }

abbrev registry : Registry
registry = some registry_doc

abbrev ann : Text
ann = codes "Ann@x.org"

abbrev accounts : Store
accounts =
    (set_data_roles ann (team ∷ [])
      (set_role ann (codes "power")
        (create_account ann none (codes "g0")
          (record { users = []; generations = []; tokens = []; identities = [] })).1).1).1

abbrev sales_table : Table
sales_table = record {
  id = sales;
  connection_id = warehouse;
  schema = some (codes "SALES");
  is_connector = false;
  registered_by = codes "bob@x.org";
}

abbrev diary_table : Table
diary_table = record {
  id = diary;
  connection_id = private;
  schema = none;
  is_connector = false;
  registered_by = codes "bob@x.org";
}

abbrev sources : Sources
sources = record {
  tables = sales_table ∷ diary_table ∷ [];
  connections =
      record { id = warehouse; owner = [] }
      ∷ record { id = private; owner = codes "bob@x.org" }
      ∷ [];
}

abbrev body : Fields
body = record {
  name = some (text (codes "New"));
  description = none;
  table_ids = some (text sales ∷ null ∷ []);
  scope_grants = some (fields (text warehouse) null ∷ fields (text (codes "no id")) null ∷ []);
  manage_grants = none;
}

manages_by_grant_example :
    can_manage_physical ann warehouse (some (codes "x")) registry accounts ≡ (
      is_power ann accounts
      && any
          (λ (r : Role).
            scope_covers (filter still_valid r.manage_grants) warehouse (some (codes "x")))
          (roles_for_email ann registry accounts))
manages_by_grant_example = manages_by_grant ann warehouse (some (codes "x")) registry accounts

manager_scope_exact_example :
    covered (manager_scope_for (codes "ladmin") ann registry accounts sources) warehouse none ≡ (
      can_manage_physical ann warehouse none registry accounts
      || self_service_allowed (codes "ladmin") ann accounts && owns ann warehouse sources)
manager_scope_exact_example =
    manager_scope_exact (codes "ladmin") ann warehouse none registry accounts sources

allowed_tables_exact_example :
    elem sales (allowed_table_ids_for ann registry accounts sources)
    ≡ any
        (λ (t : Table).
          str_eq t.id sales
          && nonempty t.id
          && not t.is_connector
          && (registered_itself ann t
              || not (has_owner t.connection_id sources.connections)
                && any (opens t) (roles_for_email ann registry accounts)))
        sources.tables
allowed_tables_exact_example = allowed_tables_exact ann sales registry accounts sources

diary_is_personal :
    all
      (λ (t : Table).
        not (str_eq t.id diary)
        || has_owner t.connection_id sources.connections && not (registered_itself ann t))
      sources.tables
    ≡ true
unfolding runs_open lower
diary_is_personal = refl

-- The role of the team lists the diary, in vain.
personal_table_unreachable_example :
    (elem diary (allowed_table_ids_for ann registry accounts sources) ≡ false)
    × (elem diary (manageable_table_ids_for ann registry accounts sources) ≡ false)
personal_table_unreachable_example =
    personal_table_unreachable ann diary registry accounts sources diary_is_personal

body_accepted : personal_grant_refusal body sources ≡ false
unfolding runs_open
body_accepted = refl

accepted_role_has_no_personal_grant_example :
    (any (on_personal (personal_connection_ids sources)) (role_of_fields team body).scope_grants
      ≡ false)
    × (any (on_personal (personal_connection_ids sources)) (role_of_fields team body).manage_grants
        ≡ false)
    × (any
          (lists_personal (role_of_fields team body).table_ids (personal_connection_ids sources))
          sources.tables
        ≡ false)
accepted_role_has_no_personal_grant_example =
    accepted_role_has_no_personal_grant team body sources body_accepted

table_roles_exact_example :
    All
      (λ r. elem sales r.table_ids ≡ elem r.id (team ∷ []))
      (list_roles (set_table_roles sales (team ∷ []) registry))
    × ((t : Text)
        → str_eq t sales ≡ false
        → map (lists_table t) (list_roles (set_table_roles sales (team ∷ []) registry))
          ≡ map (lists_table t) (list_roles registry))
    × (map apart_from_tables (list_roles (set_table_roles sales (team ∷ []) registry))
        ≡ map apart_from_tables (list_roles registry))
table_roles_exact_example = table_roles_exact sales (team ∷ []) registry

removed_connection_pruned_example :
    list_roles (remove_connection warehouse (sales ∷ []) registry)
    ≡ map (without_connection warehouse (sales ∷ [])) (list_roles registry)
removed_connection_pruned_example = removed_connection_pruned warehouse (sales ∷ []) registry

start_up_settles_example :
    (has_role base_role_id (list_roles (start_up registry)) ≡ true)
    × (has_role legacy_poweruser_id (list_roles (start_up registry)) ≡ false)
    × (leb 2 (version_of (start_up registry)) ≡ true)
    × (start_up (start_up registry) ≡ start_up registry)
start_up_settles_example = start_up_settles registry

team_well_formed : is_id team ≡ true
unfolding runs_open
team_well_formed = refl

team_is_fresh : has_role team (list_roles none) ≡ false
unfolding runs_open
team_is_fresh = refl

team_read : find_role team (list_roles registry) ≡ some team_role
unfolding runs_open
team_read = refl

updated_role_read_example :
    (u : Role) × IsEditOf body team_role u
    × ((update_role team body registry).0 ≡ some u)
    × (find_role team (list_roles (update_role team body registry).1) ≡ some u)
    × (find_role base_role_id (list_roles (update_role team body registry).1)
        ≡ find_role base_role_id (list_roles registry))
updated_role_read_example =
    updated_role_read team base_role_id body registry team_role (unfold str_eq in refl) team_read
