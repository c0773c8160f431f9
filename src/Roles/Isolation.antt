-- ===== src/Roles/Isolation.antt =====
-- roles_store.py: which tables the roles open, table by table, and that a role opens no table of a
-- personal connection.
use pdc_client.Base.{
  ◌≡◌, refl, sym, ◌∙◌, inl, inr, Bool, true, false, not, ◌&&◌, ◌||◌, Option, none, some, List, [],
  ◌∷◌, map, arith, Option-cases, Text, nat_Eq, text_Eq, pair_Eq, str_eq,
}
use pdc_client.Base.Lists.{all, elem, filter, any, elem-append}
use pdc_client.Base.Strings.{fold_case, lower, strip}
use pdc_client.Base.Ids.{is_id}
use pdc_client.Roles.Grants.{Grant, grant_matches, schema_matches, still_valid}
use pdc_client.Accounts.{Store}
use pdc_client.Accounts.Profiles.{nonempty}
use pdc_client.Roles.{Role, Registry}
use pdc_client.Roles.Access.{
  Connection, is_personal, scope_covers, Table, Sources, role_reads, effective_table_ids,
  effective_of, registered_by_me, allowed_table_ids_for, roles_for_email, personal_connection_ids,
  management_scope_for, scope_manages, manageable_table_ids_for, can_manage_physical,
}

elem-picked :
    (p : Table → Bool) (tid : Text) (tables : List Table)
    → elem tid (map (λ (t : Table). t.id) (filter p tables))
      ≡ any (λ (t : Table). str_eq t.id tid && p t) tables
unfolding elem filter any
elem-picked p tid [] = refl
elem-picked p tid (t ∷ tables) = ground (arith, elem-picked p tid tables)

any-or :
    (p q r : Table → Bool) (tables : List Table)
    → any (λ (t : Table). p t && (q t || r t)) tables
      ≡ (any (λ (t : Table). p t && q t) tables || any (λ (t : Table). p t && r t) tables)
unfolding any
any-or p q r [] = refl
any-or p q r (t ∷ tables) = ground (arith, any-or p q r tables)

any-none :
    (p : Table → Bool) (tables : List Table) → any (λ (t : Table). p t && false) tables ≡ false
unfolding any
any-none p [] = refl
any-none p (t ∷ tables) = ground (arith, any-none p tables)

elem-effective_of :
    (roles : List Role) (tid : Text) (tables : List Table) (personal : List Text)
    → elem tid (effective_of roles tables personal)
      ≡ any (λ (t : Table). str_eq t.id tid && any (λ r. role_reads r personal t) roles) tables
unfolding effective_of
elem-effective_of [] tid tables personal =
    unfold elem any in sym (any-none (λ (t : Table). str_eq t.id tid) tables)
elem-effective_of (r ∷ roles) tid tables personal =
    elem-append tid (effective_table_ids r tables personal) (effective_of roles tables personal)
    ∙ rw (elem-effective_of roles tid tables personal) (
        unfold effective_table_ids in
        rw (elem-picked (role_reads r personal) tid tables) (
          sym (
            unfold any in
            any-or (λ (t : Table). str_eq t.id tid) (role_reads r personal)
              (λ (t : Table). any (λ r. role_reads r personal t) roles) tables)))

elem-allowed_table_ids_for :
    (email tid : Text) (file : Registry) (st : Store) (src : Sources)
    → elem tid (allowed_table_ids_for email file st src)
      ≡ any
          (λ (t : Table).
            str_eq t.id tid
            && (any
                  (λ r. role_reads r (personal_connection_ids src) t)
                  (roles_for_email email file st)
                || registered_by_me (fold_case email) t))
          src.tables
unfolding allowed_table_ids_for
elem-allowed_table_ids_for email tid file st src =
    let personal = personal_connection_ids src in
    let roles = roles_for_email email file st in
    elem-append tid (effective_of roles src.tables personal)
      (map (λ (t : Table). t.id) (filter (registered_by_me (fold_case email)) src.tables))
    ∙ rw (elem-effective_of roles tid src.tables personal) (
        rw (elem-picked (registered_by_me (fold_case email)) tid src.tables) (
          sym (
            any-or (λ (t : Table). str_eq t.id tid)
              (λ (t : Table). any (λ r. role_reads r personal t) roles)
              (registered_by_me (fold_case email)) src.tables)))

-- Whether some entry of a connection with this id names an owner.
abbrev pub has_owner : Text → List Connection → Bool
has_owner cid connections =
    any (λ (c : Connection). str_eq c.id cid && nonempty c.id && nonempty (strip c.owner))
      connections

-- Whether a grant for `wanted`, all schemas or one, takes in the schema of a table, which
-- is empty where there is none.
abbrev pub takes_in : Option Text → Option Text → Bool
takes_in none schema = true
takes_in (some wanted) none = str_eq (lower wanted) []
takes_in (some wanted) (some schema) = str_eq (lower wanted) (lower schema)

-- Whether a role lists a table, or has a grant with a well-formed id that takes it in.
abbrev pub opens : Table → Role → Bool
opens t r =
    elem t.id r.table_ids
    || any
        (λ (g : Grant).
          is_id g.connection_id
          && str_eq g.connection_id t.connection_id
          && takes_in g.schema t.schema)
        r.scope_grants

-- Whether the address registered a table itself.
abbrev pub registered_itself : Text → Table → Bool
registered_itself email t =
    nonempty (fold_case email) && str_eq (fold_case t.registered_by) (fold_case email)

elem-personal :
    (cid : Text) (connections : List Connection)
    → elem cid (map (λ (c : Connection). c.id) (filter is_personal connections))
      ≡ has_owner cid connections
unfolding elem filter any is_personal
elem-personal cid [] = refl
elem-personal cid (c ∷ connections) = ground (arith, elem-personal cid connections)

schema_matches-takes_in :
    (wanted schema : Option Text) → schema_matches wanted schema ≡ takes_in wanted schema
unfolding schema_matches lower
schema_matches-takes_in none schema = refl
schema_matches-takes_in (some wanted) none = refl
schema_matches-takes_in (some wanted) (some schema) = refl

grant_takes_in :
    (g : Grant) (t : Table)
    → grant_matches g t.connection_id t.schema
      ≡ (str_eq g.connection_id t.connection_id && takes_in g.schema t.schema)
unfolding grant_matches
grant_takes_in g t = ground (arith, schema_matches-takes_in g.schema t.schema)

covers_valid :
    (t : Table) (grants : List Grant)
    → scope_covers (filter still_valid grants) t.connection_id t.schema
      ≡ any
          (λ (g : Grant).
            is_id g.connection_id
            && str_eq g.connection_id t.connection_id
            && takes_in g.schema t.schema)
          grants
unfolding scope_covers filter any still_valid
covers_valid t [] = refl
covers_valid t (g ∷ grants) = ground (arith, covers_valid t grants, grant_takes_in g t)

role_reads-opens :
    (r : Role) (t : Table) (src : Sources)
    → role_reads r (personal_connection_ids src) t ≡ (
        nonempty t.id
        && not t.is_connector
        && not (has_owner t.connection_id src.connections)
        && opens t r)
unfolding role_reads personal_connection_ids
role_reads-opens r t src =
    ground (arith, elem-personal t.connection_id src.connections, covers_valid t r.scope_grants)

any_reads :
    (t : Table) (src : Sources) (roles : List Role)
    → any (λ r. role_reads r (personal_connection_ids src) t) roles ≡ (
        nonempty t.id
        && not t.is_connector
        && not (has_owner t.connection_id src.connections)
        && any (opens t) roles)
unfolding any
any_reads t src [] = ground arith
any_reads t src (r ∷ roles) = ground (arith, any_reads t src roles, role_reads-opens r t src)

any-same :
    (p q : Table → Bool)
    → ((t : Table) → p t ≡ q t)
    → (tables : List Table) → any p tables ≡ any q tables
unfolding any
any-same p q h [] = refl
any-same p q h (t ∷ tables) = ground (arith, any-same p q h tables, h t)

-- An address may use a table id exactly when some table of the registry has it, it is not empty, the
-- table is no connector, and either the address registered the table or no entry with an owner
-- stands for its connection and a role that the address holds opens it: by its id, or by a grant
-- with a well-formed connection id on its connection and schema.
pub allowed_tables_exact :
    (email tid : Text) (file : Registry) (st : Store) (src : Sources)
    → elem tid (allowed_table_ids_for email file st src)
      ≡ any
          (λ (t : Table).
            str_eq t.id tid
            && nonempty t.id
            && not t.is_connector
            && (registered_itself email t
                || not (has_owner t.connection_id src.connections)
                  && any (opens t) (roles_for_email email file st)))
          src.tables
allowed_tables_exact email tid file st src =
    let held = roles_for_email email file st in
    let by_code : Table → Bool = λ t.
      str_eq t.id tid
      && (any (λ r. role_reads r (personal_connection_ids src) t) held
          || registered_by_me (fold_case email) t) in
    let by_rule : Table → Bool = λ t.
      str_eq t.id tid
      && nonempty t.id
      && not t.is_connector
      && (registered_itself email t
          || not (has_owner t.connection_id src.connections) && any (opens t) held) in
    elem-allowed_table_ids_for email tid file st src
    ∙ any-same by_code by_rule
        (λ t. unfold registered_by_me in ground (arith, any_reads t src held)) src.tables

none_of :
    (p q : Table → Bool)
    → ((t : Table) → p t ≡ true → q t ≡ false)
    → (tables : List Table) → all p tables ≡ true
    → any q tables ≡ false
unfolding any all
none_of p q f [] h = refl
none_of p q f (t ∷ tables) h = ground (arith, h, f t, none_of p q f tables)

-- An address manages a table id through its roles exactly when a table with that id is on no personal
-- connection and lies where the address may manage.
pub manageable_tables_exact :
    (email tid : Text) (file : Registry) (st : Store) (src : Sources)
    → elem tid (manageable_table_ids_for email file st src)
      ≡ any
          (λ (t : Table).
            str_eq t.id tid
            && (not (elem t.connection_id (personal_connection_ids src))
                && nonempty t.id
                && can_manage_physical email t.connection_id t.schema file st))
          src.tables
unfolding manageable_table_ids_for can_manage_physical
manageable_tables_exact email tid file st src =
    elim (Option-cases (management_scope_for email file st)) [
      | inl plain ↦ rw plain (
          unfold elem in
          sym (
            any-same _ _ (λ t. ground arith) src.tables
            ∙ any-none (λ (t : Table). str_eq t.id tid) src.tables))
      | inr (scope, power) ↦ rw power (
          elem-picked (scope_manages scope (personal_connection_ids src)) tid src.tables
          ∙ unfold scope_manages in refl)
    ]

-- When each table with an id is on a connection that has an owner, and the address registered none
-- of them, then the id is not among those that the address may use nor among those that it manages,
-- whatever the registry of roles and the accounts hold.
pub personal_table_unreachable :
    (email tid : Text) (file : Registry) (st : Store) (src : Sources)
    → all
        (λ (t : Table).
          not (str_eq t.id tid)
          || has_owner t.connection_id src.connections && not (registered_itself email t))
        src.tables
      ≡ true
    → (elem tid (allowed_table_ids_for email file st src) ≡ false)
      × (elem tid (manageable_table_ids_for email file st src) ≡ false)
unfolding personal_connection_ids
personal_table_unreachable email tid file st src private = (
  allowed_tables_exact email tid file st src
      ∙ none_of _ _ (λ t h. ground (arith, h)) src.tables private,
  manageable_tables_exact email tid file st src
      ∙ none_of _ _ (λ t h. ground (arith, h, elem-personal t.connection_id src.connections))
          src.tables private,
)
