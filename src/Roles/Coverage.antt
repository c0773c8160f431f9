-- ===== src/Roles/Coverage.antt =====
-- roles_store.py: what a power user manages, grant by grant.
use pdc_client.Base.{
  ◌≡◌, refl, ap, ◌∙◌, inl, inr, Bool, true, ◌&&◌, ◌||◌, Option, none, some, List, [], ◌∷◌, ◌++◌,
  map, arith, Bool-cases, Text, str_eq_iff, nat_Eq, text_Eq, pair_Eq, str_eq,
}
use pdc_client.Base.Lists.{filter, any, any-append, all, all-append, all-filter, filter-all}
use pdc_client.Base.Strings.{lower, fold_case}
use pdc_client.Accounts.{Store}
use pdc_client.Accounts.Profiles.{is_power, nonempty}
use pdc_client.Roles.{Role, Registry, given_or}
use pdc_client.Roles.Grants.{Grant, grant_matches, schema_matches, still_valid}
use pdc_client.Base.Ids.{is_id}
use pdc_client.Roles.Access.{
  same_key, same_schema, scope_covers, unique_grants, manage_grants_of, management_scope_for,
  covered, can_manage_physical, roles_for_email, manager_scope_for, self_service_allowed,
  personal_grants_for, joined, Sources, Connection, whole_connection, owned_by,
}

same_schema-matches :
    (a b schema : Option Text)
    → same_schema a b ≡ true
    → schema_matches a schema ≡ schema_matches b schema
unfolding same_schema schema_matches
same_schema-matches none none schema same = refl
same_schema-matches (some s) (some t) schema same =
    rw ((str_eq_iff (lower s) (lower t)).0 same) refl
same_schema-matches none (some t) schema same = ground (arith, same)
same_schema-matches (some s) none schema same = ground (arith, same)

same_key-matches :
    (g h : Grant) (cid : Text) (schema : Option Text)
    → same_key g h ≡ true
    → grant_matches g cid schema ≡ grant_matches h cid schema
unfolding same_key grant_matches
same_key-matches g h cid schema same = ground (
  arith,
  same,
  str_eq_iff g.connection_id h.connection_id,
  same_schema-matches g.schema h.schema schema,
)

repeated-covered :
    (g : Grant) (seen : List Grant) (cid : Text) (schema : Option Text)
    → any (same_key g) seen ≡ true
    → grant_matches g cid schema ≡ true
    → scope_covers seen cid schema ≡ true
unfolding any scope_covers
repeated-covered g [] cid schema again hit = ground (arith, again)
repeated-covered g (h ∷ seen) cid schema again hit =
    ground (arith, again, hit, same_key-matches g h cid schema, repeated-covered g seen cid schema)

covers-unique_grants :
    (seen grants : List Grant) (cid : Text) (schema : Option Text)
    → (scope_covers seen cid schema || scope_covers (unique_grants seen grants) cid schema)
      ≡ (scope_covers seen cid schema || scope_covers grants cid schema)
unfolding any scope_covers unique_grants
covers-unique_grants seen [] cid schema = refl
covers-unique_grants seen (g ∷ grants) cid schema = ground (
  arith,
  covers-unique_grants seen grants cid schema,
  covers-unique_grants (g ∷ seen) grants cid schema,
  repeated-covered g seen cid schema,
)

covers_unique :
    (grants : List Grant) (cid : Text) (schema : Option Text)
    → scope_covers (unique_grants [] grants) cid schema ≡ scope_covers grants cid schema
unfolding scope_covers any
covers_unique grants cid schema = covers-unique_grants [] grants cid schema

covers-append :
    (xs ys : List Grant) (cid : Text) (schema : Option Text)
    → scope_covers (xs ++ ys) cid schema
      ≡ (scope_covers xs cid schema || scope_covers ys cid schema)
unfolding scope_covers
covers-append xs ys cid schema = any-append (λ g. grant_matches g cid schema) xs ys

covers-manage_grants_of :
    (roles : List Role) (cid : Text) (schema : Option Text)
    → scope_covers (manage_grants_of roles) cid schema
      ≡ any (λ (r : Role). scope_covers (filter still_valid r.manage_grants) cid schema) roles
unfolding manage_grants_of any
covers-manage_grants_of [] cid schema = unfold scope_covers any in refl
covers-manage_grants_of (r ∷ roles) cid schema =
    rw covers-append (rw (covers-manage_grants_of roles cid schema) refl)

-- An address may manage a schema of a connection exactly when it holds the power permission and one
-- of its roles has a valid manage grant that covers the connection and the schema.
pub manages_by_grant :
    (email cid : Text) (schema : Option Text) (file : Registry) (st : Store)
    → can_manage_physical email cid schema file st ≡ (
        is_power email st
        && any
            (λ (r : Role). scope_covers (filter still_valid r.manage_grants) cid schema)
            (roles_for_email email file st))
unfolding can_manage_physical management_scope_for
manages_by_grant email cid schema file st = elim (Bool-cases (is_power email st)) [
  | inl power ↦ rw power (
      covers_unique (manage_grants_of (roles_for_email email file st)) cid schema
      ∙ covers-manage_grants_of (roles_for_email email file st) cid schema)
  | inr plain ↦ rw plain refl
]

valid-append :
    (xs ys : List Grant)
    → filter still_valid (xs ++ ys) ≡ filter still_valid xs ++ filter still_valid ys
unfolding filter
valid-append [] ys = refl
valid-append (g ∷ xs) ys = ground (arith, valid-append xs ys)

valid-manage_grants_of : (roles : List Role) → all still_valid (manage_grants_of roles) ≡ true
unfolding manage_grants_of
valid-manage_grants_of [] = unfold all in refl
valid-manage_grants_of (r ∷ roles) =
    rw all-append (rw (all-filter still_valid r.manage_grants) (valid-manage_grants_of roles))

valid-unique_grants :
    (seen grants : List Grant)
    → all still_valid grants ≡ true
    → all still_valid (unique_grants seen grants) ≡ true
unfolding all unique_grants
valid-unique_grants seen [] h = refl
valid-unique_grants seen (g ∷ grants) h =
    ground (arith, h, valid-unique_grants seen grants, valid-unique_grants (g ∷ seen) grants)

covers-whole_connections :
    (me cid : Text) (schema : Option Text) (connections : List Connection)
    → scope_covers
        (filter still_valid (map whole_connection (filter (owned_by me) connections)))
        cid
        schema
      ≡ any (λ c. owned_by me c && is_id c.id && str_eq c.id cid) connections
unfolding scope_covers any filter still_valid grant_matches schema_matches
covers-whole_connections me cid schema [] = refl
covers-whole_connections me cid schema (c ∷ connections) =
    ground (arith, covers-whole_connections me cid schema connections)

-- Whether the address owns the connection, which then has an id in the documented form.
pub owns : Text → Text → Sources → Bool
owns email cid src =
    nonempty (fold_case email)
    && any (λ c. owned_by (fold_case email) c && is_id c.id && str_eq c.id cid) src.connections

covers-personal_grants_for :
    (email cid : Text) (schema : Option Text) (src : Sources)
    → scope_covers (filter still_valid (personal_grants_for email src)) cid schema
      ≡ owns email cid src
unfolding personal_grants_for owns
covers-personal_grants_for email cid schema src = elim (Bool-cases (nonempty (fold_case email))) [
  | inl named ↦ rw named (covers-whole_connections (fold_case email) cid schema src.connections)
  | inr nameless ↦ rw nameless (unfold scope_covers any filter in refl)
]

covers-joined :
    (power personal : Option (List Grant)) (cid : Text) (schema : Option Text)
    → covered (joined power personal) cid schema ≡ (
        scope_covers (filter still_valid (given_or [] power)) cid schema
        || scope_covers (filter still_valid (given_or [] personal)) cid schema)
unfolding joined
covers-joined none none cid schema = unfold scope_covers any filter in refl
covers-joined none (some ys) cid schema =
    covers_unique (filter still_valid ([] ++ ys)) cid schema
    ∙ unfold scope_covers any filter in refl
covers-joined (some xs) none cid schema =
    covers_unique (filter still_valid (xs ++ [])) cid schema
    ∙ rw (valid-append xs [])
        (covers-append (filter still_valid xs) (filter still_valid []) cid schema)
covers-joined (some xs) (some ys) cid schema =
    covers_unique (filter still_valid (xs ++ ys)) cid schema
    ∙ rw (valid-append xs ys)
        (covers-append (filter still_valid xs) (filter still_valid ys) cid schema)

valid-management_scope :
    (email cid : Text) (schema : Option Text) (file : Registry) (st : Store)
    → scope_covers
        (filter still_valid (given_or [] (management_scope_for email file st)))
        cid
        schema
      ≡ can_manage_physical email cid schema file st
unfolding can_manage_physical management_scope_for
valid-management_scope email cid schema file st = elim (Bool-cases (is_power email st)) [
  | inl power ↦ rw power (
      ap (λ grants. scope_covers grants cid schema)
        (filter-all still_valid
          (unique_grants [] (manage_grants_of (roles_for_email email file st)))
          (valid-unique_grants [] (manage_grants_of (roles_for_email email file st))
            (valid-manage_grants_of (roles_for_email email file st)))))
  | inr plain ↦ rw plain (unfold scope_covers any filter in refl)
]

-- The scope of the data-source pages covers exactly what the address may manage as a power user, and,
-- with self-service on, the whole of each connection with a well-formed id that it owns.
pub manager_scope_exact :
    (username email cid : Text) (schema : Option Text) (file : Registry) (st : Store)
    (src : Sources)
    → covered (manager_scope_for username email file st src) cid schema ≡ (
        can_manage_physical email cid schema file st
        || self_service_allowed username email st && owns email cid src)
unfolding manager_scope_for
manager_scope_exact username email cid schema file st src =
    elim (Bool-cases (self_service_allowed username email st)) [
      | inl on ↦ rw on (
          covers-joined (management_scope_for email file st) (some (personal_grants_for email src))
            cid schema
          ∙ rw (valid-management_scope email cid schema file st)
              (rw (covers-personal_grants_for email cid schema src) refl))
      | inr off ↦ rw off (
          covers-joined (management_scope_for email file st) none cid schema
          ∙ rw (valid-management_scope email cid schema file st)
              (unfold scope_covers any filter in refl))
    ]
