-- ===== src/Roles/Refusals.antt =====
-- roles_store.py: a create or edit request that names a personal connection is refused.
use pdc_client.Base.{
  ◌≡◌, refl, ap, ◌∙◌, ◌⊎◌, inl, inr, Bool, true, false, ◌&&◌, none, some, List, [], ◌∷◌, arith,
  Bool-cases, Text, nat_Eq, text_Eq, pair_Eq,
}
use pdc_client.Base.Lists.{elem, any, is_nil}
use pdc_client.Roles.{Fields, given_or, role_of_fields}
use pdc_client.Roles.Grants.{
  Grant, RawGrant, null, other, text, fields, junk, normalize_grant, normalize_grants,
  normalize_texts,
}
use pdc_client.Roles.Access.{
  Table, Sources, personal_connection_ids, names_personal, personal_grant_refusal,
}

-- Whether a grant is on one of the personal connections.
pub on_personal : List Text → Grant → Bool
on_personal personal g = elem g.connection_id personal

on_personal-normalize_grant :
    (personal : List Text) (raw : RawGrant) (grants : List Grant)
    → names_personal personal raw ≡ false
    → any (on_personal personal) grants ≡ false
    → any
        (on_personal personal)
        (elim (normalize_grant raw) [ none ↦ grants | some g ↦ g ∷ grants ])
      ≡ false
unfolding any on_personal names_personal normalize_grant
on_personal-normalize_grant personal junk grants h rest = rest
on_personal-normalize_grant personal (fields null schema) grants h rest = rest
on_personal-normalize_grant personal (fields other schema) grants h rest = rest
on_personal-normalize_grant personal (fields (text cid) null) grants h rest =
    ground (arith, h, rest)
on_personal-normalize_grant personal (fields (text cid) other) grants h rest =
    ground (arith, h, rest)
on_personal-normalize_grant personal (fields (text cid) (text s)) grants h rest =
    ground (arith, h, rest)

on_personal-normalize_grants :
    (personal : List Text) (raws : List RawGrant)
    → any (names_personal personal) raws ≡ false
    → any (on_personal personal) (normalize_grants raws) ≡ false
unfolding normalize_grants
on_personal-normalize_grants personal [] h = unfold any in refl
on_personal-normalize_grants personal (raw ∷ raws) h =
    on_personal-normalize_grant personal raw (normalize_grants raws)
      (unfold any in ground (arith, h))
      (on_personal-normalize_grants personal raws (unfold any in ground (arith, h)))

is_nil-nil : (ids : List Text) → is_nil ids ≡ true → ids ≡ []
is_nil-nil [] h = refl
is_nil-nil (x ∷ ids) h = ground (arith, h)

on_personal_none : (grants : List Grant) → any (on_personal []) grants ≡ false
unfolding any on_personal elem
on_personal_none [] = refl
on_personal_none (g ∷ grants) = on_personal_none grants

-- The tables on a personal connection that a list of table ids names.
pub lists_personal : List Text → List Text → Table → Bool
lists_personal ids personal t = elem t.id ids && elem t.connection_id personal

lists_personal_none :
    (ids personal : List Text) (tables : List Table)
    → (is_nil ids ≡ true) ⊎ (is_nil personal ≡ true)
    → any (lists_personal ids personal) tables ≡ false
unfolding any lists_personal elem
lists_personal_none ids personal [] h = refl
lists_personal_none [] personal (t ∷ tables) (inl h) =
    lists_personal_none [] personal tables (inl h)
lists_personal_none (x ∷ ids) personal (t ∷ tables) (inl h) = ground (arith, h)
lists_personal_none ids [] (t ∷ tables) (inr h) =
    ground (arith, lists_personal_none ids [] tables (inr h))
lists_personal_none ids (x ∷ personal) (t ∷ tables) (inr h) = ground (arith, h)

-- A create request that is not refused makes a role without a grant on a personal connection and
-- without an explicit table of one.
pub accepted_role_has_no_personal_grant :
    (rid : Text) (body : Fields) (src : Sources)
    → personal_grant_refusal body src ≡ false
    → (any (on_personal (personal_connection_ids src)) (role_of_fields rid body).scope_grants
        ≡ false)
      × (any (on_personal (personal_connection_ids src)) (role_of_fields rid body).manage_grants
          ≡ false)
      × (any
            (lists_personal (role_of_fields rid body).table_ids (personal_connection_ids src))
            src.tables
          ≡ false)
unfolding personal_grant_refusal role_of_fields
accepted_role_has_no_personal_grant rid body src accepted =
    let personal = personal_connection_ids src in
    let scope = given_or [] body.scope_grants in
    let manage = given_or [] body.manage_grants in
    let ids = normalize_texts (given_or [] body.table_ids) in
    elim (Bool-cases (is_nil personal)) [
      | inl nothing ↦ (
        ap (λ ps. any (on_personal ps) (normalize_grants scope)) (is_nil-nil personal nothing)
            ∙ on_personal_none (normalize_grants scope),
        ap (λ ps. any (on_personal ps) (normalize_grants manage)) (is_nil-nil personal nothing)
            ∙ on_personal_none (normalize_grants manage),
        lists_personal_none ids personal src.tables (inr nothing),
      )
      | inr some_personal ↦ (
        on_personal-normalize_grants personal scope (ground (arith, accepted, some_personal)),
        on_personal-normalize_grants personal manage (ground (arith, accepted, some_personal)),
        elim (Bool-cases (is_nil ids)) [
          | inl no_ids ↦ lists_personal_none ids personal src.tables (inl no_ids)
          | inr some_ids ↦
              unfold lists_personal in ground (arith, accepted, some_personal, some_ids)
        ],
      )
    ]
