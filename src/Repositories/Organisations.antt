-- ===== src/Repositories/Organisations.antt =====
-- repositories/organisations.py
use multi_tenant_saas_api.Base.{
  ℕ, Bool, true, false, Option, none, some, List, [], ◌∷◌, ◌++◌, map, Text, text_eq, select, scalar,
  count, update_rows, order_by, page, ◌==◌, ◌&&◌, leb, if◌then◌else◌,
}
use multi_tenant_saas_api.Database.{
  Db, Organisation, OrganisationMembership, organisation_fits, organisation_update_fits,
}
use multi_tenant_saas_api.Exec.{Env, Action, pure, query, ◌>>=◌, ◌>>◌, uuid4, now, flush}

unfoldable pub add_organisation : Organisation → Db → Db
add_organisation o db = record db { organisations = db.organisations ++ o ∷ [] }

unfoldable pub put_organisation : Organisation → Db → Db
put_organisation o db = record db {
  organisations = update_rows (λ p. p.id == o.id) (λ p. o) db.organisations;
}

unfoldable pub create : Env → Text → Text → Action Organisation
create env name slug = do
  i ← uuid4 env
  c ← now env
  t ← now env
  let organisation : Organisation = record {
    id = i;
    name = name;
    slug = slug;
    created_at = c;
    updated_at = t;
  }
  flush env (λ db. organisation_fits db organisation) (add_organisation organisation)
  pure organisation

abbrev pub get_by_id : ℕ → Action (Option Organisation)
get_by_id organisation_id = query (λ db. scalar (λ o. o.id == organisation_id) db.organisations)

abbrev pub get_by_slug : Text → Action (Option Organisation)
get_by_slug slug = query (λ db. scalar (λ o. text_eq o.slug slug) db.organisations)

-- The join: an organisation once for each membership of the user in it.
abbrev pub join_memberships :
    ℕ → List OrganisationMembership → List Organisation → List Organisation
join_memberships user_id ms [] = []
join_memberships user_id ms (o ∷ os) =
    map (λ _. o) (select (λ m. (m.organisation_id == o.id) && (m.user_id == user_id)) ms)
    ++ join_memberships user_id ms os

-- `ORDER BY name ASC, id ASC`
abbrev pub name_then_id : Env → Organisation → Organisation → Bool
name_then_id env o p =
    if env.collates o.name p.name
    then (if env.collates p.name o.name then leb o.id p.id else true)
    else false

unfoldable pub list_for_user : Env → ℕ → ℕ → ℕ → Action (List Organisation)
list_for_user env user_id limit offset = query λ db.
    page limit offset
      (order_by (name_then_id env) (join_memberships user_id db.memberships db.organisations))

unfoldable pub count_for_user : ℕ → Action ℕ
count_for_user user_id = query (λ db. count (λ m. m.user_id == user_id) db.memberships)

abbrev given : {A : Type 0} → Option A → A → A
given none old = old
given (some a) old = a

abbrev unchanged : Option Text → Text → Bool
unchanged none old = true
unchanged (some a) old = text_eq a old

-- A flush with no net change writes nothing; `updated_at` moves with every `UPDATE`.
unfoldable pub update : Env → Organisation → Option Text → Option Text → Action Organisation
update env organisation name slug =
    if unchanged name organisation.name && unchanged slug organisation.slug
    then pure organisation
    else do
      t ← now env
      let updated = record organisation {
        name = given name organisation.name;
        slug = given slug organisation.slug;
        updated_at = t;
      }
      flush env (λ db. organisation_update_fits db updated) (put_organisation updated)
      pure updated
