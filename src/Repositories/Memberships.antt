-- ===== src/Repositories/Memberships.antt =====
-- repositories/memberships.py
use multi_tenant_saas_api.Base.{
  ℕ, Bool, true, false, not, Option, none, some, List, [], ◌∷◌, ◌++◌, select, scalar, count,
  update_rows, delete_rows, order_by, page, ◌==◌, ◌&&◌, leb, ltb, if◌then◌else◌,
}
use multi_tenant_saas_api.Domain.{OrganisationRole, role_eq}
use multi_tenant_saas_api.Database.{Db, OrganisationMembership, membership_fits}
use multi_tenant_saas_api.Exec.{Env, Action, pure, query, ◌>>=◌, ◌>>◌, uuid4, now, flush}

unfoldable pub add_membership : OrganisationMembership → Db → Db
add_membership m db = record db { memberships = db.memberships ++ m ∷ [] }

unfoldable pub put_membership : OrganisationMembership → Db → Db
put_membership m db = record db {
  memberships = update_rows (λ n. n.id == m.id) (λ n. m) db.memberships;
}

unfoldable pub drop_membership : OrganisationMembership → Db → Db
drop_membership m db = record db { memberships = delete_rows (λ n. n.id == m.id) db.memberships }

unfoldable pub create : Env → ℕ → ℕ → OrganisationRole → Action OrganisationMembership
create env organisation_id user_id role = do
  i ← uuid4 env
  c ← now env
  t ← now env
  let membership : OrganisationMembership = record {
    id = i;
    organisation_id = organisation_id;
    user_id = user_id;
    role = role;
    created_at = c;
    updated_at = t;
  }
  flush env (λ db. membership_fits db membership) (add_membership membership)
  pure membership

abbrev pub is_of : ℕ → ℕ → OrganisationMembership → Bool
is_of organisation_id user_id m = (m.organisation_id == organisation_id) && (m.user_id == user_id)

unfoldable pub find_for_user : ℕ → ℕ → Db → Option OrganisationMembership
find_for_user organisation_id user_id db = scalar (is_of organisation_id user_id) db.memberships

abbrev pub get_for_user : ℕ → ℕ → Action (Option OrganisationMembership)
get_for_user organisation_id user_id = query (find_for_user organisation_id user_id)

-- `ORDER BY created_at ASC, id ASC`
abbrev pub created_then_id : OrganisationMembership → OrganisationMembership → Bool
created_then_id m n =
    if ltb m.created_at n.created_at then true else (m.created_at == n.created_at) && leb m.id n.id

unfoldable pub list_for_organisation : ℕ → ℕ → ℕ → Action (List OrganisationMembership)
list_for_organisation organisation_id limit offset = query λ db.
    page limit offset
      (order_by created_then_id (select (λ m. m.organisation_id == organisation_id) db.memberships))

unfoldable pub list_for_user : ℕ → Action (List OrganisationMembership)
list_for_user user_id =
    query λ db. order_by created_then_id (select (λ m. m.user_id == user_id) db.memberships)

unfoldable pub count_for_organisation : ℕ → Action ℕ
count_for_organisation organisation_id =
    query λ db. count (λ m. m.organisation_id == organisation_id) db.memberships

abbrev pub is_owner_of : ℕ → OrganisationMembership → Bool
is_owner_of organisation_id m =
    (m.organisation_id == organisation_id) && role_eq m.role OrganisationRole.owner

unfoldable pub owners : ℕ → Db → ℕ
owners organisation_id db = count (is_owner_of organisation_id) db.memberships

abbrev pub count_owners : ℕ → Action ℕ
count_owners organisation_id = query (owners organisation_id)

unfoldable pub other_owner : ℕ → ℕ → Db → Bool
other_owner organisation_id user_id db =
    ltb 0 (count (λ m. is_owner_of organisation_id m && not (m.user_id == user_id)) db.memberships)

abbrev pub has_other_owner : ℕ → ℕ → Action Bool
has_other_owner organisation_id user_id = query (other_owner organisation_id user_id)

abbrev is_owner : Option OrganisationMembership → Bool
is_owner none = false
is_owner (some m) = role_eq m.role OrganisationRole.owner

unfoldable pub is_last_owner : ℕ → ℕ → Action Bool
is_last_owner organisation_id user_id = do
  membership ← get_for_user organisation_id user_id
  if not (is_owner membership)
      then pure false
      else do other ← has_other_owner organisation_id user_id; pure (not other)

-- A flush with no net change writes nothing; `updated_at` moves with every `UPDATE`.
unfoldable pub update_role :
    Env → OrganisationMembership → OrganisationRole → Action OrganisationMembership
update_role env membership role = if role_eq role membership.role then pure membership else do
  t ← now env
  let updated = record membership { role = role; updated_at = t }
  flush env (λ db. true) (put_membership updated)
  pure updated

unfoldable pub delete : Env → OrganisationMembership → Action (Unit {0})
delete env membership = flush env (λ db. true) (drop_membership membership)
