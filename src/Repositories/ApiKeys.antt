-- ===== src/Repositories/ApiKeys.antt =====
-- repositories/api_keys.py
use multi_tenant_saas_api.Base.{
  ℕ, Bool, true, false, Option, none, some, List, [], ◌∷◌, ◌++◌, Text, text_eq, select, scalar,
  count, update_rows, order_by, page, ◌==◌, ◌&&◌, leb, ltb, is_none, if◌then◌else◌,
}
use multi_tenant_saas_api.Database.{Db, ApiKey, api_key_fits}
use multi_tenant_saas_api.Exec.{Env, Action, pure, query, ◌>>=◌, ◌>>◌, uuid4, now, flush}

unfoldable pub add_api_key : ApiKey → Db → Db
add_api_key k db = record db { api_keys = db.api_keys ++ k ∷ [] }

unfoldable pub put_api_key : ApiKey → Db → Db
put_api_key k db = record db { api_keys = update_rows (λ j. j.id == k.id) (λ j. k) db.api_keys }

unfoldable pub create : Env → ℕ → Text → Text → Text → Option ℕ → Action ApiKey
create env organisation_id name key_prefix key_hash created_by_user_id = do
  i ← uuid4 env
  c ← now env
  t ← now env
  let api_key : ApiKey = record {
    id = i;
    organisation_id = organisation_id;
    name = name;
    key_prefix = key_prefix;
    key_hash = key_hash;
    created_by_user_id = created_by_user_id;
    revoked_at = none;
    last_used_at = none;
    created_at = c;
    updated_at = t;
  }
  flush env (λ db. api_key_fits db api_key) (add_api_key api_key)
  pure api_key

unfoldable pub find_api_key : ℕ → ℕ → Db → Option ApiKey
find_api_key organisation_id api_key_id db =
    scalar (λ k. (k.organisation_id == organisation_id) && (k.id == api_key_id)) db.api_keys

abbrev pub get_by_id : ℕ → ℕ → Action (Option ApiKey)
get_by_id organisation_id api_key_id = query (find_api_key organisation_id api_key_id)

unfoldable pub find_active : Text → Db → Option ApiKey
find_active key_hash db =
    scalar (λ k. text_eq k.key_hash key_hash && is_none k.revoked_at) db.api_keys

abbrev pub get_active_by_hash : Text → Action (Option ApiKey)
get_active_by_hash key_hash = query (find_active key_hash)

abbrev is_listed : ℕ → Bool → ApiKey → Bool
is_listed organisation_id true k = k.organisation_id == organisation_id
is_listed organisation_id false k = (k.organisation_id == organisation_id) && is_none k.revoked_at

-- `ORDER BY created_at DESC, id DESC`
abbrev pub newest_first : ApiKey → ApiKey → Bool
newest_first j k =
    if ltb k.created_at j.created_at then true else (j.created_at == k.created_at) && leb k.id j.id

unfoldable pub list_for_organisation : ℕ → ℕ → ℕ → Bool → Action (List ApiKey)
list_for_organisation organisation_id limit offset include_revoked = query λ db.
    page limit offset
      (order_by newest_first (select (is_listed organisation_id include_revoked) db.api_keys))

unfoldable pub count_for_organisation : ℕ → Bool → Action ℕ
count_for_organisation organisation_id include_revoked =
    query λ db. count (is_listed organisation_id include_revoked) db.api_keys

abbrev or_now : Env → Option ℕ → Action ℕ
or_now env none = now env
or_now env (some t) = pure t

unfoldable pub revoke : Env → ApiKey → Option ℕ → Action ApiKey
revoke env api_key revoked_at = do
  r ← or_now env revoked_at
  t ← now env
  let revoked = record api_key { revoked_at = some r; updated_at = t }
  flush env (λ db. true) (put_api_key revoked)
  pure revoked

unfoldable pub update_last_used : Env → ApiKey → Option ℕ → Action ApiKey
update_last_used env api_key last_used_at = do
  u ← or_now env last_used_at
  t ← now env
  let used = record api_key { last_used_at = some u; updated_at = t }
  flush env (λ db. true) (put_api_key used)
  pure used
