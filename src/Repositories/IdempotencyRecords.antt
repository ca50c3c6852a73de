-- ===== src/Repositories/IdempotencyRecords.antt =====
-- repositories/idempotency.py
use multi_tenant_saas_api.Base.{
  ℕ, Bool, false, ◌&&◌, Option, none, some, [], ◌∷◌, ◌++◌, Text, text_eq, scalar, ◌==◌, is_none,
}
use multi_tenant_saas_api.Json.{Fields}
use multi_tenant_saas_api.Database.{Db, IdempotencyRecord, idempotency_record_fits}
use multi_tenant_saas_api.Exec.{Env, Action, pure, query, ◌>>=◌, ◌>>◌, uuid4, now, flush}

unfoldable pub add_idempotency_record : IdempotencyRecord → Db → Db
add_idempotency_record r db = record db { idempotency_records = db.idempotency_records ++ r ∷ [] }

unfoldable pub create :
    Env
    → Text
    → ℕ
    → Text
    → Text
    → Text
    → Text
    → ℕ
    → Fields
    → Option ℕ
    → Option ℕ
    → Action IdempotencyRecord
create env principal_type principal_id key method path request_hash response_status_code
      response_body organisation_id expires_at =
    do
      i ← uuid4 env
      c ← now env
      let r : IdempotencyRecord = record {
        id = i;
        principal_type = principal_type;
        principal_id = principal_id;
        organisation_id = organisation_id;
        key = key;
        method = method;
        path = path;
        request_hash = request_hash;
        response_status_code = response_status_code;
        response_body = response_body;
        created_at = c;
        expires_at = expires_at;
      }
      flush env (λ db. idempotency_record_fits db r) (add_idempotency_record r)
      pure r

-- `organisation_id IS NULL`, or the organisation.
abbrev pub has_organisation : Option ℕ → Option ℕ → Bool
has_organisation none o = is_none o
has_organisation (some i) none = false
has_organisation (some i) (some j) = j == i

unfoldable pub find_record :
    Text → ℕ → Text → Text → Text → Option ℕ → Db → Option IdempotencyRecord
find_record principal_type principal_id key method path organisation_id db =
    scalar
      (λ r.
        text_eq r.principal_type principal_type
        && (r.principal_id == principal_id)
        && text_eq r.key key
        && text_eq r.method method
        && text_eq r.path path
        && has_organisation organisation_id r.organisation_id)
      db.idempotency_records

abbrev pub get : Text → ℕ → Text → Text → Text → Option ℕ → Action (Option IdempotencyRecord)
get principal_type principal_id key method path organisation_id =
    query (find_record principal_type principal_id key method path organisation_id)
