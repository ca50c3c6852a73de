-- ===== src/Examples/Replay.antt =====
-- The theorems on idempotent requests, at a stored response.
use multi_tenant_saas_api.Base.{◌≡◌, refl, some, codes, text_eq}
use multi_tenant_saas_api.Json.{Json, Fields, field, end}
use multi_tenant_saas_api.Database.{
  User, Organisation, OrganisationMembership, Project, ApiKey, AuditEvent, Db,
}
use multi_tenant_saas_api.Exec.{
  Env, Decoded, Error, Result, ok, err, State, invalid_credentials, idempotency_conflict,
  last_owner_protection,
}
use multi_tenant_saas_api.Repositories.IdempotencyRecords
use multi_tenant_saas_api.Idempotency.{
  IdempotencyContext, IdempotencyReplay, context_of, request_hash, start_request, store_response,
}
use multi_tenant_saas_api.Idempotency.Replay.{start_request-replays, start_request-conflicts}
use multi_tenant_saas_api.Examples.{env, start, by_key}

abbrev body : Fields
body = field (codes "name") (Json.str (codes "site")) end

abbrev other_body : Fields
other_body = field (codes "name") (Json.str (codes "shop")) end

abbrev response : Fields
response = field (codes "id") (Json.num 7) end

abbrev scope : IdempotencyContext
scope = context_of env (codes "k1") by_key (codes "post") (codes "/projects") body (some 10)

abbrev after_store : State
after_store = (store_response env (some scope) 201 response start).1

abbrev next : State
next = record after_store { session = after_store.committed }

stores : (store_response env (some scope) 201 response start).0 ≡ ok tt
unfolding store_response multi_tenant_saas_api.Exec.◌>>=◌ multi_tenant_saas_api.Exec.transaction
    multi_tenant_saas_api.Idempotency.insert_record IdempotencyRecords.create
    multi_tenant_saas_api.Exec.uuid4 multi_tenant_saas_api.Exec.now multi_tenant_saas_api.Exec.flush
    multi_tenant_saas_api.Database.idempotency_record_fits multi_tenant_saas_api.Exec.commit
stores = refl

start_request-replays_example :
    (start_request env
      (some (codes "k1"))
      by_key
      (codes "post")
      (codes "/projects")
      body
      (some 10)
      next).0
    ≡ ok (record {
      context = some scope;
      replay = some (record { response_status_code = 201; response_body = response });
    })
start_request-replays_example =
    start_request-replays env (codes "k1") by_key (codes "post") (codes "/projects") body (some 10)
      201 response start next stores refl

start_request-conflicts_example :
    (start_request env
      (some (codes "k1"))
      by_key
      (codes "post")
      (codes "/projects")
      other_body
      (some 10)
      next).0
    ≡ err idempotency_conflict
unfolding request_hash text_eq
start_request-conflicts_example =
    start_request-conflicts env (codes "k1") by_key (codes "post") (codes "/projects") body
      (some 10) 201 response start next stores refl other_body refl
