-- ===== src/Examples/Http.antt =====
-- The theorems on handlers, tokens and request identifiers, at concrete inputs.
use multi_tenant_saas_api.Base.{◌≡◌, refl, none, some, [], ◌∷◌, ◌++◌, codes, text_eq}
use multi_tenant_saas_api.Domain.{ProjectStatus}
use multi_tenant_saas_api.Exec.{Metric, Result, State, ok}
use multi_tenant_saas_api.Exec.Raises.{Raises}
use multi_tenant_saas_api.Idempotency.{request_hash}
use multi_tenant_saas_api.Rbac.{current_principal_from_model}
use multi_tenant_saas_api.Auth.{get}
use multi_tenant_saas_api.ApiKeyService.{ensure_can_create_api_key}
use multi_tenant_saas_api.ProjectService.{ensure_can_create_project}
use multi_tenant_saas_api.Repositories.Memberships.{find_for_user}
use multi_tenant_saas_api.Schemas.Bodies.{ProjectCreateRequest, ApiKeyCreateRequest}
use multi_tenant_saas_api.Schemas.Responses.{
  ApiKeyCreateResponse, api_key_create_response_body, ProjectResponse, project_response_body,
}
use multi_tenant_saas_api.Routes.{Reply, created, replayed}
use multi_tenant_saas_api.Routes.Projects.{create_project}
use multi_tenant_saas_api.Routes.ApiKeys.{create_api_key}
use multi_tenant_saas_api.Routes.Refusals.{Denied}
use multi_tenant_saas_api.Routes.Denials.{route-Denied}
use multi_tenant_saas_api.Routes.Replays.Projects.{create_project-repeats}
use multi_tenant_saas_api.Routes.Replays.ApiKeys.{stored_body, create_api_key-repeats}
use multi_tenant_saas_api.Routes.Router.{Call, route}
use multi_tenant_saas_api.Examples.{env, carol, db, start, as_alice, by_key}

-- Carol is no member of the organisation, and repeats the creation of a key.
abbrev repeated : Call
repeated =
    Call.post_api_keys (some (codes "k1")) (current_principal_from_model carol) 10
      (record { name = codes "ci" }) (codes "POST") (codes "/organisations/10/api-keys")

route-Denied_example : Denied (route env repeated) start
unfolding find_for_user
route-Denied_example = route-Denied env repeated start refl

abbrev payload : ProjectCreateRequest
payload = record { name = codes "site"; description = none; status = ProjectStatus.active }

abbrev creation : State → Result (Reply ProjectResponse) × State
creation =
    create_project env (some (codes "k1")) by_key 10 payload (codes "POST") (codes "/projects")

abbrev site : ProjectResponse
site = record {
  id = 1000;
  organisation_id = 10;
  name = codes "site";
  status = ProjectStatus.active;
  description = none;
  created_by_user_id = none;
  updated_by_user_id = none;
  created_at = 1;
  updated_at = 2;
}

creates_site : (creation start).0 ≡ ok (created site)
unfolding create_project multi_tenant_saas_api.Exec.◌>>=◌ multi_tenant_saas_api.Exec.catch
    multi_tenant_saas_api.Routes.Projects.begin_create
    multi_tenant_saas_api.ProjectService.require_project_permission
    multi_tenant_saas_api.Idempotency.start_request
    multi_tenant_saas_api.Repositories.IdempotencyRecords.find_record
    multi_tenant_saas_api.Routes.Projects.create_and_store
    multi_tenant_saas_api.ProjectService.create_project multi_tenant_saas_api.Exec.transaction
    multi_tenant_saas_api.ProjectService.insert_project
    multi_tenant_saas_api.Repositories.Projects.create multi_tenant_saas_api.Exec.uuid4
    multi_tenant_saas_api.Exec.now multi_tenant_saas_api.Exec.flush
    multi_tenant_saas_api.Database.project_fits multi_tenant_saas_api.Audit.record_event
    multi_tenant_saas_api.Audit.Metadata.contains_forbidden_metadata_key
    multi_tenant_saas_api.Database.audit_event_fits
    multi_tenant_saas_api.Repositories.AuditEvents.create
    multi_tenant_saas_api.Repositories.AuditEvents.add_audit_event
    multi_tenant_saas_api.Repositories.Projects.add_project multi_tenant_saas_api.Exec.commit
    multi_tenant_saas_api.Idempotency.store_response multi_tenant_saas_api.Idempotency.insert_record
    multi_tenant_saas_api.Repositories.IdempotencyRecords.create
    multi_tenant_saas_api.Database.idempotency_record_fits
    multi_tenant_saas_api.Repositories.IdempotencyRecords.add_idempotency_record
creates_site = refl

abbrev after_creation : State
after_creation = record (creation start).1 { session = (creation start).1.committed }

may_create : (ensure_can_create_project by_key 10 after_creation).0 ≡ ok tt
unfolding multi_tenant_saas_api.ProjectService.require_project_permission
    multi_tenant_saas_api.Exec.◌>>=◌
may_create = refl

create_project-repeats_example :
    create_project env
      (some (codes "k1"))
      by_key
      10
      payload
      (codes "POST")
      (codes "/projects")
      after_creation
    ≡ (
      ok (replayed 201 (project_response_body env site)),
      record after_creation { metrics = after_creation.metrics ++ Metric.idempotency_replay ∷ [] },
    )
unfolding request_hash text_eq
create_project-repeats_example =
    create_project-repeats env (codes "k1") by_key 10 payload (codes "POST") (codes "/projects")
      start after_creation site payload creates_site refl may_create

abbrev key_payload : ApiKeyCreateRequest
key_payload = record { name = codes "deploy" }

abbrev key_creation : State → Result (Reply ApiKeyCreateResponse) × State
key_creation =
    create_api_key env (some (codes "k2")) as_alice 10 key_payload (codes "POST")
      (codes "/api-keys")

abbrev new_key : ApiKeyCreateResponse
new_key = record {
  api_key = record {
    id = 1001;
    organisation_id = 10;
    name = codes "deploy";
    key_prefix = codes "saas_demo_token";
    created_by_user_id = some 1;
    revoked_at = none;
    last_used_at = none;
    created_at = 2;
    updated_at = 3;
  };
  raw_key = codes "saas_demo_token";
}

creates_key : (key_creation start).0 ≡ ok (created new_key)
unfolding create_api_key multi_tenant_saas_api.Exec.◌>>=◌ multi_tenant_saas_api.Exec.catch
    multi_tenant_saas_api.Routes.ApiKeys.begin_create multi_tenant_saas_api.Rbac.get_tenant_context
    find_for_user multi_tenant_saas_api.Domain.permissions_for_role
    multi_tenant_saas_api.ApiKeyService.ensure_can_create_api_key
    multi_tenant_saas_api.ApiKeyService.generate_raw_key multi_tenant_saas_api.Exec.token_urlsafe
    multi_tenant_saas_api.Idempotency.start_request
    multi_tenant_saas_api.Repositories.IdempotencyRecords.find_record
    multi_tenant_saas_api.Routes.ApiKeys.create_and_store
    multi_tenant_saas_api.ApiKeyService.create_api_key multi_tenant_saas_api.Exec.transaction
    multi_tenant_saas_api.ApiKeyService.insert_api_key
    multi_tenant_saas_api.Repositories.ApiKeys.create multi_tenant_saas_api.Exec.uuid4
    multi_tenant_saas_api.Exec.now multi_tenant_saas_api.Exec.flush
    multi_tenant_saas_api.Database.api_key_fits multi_tenant_saas_api.Audit.record_event
    multi_tenant_saas_api.Audit.Metadata.contains_forbidden_metadata_key
    multi_tenant_saas_api.Database.audit_event_fits
    multi_tenant_saas_api.Repositories.AuditEvents.create
    multi_tenant_saas_api.Repositories.AuditEvents.add_audit_event
    multi_tenant_saas_api.Repositories.ApiKeys.add_api_key multi_tenant_saas_api.Exec.commit
    multi_tenant_saas_api.Idempotency.store_response multi_tenant_saas_api.Idempotency.insert_record
    multi_tenant_saas_api.Repositories.IdempotencyRecords.create
    multi_tenant_saas_api.Database.idempotency_record_fits
    multi_tenant_saas_api.Repositories.IdempotencyRecords.add_idempotency_record
    multi_tenant_saas_api.Routes.ApiKeys.created_api_key_response
    multi_tenant_saas_api.Schemas.Responses.api_key_response_valid
    multi_tenant_saas_api.Schemas.Responses.api_key_create_response_valid
    multi_tenant_saas_api.Idempotency.api_key_idempotency_replay_body
creates_key = refl

-- A later session, with the record that the creation left.
abbrev next : State
next = record start {
  session = record db {
    idempotency_records = (key_creation start).1.committed.idempotency_records;
  };
}

may_create_key : (ensure_can_create_api_key as_alice 10 next).0 ≡ ok tt
unfolding ensure_can_create_api_key multi_tenant_saas_api.Exec.◌>>=◌
    multi_tenant_saas_api.Rbac.get_tenant_context find_for_user
    multi_tenant_saas_api.Domain.permissions_for_role
may_create_key = refl

create_api_key-repeats_example :
    (create_api_key env
        (some (codes "k2"))
        as_alice
        10
        key_payload
        (codes "POST")
        (codes "/api-keys")
        next
      ≡ (
        ok (replayed 201 (stored_body env new_key)),
        record next { metrics = next.metrics ++ Metric.idempotency_replay ∷ [] },
      ))
    × (get (codes "raw_key") (stored_body env new_key) ≡ none)
    × (get (codes "api_key") (stored_body env new_key)
        ≡ get (codes "api_key") (api_key_create_response_body env new_key))
unfolding request_hash text_eq
create_api_key-repeats_example =
    create_api_key-repeats env (codes "k2") as_alice 10 key_payload (codes "POST")
      (codes "/api-keys") start next new_key key_payload creates_key refl may_create_key
