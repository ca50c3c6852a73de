-- ===== src/Examples/Repeats.antt =====
-- The theorem on repeated creations of an organisation, at a concrete input.
use multi_tenant_saas_api.Base.{◌≡◌, refl, some, [], ◌∷◌, ◌++◌, codes, Text, text_eq}
use multi_tenant_saas_api.Exec.{Result, State, Metric, ok, err}
use multi_tenant_saas_api.Idempotency.{request_hash}
use multi_tenant_saas_api.Schemas.Bodies.{OrganisationCreateRequest}
use multi_tenant_saas_api.Schemas.Responses.{OrganisationResponse}
use multi_tenant_saas_api.Routes.{Reply, created, replayed, idempotency_conflict_response}
use multi_tenant_saas_api.Routes.Organisations.{create_organisation}
use multi_tenant_saas_api.Routes.Replays.Organisations.{create_organisation-repeats}
use multi_tenant_saas_api.Examples.{env, db, start, as_alice}

abbrev named : Text → OrganisationCreateRequest
named s = record { name = s; slug = some s }

abbrev creation : State → Result (Reply OrganisationResponse) × State
creation =
    create_organisation env (some (codes "k3")) as_alice (named (codes "initech")) (codes "POST")
      (codes "/organisations")

abbrev initech : OrganisationResponse
initech = record {
  id = 1000;
  name = codes "initech";
  slug = codes "initech";
  created_at = 1;
  updated_at = 2;
}

creates_initech : (creation start).0 ≡ ok (created initech)
unfolding create_organisation multi_tenant_saas_api.Exec.◌>>=◌ multi_tenant_saas_api.Exec.catch
    multi_tenant_saas_api.Routes.Organisations.begin_create
    multi_tenant_saas_api.Routes.Organisations.create_and_store
    multi_tenant_saas_api.OrganisationService.create_organisation
    multi_tenant_saas_api.OrganisationService.insert_organisation
    multi_tenant_saas_api.Idempotency.start_request
    multi_tenant_saas_api.Repositories.IdempotencyRecords.find_record
    multi_tenant_saas_api.Exec.transaction multi_tenant_saas_api.Exec.uuid4
    multi_tenant_saas_api.Exec.now multi_tenant_saas_api.Exec.flush
    multi_tenant_saas_api.Repositories.Organisations.create
    multi_tenant_saas_api.Database.organisation_fits
    multi_tenant_saas_api.Repositories.Memberships.create
    multi_tenant_saas_api.Database.membership_fits multi_tenant_saas_api.Audit.record_event
    multi_tenant_saas_api.Audit.Metadata.contains_forbidden_metadata_key
    multi_tenant_saas_api.Database.audit_event_fits
    multi_tenant_saas_api.Repositories.AuditEvents.create
    multi_tenant_saas_api.Repositories.AuditEvents.add_audit_event
    multi_tenant_saas_api.Repositories.Memberships.add_membership
    multi_tenant_saas_api.Repositories.Organisations.add_organisation
    multi_tenant_saas_api.Exec.commit multi_tenant_saas_api.Idempotency.store_response
    multi_tenant_saas_api.Idempotency.insert_record
    multi_tenant_saas_api.Repositories.IdempotencyRecords.create
    multi_tenant_saas_api.Database.idempotency_record_fits
    multi_tenant_saas_api.Repositories.IdempotencyRecords.add_idempotency_record
creates_initech = refl

-- A later session, with the record that the creation left.
abbrev next : State
next = record start {
  session = record db { idempotency_records = (creation start).1.committed.idempotency_records };
}

-- The same key with another body.
create_organisation-repeats_example :
    create_organisation env
      (some (codes "k3"))
      as_alice
      (named (codes "umbrella"))
      (codes "POST")
      (codes "/organisations")
      next
    ≡ (
      err idempotency_conflict_response,
      record next { metrics = next.metrics ++ Metric.idempotency_conflict ∷ [] },
    )
unfolding request_hash text_eq
create_organisation-repeats_example =
    create_organisation-repeats env (codes "k3") as_alice (codes "POST") (codes "/organisations")
      (named (codes "initech")) start next initech (named (codes "umbrella")) creates_initech refl
