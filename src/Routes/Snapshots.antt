-- ===== src/Routes/Snapshots.antt =====
-- What the creations store of their responses.
use multi_tenant_saas_api.Base.{◌≡◌, refl, arith, none, some, codes}
use multi_tenant_saas_api.Json.{Json}
use multi_tenant_saas_api.Exec.{Env}
use multi_tenant_saas_api.Idempotency.{find_secret_snapshot_field, api_key_idempotency_replay_body}
use multi_tenant_saas_api.Schemas.Responses.{
  ProjectResponse, OrganisationResponse, ApiKeyCreateResponse, project_response_body,
  organisation_response_body, api_key_create_response_body,
}
use multi_tenant_saas_api.Routes.Replays.ApiKeys.{stored_body}

module _ (env : Env) where
  pub project_snapshot_safe :
      (r : ProjectResponse)
      → find_secret_snapshot_field (Json.obj (project_response_body env r)) ≡ none
  unfolding find_secret_snapshot_field
  project_snapshot_safe r = ground arith

  pub organisation_snapshot_safe :
      (r : OrganisationResponse)
      → find_secret_snapshot_field (Json.obj (organisation_response_body env r)) ≡ none
  unfolding find_secret_snapshot_field
  organisation_snapshot_safe r = refl

  pub api_key_snapshot_safe :
      (r : ApiKeyCreateResponse) → find_secret_snapshot_field (Json.obj (stored_body env r)) ≡ none
  unfolding find_secret_snapshot_field api_key_idempotency_replay_body
  api_key_snapshot_safe r = ground arith

-- No snapshot that the three creations store has a secret field at any depth, so that storing it is
-- never refused; the response that shows a new raw key would be.
pub snapshots_hold_no_secret :
    (env : Env) (project : ProjectResponse) (organisation : OrganisationResponse)
    (created : ApiKeyCreateResponse)
    → (find_secret_snapshot_field (Json.obj (project_response_body env project)) ≡ none)
      × (find_secret_snapshot_field (Json.obj (organisation_response_body env organisation)) ≡ none)
      × (find_secret_snapshot_field (Json.obj (stored_body env created)) ≡ none)
      × (find_secret_snapshot_field (Json.obj (api_key_create_response_body env created))
          ≡ some (codes "raw_key"))
unfolding find_secret_snapshot_field
snapshots_hold_no_secret env project organisation created = (
  project_snapshot_safe env project,
  organisation_snapshot_safe env organisation,
  api_key_snapshot_safe env created,
  ground arith,
)
