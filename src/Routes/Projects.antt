-- ===== src/Routes/Projects.antt =====
-- routes/projects.py.
use multi_tenant_saas_api.Base.{ℕ, Option, none, some, map, Text, codes}
use multi_tenant_saas_api.Domain.{ProjectStatus, ProjectSortField, SortDirection}
use multi_tenant_saas_api.Exec.{Env, Action, Error, pure, ◌>>=◌, ◌>>◌, project_not_found}
use multi_tenant_saas_api.ApiKeyService.{ProjectPrincipal}
use multi_tenant_saas_api.ProjectService
use multi_tenant_saas_api.ProjectService.{PublicProject, ProjectList, ensure_can_create_project}
use multi_tenant_saas_api.Idempotency.{
  IdempotencyDecision, IdempotencyReplay, IdempotencyContext, start_request, store_response,
}
use multi_tenant_saas_api.Schemas.Fields.{Page, page_response}
use multi_tenant_saas_api.Schemas.Bodies.{
  ProjectCreateRequest, ProjectUpdateRequest, project_create_body, in_fields,
}
use multi_tenant_saas_api.Schemas.Responses.{ProjectResponse, project_response_body}
use multi_tenant_saas_api.Routes.{
  not_found, tenant_error, lookup_error, translated, Reply, created, replayed,
}

-- `ProjectResponse` has no bounds.
abbrev pub project_response : PublicProject → ProjectResponse
project_response p = record {
  id = p.id;
  organisation_id = p.organisation_id;
  name = p.name;
  status = p.status;
  description = p.description;
  created_by_user_id = p.created_by_user_id;
  updated_by_user_id = p.updated_by_user_id;
  created_at = p.created_at;
  updated_at = p.updated_at;
}

abbrev pub project_list_response : ProjectList → Action (Page ProjectResponse)
project_list_response projects =
    page_response (map project_response projects.items) projects.limit projects.offset
      projects.total

abbrev pub project_error : Error → Error
project_error project_not_found = not_found (codes "project was not found")
project_error e = tenant_error e

-- The check comes first where the request has a key.
abbrev pub check_create : Option Text → ProjectPrincipal → ℕ → Action (Unit {0})
check_create none principal organisation_id = pure tt
check_create (some key) principal organisation_id =
    ensure_can_create_project principal organisation_id

module _ (env : Env) where
  unfoldable pub begin_create :
      Option Text
      → ProjectPrincipal
      → ℕ
      → ProjectCreateRequest
      → Text
      → Text
      → Action IdempotencyDecision
  begin_create key principal organisation_id payload method path = translated lookup_error (do
    check_create key principal organisation_id
    start_request env key principal method path (project_create_body payload)
        (some organisation_id))

  unfoldable pub create_and_store :
      ProjectPrincipal
      → ℕ
      → ProjectCreateRequest
      → Option IdempotencyContext
      → Action (Reply ProjectResponse)
  create_and_store principal organisation_id payload context = do
    project ← translated tenant_error (
        ProjectService.create_project env principal organisation_id payload.name payload.description
          payload.status)
    store_response env context 201 (project_response_body env (project_response project))
    pure (created (project_response project))

  abbrev pub reply_or_create :
      ProjectPrincipal
      → ℕ
      → ProjectCreateRequest
      → IdempotencyDecision
      → Option IdempotencyReplay
      → Action (Reply ProjectResponse)
  reply_or_create principal organisation_id payload decision none =
      create_and_store principal organisation_id payload decision.context
  reply_or_create principal organisation_id payload decision (some replay) =
      pure (replayed replay.response_status_code replay.response_body)

  unfoldable pub create_project :
      Option Text
      → ProjectPrincipal
      → ℕ
      → ProjectCreateRequest
      → Text
      → Text
      → Action (Reply ProjectResponse)
  create_project key principal organisation_id payload method path = do
    idempotency ← begin_create key principal organisation_id payload method path
    reply_or_create principal organisation_id payload idempotency idempotency.replay

  unfoldable pub list_projects :
      ProjectPrincipal
      → ℕ
      → ℕ
      → ℕ
      → Option ProjectStatus
      → Option Text
      → ProjectSortField
      → SortDirection
      → Action (Page ProjectResponse)
  list_projects principal organisation_id limit offset project_status name sort_by sort_direction =
      do
        projects ← translated tenant_error (
            ProjectService.list_projects env principal organisation_id limit offset project_status
              name sort_by sort_direction)
        project_list_response projects

  unfoldable pub update_project :
      ProjectPrincipal → ℕ → ℕ → ProjectUpdateRequest → Action ProjectResponse
  update_project principal organisation_id project_id payload = do
    project ← translated project_error (
        ProjectService.update_project env principal organisation_id project_id payload.name
          payload.description (in_fields payload.model_fields_set (codes "description"))
          payload.status)
    pure (project_response project)

  -- Status 204.
  unfoldable pub delete_project : ProjectPrincipal → ℕ → ℕ → Action (Unit {0})
  delete_project principal organisation_id project_id =
      translated project_error
        (ProjectService.delete_project env principal organisation_id project_id)

unfoldable pub get_project : ProjectPrincipal → ℕ → ℕ → Action ProjectResponse
get_project principal organisation_id project_id = do
  project ←
      translated project_error (ProjectService.get_project principal organisation_id project_id)
  pure (project_response project)
