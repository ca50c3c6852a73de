-- ===== src/Examples/Bodies.antt =====
-- The theorems on request bodies, snapshots and pages, at concrete inputs.
use multi_tenant_saas_api.Base.{◌≡◌, refl, false, none, some, [], ◌∷◌, codes, arith, text_eq}
use multi_tenant_saas_api.Domain.{ProjectSortField, SortDirection}
use multi_tenant_saas_api.Json.{Json, Fields, field, end}
use multi_tenant_saas_api.Json.Dumps.Order.{Reordered}
use multi_tenant_saas_api.Exec.{ok}
use multi_tenant_saas_api.ProjectService
use multi_tenant_saas_api.ProjectService.{ProjectList, public_project_from_model}
use multi_tenant_saas_api.Idempotency.{find_secret_snapshot_field, start_request}
use multi_tenant_saas_api.Idempotency.Canonical.{start_request-Reordered}
use multi_tenant_saas_api.Schemas.Responses.{
  ProjectResponse, OrganisationResponse, ApiKeyCreateResponse, project_response_body,
  organisation_response_body, api_key_create_response_body,
}
use multi_tenant_saas_api.Routes.Projects.{project_response, list_projects}
use multi_tenant_saas_api.Routes.Pages.{list_projects-answers}
use multi_tenant_saas_api.Routes.Replays.ApiKeys.{stored_body}
use multi_tenant_saas_api.Routes.Snapshots.{snapshots_hold_no_secret}
use multi_tenant_saas_api.Examples.{env, a_project, start, by_key}

abbrev launch : ProjectResponse
launch = project_response (public_project_from_model a_project)

abbrev acme : OrganisationResponse
acme = record { id = 10; name = codes "acme"; slug = codes "acme"; created_at = 0; updated_at = 0 }

abbrev new_key : ApiKeyCreateResponse
new_key = record {
  api_key = record {
    id = 31;
    organisation_id = 10;
    name = codes "deploy";
    key_prefix = codes "saas_demo_token";
    created_by_user_id = some 1;
    revoked_at = none;
    last_used_at = none;
    created_at = 0;
    updated_at = 0;
  };
  raw_key = codes "saas_demo_token";
}

snapshots_hold_no_secret_example :
    (find_secret_snapshot_field (Json.obj (project_response_body env launch)) ≡ none)
    × (find_secret_snapshot_field (Json.obj (organisation_response_body env acme)) ≡ none)
    × (find_secret_snapshot_field (Json.obj (stored_body env new_key)) ≡ none)
    × (find_secret_snapshot_field (Json.obj (api_key_create_response_body env new_key))
        ≡ some (codes "raw_key"))
snapshots_hold_no_secret_example = snapshots_hold_no_secret env launch acme new_key

abbrev listed : ProjectList
listed = record {
  items = public_project_from_model a_project ∷ [];
  limit = 5;
  offset = 0;
  total = 1;
}

lists :
    (ProjectService.list_projects env by_key 10 5 0 none none ProjectSortField.name
      SortDirection.asc start).0
    ≡ ok listed
unfolding ProjectService.list_projects multi_tenant_saas_api.Exec.◌>>=◌
    ProjectService.require_project_permission
    multi_tenant_saas_api.Repositories.Projects.list_for_organisation
    multi_tenant_saas_api.Repositories.Projects.count_for_organisation
    multi_tenant_saas_api.Repositories.Projects.is_listed
lists = refl

list_projects-answers_example :
    (list_projects env by_key 10 5 0 none none ProjectSortField.name SortDirection.asc start).0
    ≡ ok (record {
      items = launch ∷ [];
      pagination = record { limit = 5; offset = 0; total = 1; count = 1 };
    })
list_projects-answers_example =
    list_projects-answers env by_key 10 5 0 none none ProjectSortField.name SortDirection.asc start
      listed (omega arith) (omega arith) lists

abbrev name_first : Fields
name_first =
    field (codes "name") (Json.str (codes "site"))
      (field (codes "status") (Json.str (codes "active")) end)

abbrev status_first : Fields
status_first =
    field (codes "status") (Json.str (codes "active"))
      (field (codes "name") (Json.str (codes "site")) end)

names_differ : text_eq (codes "name") (codes "status") ≡ false
unfolding text_eq
names_differ = refl

start_request-Reordered_example :
    start_request env
      (some (codes "k1"))
      by_key
      (codes "POST")
      (codes "/projects")
      name_first
      (some 10)
      start
    ≡ start_request env
        (some (codes "k1"))
        by_key
        (codes "POST")
        (codes "/projects")
        status_first
        (some 10)
        start
start_request-Reordered_example =
    start_request-Reordered env (some (codes "k1")) by_key (codes "POST") (codes "/projects")
      (some 10) start name_first status_first
      (Reordered.swap (codes "name") (codes "status") (Json.str (codes "site"))
        (Json.str (codes "active")) end names_differ)
