-- ===== src/Routes/Pages.antt =====
-- A listing that the service gives is answered.
use multi_tenant_saas_api.Base.{ℕ, ◌≤◌, ◌≡◌, Option, Text, map, length, arith}
use multi_tenant_saas_api.Base.Paging.{length-map}
use multi_tenant_saas_api.Domain.{ProjectStatus, ProjectSortField, SortDirection}
use multi_tenant_saas_api.Exec.{Env, State, ok, ◌>>=◌, catch}
use multi_tenant_saas_api.ApiKeyService.{ProjectPrincipal}
use multi_tenant_saas_api.ProjectService
use multi_tenant_saas_api.ProjectService.{ProjectList}
use multi_tenant_saas_api.ProjectService.Listing.{list_projects-Returns_lem}
use multi_tenant_saas_api.Schemas.Fields.{pagination_meta_valid}
use multi_tenant_saas_api.Routes.Projects.{project_response, list_projects}

-- For a limit from 1 to 100, which is what the route takes, a page of projects that the service
-- returns passes the validation of the response: its count is at most the limit and at most the
-- total. The response has the page's items, the limit and the offset that were asked for, and the
-- service's total.
pub list_projects-answers :
    (env : Env) (p : ProjectPrincipal) (o l k : ℕ) (st : Option ProjectStatus) (n : Option Text)
    (f : ProjectSortField) (d : SortDirection) (s : State) (v : ProjectList)
    → 1 ≤ l
    → l ≤ 100
    → (ProjectService.list_projects env p o l k st n f d s).0 ≡ ok v
    → (list_projects env p o l k st n f d s).0
      ≡ ok (record {
        items = map project_response v.items;
        pagination = record { limit = l; offset = k; total = v.total; count = length v.items };
      })
unfolding list_projects catch ◌>>=◌ pagination_meta_valid
list_projects-answers env p o l k st n f d s v low high given =
    let listed =
      (list_projects-Returns_lem env p o l k st n f d s).at v
        (ProjectService.list_projects env p o l k st n f d s).1
        (λ i. (given i, (ProjectService.list_projects env p o l k st n f d s).1)) in
    ground
      (arith, listed.bounded, listed.within, listed.echoed, length-map project_response v.items)
