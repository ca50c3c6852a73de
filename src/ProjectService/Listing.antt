-- ===== src/ProjectService/Listing.antt =====
-- What a listing of projects shows.
use multi_tenant_saas_api.Base.{
  ℕ, ◌≤◌, ◌≡◌, refl, true, false, Option, Text, length, select, All, page, order_by, arith,
}
use multi_tenant_saas_api.Base.Counting.{count-eq-length-select}
use multi_tenant_saas_api.Base.Paging.{
  All-page, All-order_by, All-select, All-map, length-page, length-page-le, length-order_by,
  length-map,
}
use multi_tenant_saas_api.Domain.{Permission, ProjectStatus, ProjectSortField, SortDirection}
use multi_tenant_saas_api.Database.{Db, Project}
use multi_tenant_saas_api.Exec.{Env, State}
use multi_tenant_saas_api.Exec.Rules.{IsClean, Atomic-of-ReadOnly}
use multi_tenant_saas_api.Exec.Returns.{
  Returns, Returns-check, Returns-query, Returns-pure, Outcome, outcome,
}
use multi_tenant_saas_api.Repositories.Projects
use multi_tenant_saas_api.Repositories.Projects.{is_listed, sort_expression}
use multi_tenant_saas_api.ApiKeyService.{ProjectPrincipal}
use multi_tenant_saas_api.ProjectService.{
  PublicProject, ProjectList, public_project_from_model, list_projects,
}
use multi_tenant_saas_api.ProjectService.Atomicity.{require_project_permission-ReadOnly}
use multi_tenant_saas_api.ProjectService.Effects.{MayUse, require_project_permission-Returns}
use multi_tenant_saas_api.Reads.{list_projects-ReadOnly}

-- A page of one organisation's projects, and the number of all that match.
pub record Listed (env : Env) (p : ProjectPrincipal) (o l k : ℕ) (st : Option ProjectStatus)
    (n : Option Text) (db : Db) (v : ProjectList) : Type 0 where
  pub may : MayUse p o Permission.read_projects db
  pub bounded : length v.items ≤ l
  pub within : length v.items ≤ v.total
  pub echoed : (v.limit ≡ l) × (v.offset ≡ k)
  pub own : All (λ (q : PublicProject). q.organisation_id ≡ o) v.items
  pub counted : v.total ≡ length (select (is_listed env o st n false) db.projects)

listed_is_own :
    (env : Env) (o : ℕ) (st : Option ProjectStatus) (n : Option Text) (q : Project)
    → is_listed env o st n false q ≡ true
    → q.organisation_id ≡ o
unfolding is_listed
listed_is_own env o st n q h = ground arith

pub list_projects-Returns_lem :
    (env : Env) (p : ProjectPrincipal) (o l k : ℕ) (st : Option ProjectStatus) (n : Option Text)
    (f : ProjectSortField) (d : SortDirection) (s : State)
    → Returns (list_projects env p o l k st n f d) s (λ v _. Listed env p o l k st n s.session v)
unfolding list_projects Projects.list_for_organisation Projects.count_for_organisation
list_projects-Returns_lem env p o l k st n f d s =
    let rows = select (is_listed env o st n false) s.session.projects in
    let sorted = order_by (sort_expression env f d) rows in
    Returns-check _ _ (require_project_permission-ReadOnly p o _)
      (require_project_permission-Returns p o _ s)
      λ x may. Returns-query _ _ (
        Returns-query _ _ (
          Returns-pure _ (record {
            may = may;
            bounded = omega (
              arith,
              length-map public_project_from_model (page l k sorted),
              length-page l k sorted,
            );
            within = omega (
              arith,
              length-map public_project_from_model (page l k sorted),
              length-page-le l k sorted,
              length-order_by (sort_expression env f d) rows,
              count-eq-length-select (is_listed env o st n false) s.session.projects,
            );
            echoed = (refl, refl);
            own =
                All-map (λ q. is_listed env o st n false q ≡ true) _ public_project_from_model
                  (page l k sorted) (listed_is_own env o st n)
                  (All-page _ l k sorted (
                    All-order_by _ (sort_expression env f d) rows
                      (All-select (is_listed env o st n false) s.session.projects)));
            counted = count-eq-length-select (is_listed env o st n false) s.session.projects;
          })))

-- From a session with nothing pending, a listing either was allowed to the user or the key, and
-- gives no more projects than the limit, all of the organisation, with the number of all its
-- projects that match; or it raises; nothing is pending or committed if it raises.
pub list_projects-Outcome :
    (env : Env) (p : ProjectPrincipal) (o l k : ℕ) (st : Option ProjectStatus) (n : Option Text)
    (f : ProjectSortField) (d : SortDirection) (s : State)
    → IsClean s
    → Outcome
        (λ v _. Listed env p o l k st n s.session v)
        s.committed
        (list_projects env p o l k st n f d s)
list_projects-Outcome env p o l k st n f d s c =
    outcome _ s (Atomic-of-ReadOnly _ (list_projects-ReadOnly env p o l k st n f d))
      (list_projects-Returns_lem env p o l k st n f d s) c
