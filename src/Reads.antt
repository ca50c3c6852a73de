-- ===== src/Reads.antt =====
-- The operations of the services that list or get only read.
use multi_tenant_saas_api.Base.{ℕ, Bool, Option, Text, List, [], ◌∷◌}
use multi_tenant_saas_api.Domain.{ProjectStatus, ProjectSortField, SortDirection}
use multi_tenant_saas_api.Database.{OrganisationMembership}
use multi_tenant_saas_api.Exec.{Env}
use multi_tenant_saas_api.Exec.Rules.{
  ReadOnly, ReadOnly-bind, ReadOnly-query, ReadOnly-or_raise, ReadOnly-pure, read_rules,
}
use multi_tenant_saas_api.Repositories.Organisations
use multi_tenant_saas_api.Repositories.Memberships
use multi_tenant_saas_api.Repositories.Projects
use multi_tenant_saas_api.Repositories.ApiKeys
use multi_tenant_saas_api.Repositories.AuditEvents
use multi_tenant_saas_api.Rbac.{CurrentPrincipal}
use multi_tenant_saas_api.Rbac.Reads.{get_tenant_context-ReadOnly}
use multi_tenant_saas_api.Audit.{list_organisation_events}
use multi_tenant_saas_api.MembershipService.{public_memberships, list_members}
use multi_tenant_saas_api.OrganisationService.{list_organisations, get_organisation}
use multi_tenant_saas_api.ProjectService.{list_projects, get_project}
use multi_tenant_saas_api.ProjectService.Atomicity.{
  require_project_permission-ReadOnly, get_authorised_project-ReadOnly,
}
use multi_tenant_saas_api.ApiKeyService.{ProjectPrincipal, list_api_keys}

public_memberships-ReadOnly : (ms : List OrganisationMembership) → ReadOnly (public_memberships ms)
unfolding public_memberships
public_memberships-ReadOnly [] = search read_rules
public_memberships-ReadOnly (m ∷ ms) = ReadOnly-bind _ _ (ReadOnly-query _) λ found.
    ReadOnly-bind _ _ (ReadOnly-or_raise _ _)
      λ user. ReadOnly-bind _ _ (public_memberships-ReadOnly ms) λ rest. ReadOnly-pure _

ruleset list_rules = (
  read_rules, get_tenant_context-ReadOnly, require_project_permission-ReadOnly,
  get_authorised_project-ReadOnly, public_memberships-ReadOnly,
)

pub list_members-ReadOnly : (p : CurrentPrincipal) (o l k : ℕ) → ReadOnly (list_members p o l k)
unfolding list_members Memberships.list_for_organisation Memberships.count_for_organisation
list_members-ReadOnly p o l k = search list_rules depth 12

pub list_organisations-ReadOnly :
    (env : Env) (p : CurrentPrincipal) (l k : ℕ) → ReadOnly (list_organisations env p l k)
unfolding list_organisations Organisations.list_for_user Organisations.count_for_user
list_organisations-ReadOnly env p l k = search list_rules depth 12

pub get_organisation-ReadOnly : (p : CurrentPrincipal) (o : ℕ) → ReadOnly (get_organisation p o)
unfolding get_organisation
get_organisation-ReadOnly p o = search list_rules depth 12

pub list_projects-ReadOnly :
    (env : Env) (p : ProjectPrincipal) (o l k : ℕ) (st : Option ProjectStatus) (n : Option Text)
    (f : ProjectSortField) (d : SortDirection)
    → ReadOnly (list_projects env p o l k st n f d)
unfolding list_projects Projects.list_for_organisation Projects.count_for_organisation
list_projects-ReadOnly env p o l k st n f d = search list_rules depth 12

pub get_project-ReadOnly : (p : ProjectPrincipal) (o i : ℕ) → ReadOnly (get_project p o i)
unfolding get_project
get_project-ReadOnly p o i = search list_rules depth 12

pub list_api_keys-ReadOnly : (p : CurrentPrincipal) (o l k : ℕ) → ReadOnly (list_api_keys p o l k)
unfolding list_api_keys ApiKeys.list_for_organisation ApiKeys.count_for_organisation
list_api_keys-ReadOnly p o l k = search list_rules depth 12

pub list_organisation_events-ReadOnly :
    (b : Bool) (p : CurrentPrincipal) (o l k : ℕ) → ReadOnly (list_organisation_events b p o l k)
unfolding list_organisation_events AuditEvents.list_for_organisation
    AuditEvents.count_for_organisation
list_organisation_events-ReadOnly b p o l k = search list_rules depth 12
