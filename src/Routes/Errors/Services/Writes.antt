-- ===== src/Routes/Errors/Services/Writes.antt =====
-- What the operations that write may raise.
use multi_tenant_saas_api.Base.{ℕ, Bool, Option, Text}
use multi_tenant_saas_api.Domain.{OrganisationRole, ProjectStatus, ProjectSortField, SortDirection}
use multi_tenant_saas_api.Exec.{Env}
use multi_tenant_saas_api.Exec.Raises.{Raises, raise_rules}
use multi_tenant_saas_api.Repositories.Organisations
use multi_tenant_saas_api.Repositories.Projects
use multi_tenant_saas_api.Rbac.{CurrentPrincipal}
use multi_tenant_saas_api.ApiKeyService.{
  ProjectPrincipal, create_api_key, revoke_api_key, generate_raw_key,
}
use multi_tenant_saas_api.ProjectService.{
  create_project, list_projects, update_project, delete_project,
}
use multi_tenant_saas_api.OrganisationService.{
  create_organisation, list_organisations, update_organisation,
}
use multi_tenant_saas_api.MembershipService.{add_member, update_member_role, remove_member}
use multi_tenant_saas_api.Routes.Errors.{
  is_internal, of_tenant, of_project, of_key, of_slug, of_organisation, of_new_member, of_removal,
  of_role,
}
use multi_tenant_saas_api.Routes.Errors.Bodies.{
  insert_project-Raises, write_project-Raises, soft_delete-Raises, insert_organisation-Raises,
  write_organisation-Raises, insert_member-Raises, change_role-Raises, take_out-Raises,
  insert_api_key-Raises, revoke_once-Raises,
}
use multi_tenant_saas_api.Routes.Errors.Services.{
  get_tenant_context-Raises, new_organisation-Raises, changed_organisation-Raises,
  new_member-Raises, service_rules, get_authorised_project-Raises, protect_if-Raises,
  check_slug-Raises, revoked_at-Raises,
}

module _ (env : Env) where
  pub create_project-Raises :
      (p : ProjectPrincipal) (o : ℕ) (n : Text) (d : Option Text) (s : ProjectStatus)
      → Raises of_tenant (create_project env p o n d s)
  unfolding create_project
  create_project-Raises p o n d s = search (service_rules, insert_project-Raises) depth 12

  pub list_projects-Raises :
      (p : ProjectPrincipal) (o l k : ℕ) (st : Option ProjectStatus) (n : Option Text)
      (f : ProjectSortField) (d : SortDirection)
      → Raises of_tenant (list_projects env p o l k st n f d)
  unfolding list_projects Projects.list_for_organisation Projects.count_for_organisation
  list_projects-Raises p o l k st n f d = search service_rules depth 12

  pub update_project-Raises :
      (p : ProjectPrincipal) (o i : ℕ) (n d : Option Text) (b : Bool) (s : Option ProjectStatus)
      → Raises of_project (update_project env p o i n d b s)
  unfolding update_project
  update_project-Raises p o i n d b s =
      search (service_rules, get_authorised_project-Raises, write_project-Raises) depth 12

  pub delete_project-Raises :
      (p : ProjectPrincipal) (o i : ℕ) → Raises of_project (delete_project env p o i)
  unfolding delete_project
  delete_project-Raises p o i =
      search (service_rules, get_authorised_project-Raises, soft_delete-Raises) depth 12

  pub create_organisation-Raises :
      (p : CurrentPrincipal) (n : Text) (s : Option Text)
      → Raises of_slug (create_organisation env p n s)
  unfolding create_organisation
  create_organisation-Raises p n s =
      search (raise_rules, new_organisation-Raises, insert_organisation-Raises) depth 12

  pub list_organisations-Raises :
      (p : CurrentPrincipal) (l k : ℕ) → Raises is_internal (list_organisations env p l k)
  unfolding list_organisations Organisations.list_for_user Organisations.count_for_user
  list_organisations-Raises p l k = search raise_rules depth 12

  pub update_organisation-Raises :
      (p : CurrentPrincipal) (o : ℕ) (n s : Option Text)
      → Raises of_organisation (update_organisation env p o n s)
  unfolding update_organisation
  update_organisation-Raises p o n s =
      search
        (
          raise_rules, get_tenant_context-Raises, check_slug-Raises, changed_organisation-Raises,
          write_organisation-Raises,
        )
        depth 14

  pub add_member-Raises :
      (p : CurrentPrincipal) (o u : ℕ) (r : OrganisationRole)
      → Raises of_new_member (add_member env p o u r)
  unfolding add_member
  add_member-Raises p o u r =
      search (raise_rules, get_tenant_context-Raises, new_member-Raises, insert_member-Raises) depth
        16

  pub update_member_role-Raises :
      (p : CurrentPrincipal) (o u : ℕ) (r : OrganisationRole)
      → Raises of_role (update_member_role env p o u r)
  unfolding update_member_role
  update_member_role-Raises p o u r =
      search (service_rules, protect_if-Raises, change_role-Raises) depth 18

  pub remove_member-Raises :
      (p : CurrentPrincipal) (o u : ℕ) → Raises of_removal (remove_member env p o u)
  unfolding remove_member
  remove_member-Raises p o u = search (service_rules, protect_if-Raises, take_out-Raises) depth 16

  pub create_api_key-Raises :
      (p : CurrentPrincipal) (o : ℕ) (n : Text) → Raises of_tenant (create_api_key env p o n)
  unfolding create_api_key generate_raw_key
  create_api_key-Raises p o n = search (service_rules, insert_api_key-Raises) depth 14

  pub revoke_api_key-Raises :
      (p : CurrentPrincipal) (o i : ℕ) → Raises of_key (revoke_api_key env p o i)
  unfolding revoke_api_key
  revoke_api_key-Raises p o i =
      search (service_rules, revoke_once-Raises, revoked_at-Raises) depth 14
