-- ===== src/ProjectService.antt =====
-- services/projects.py: projects for users by their role and for API keys by their organisation.
pub mod Atomicity
pub mod Effects
pub mod Listing
pub mod Outcomes
use multi_tenant_saas_api.Base.{
  ℕ, Bool, true, false, not, Option, none, some, List, [], ◌∷◌, map, Text, codes, any, ◌==◌,
  if◌then◌else◌,
}
use multi_tenant_saas_api.Domain.{
  Permission, ProjectStatus, ProjectSortField, SortDirection, AuditAction, contains_permission,
  status_value,
}
use multi_tenant_saas_api.Json.{Json, Items, nil, item, Fields, field, end}
use multi_tenant_saas_api.Database.{Project}
use multi_tenant_saas_api.Exec.{
  Env, Action, pure, raise_if, or_raise, ◌>>=◌, ◌>>◌, commit, transaction, same_error,
  record_metric, tenant_access_denied, project_not_found, Metric,
}
use multi_tenant_saas_api.Repositories.Projects
use multi_tenant_saas_api.Repositories.Projects.{Update, unset, set_to}
use multi_tenant_saas_api.Rbac.{get_tenant_context}
use multi_tenant_saas_api.Audit.{record_event}
use multi_tenant_saas_api.ApiKeyService.{ProjectPrincipal}

pub record PublicProject : Type 0 where
  pub id : ℕ
  pub organisation_id : ℕ
  pub name : Text
  pub status : ProjectStatus
  pub description : Option Text
  pub created_by_user_id : Option ℕ
  pub updated_by_user_id : Option ℕ
  pub created_at : ℕ
  pub updated_at : ℕ

pub record ProjectList : Type 0 where
  pub items : List PublicProject
  pub limit : ℕ
  pub offset : ℕ
  pub total : ℕ

abbrev pub public_project_from_model : Project → PublicProject
public_project_from_model p = record {
  id = p.id;
  organisation_id = p.organisation_id;
  name = p.name;
  status = p.status;
  description = p.description;
  created_by_user_id = p.created_by_user_id;
  updated_by_user_id = p.updated_by_user_id;
  created_at = p.created_at;
  updated_at = p.updated_at;
}

abbrev pub api_key_project_permissions : List Permission
api_key_project_permissions = Permission.read_projects ∷ Permission.write_projects ∷ []

abbrev pub actor_user_id : ProjectPrincipal → Option ℕ
actor_user_id (ProjectPrincipal.user p) = some p.user_id
actor_user_id (ProjectPrincipal.key k) = none

abbrev pub actor_api_key_id : ProjectPrincipal → Option ℕ
actor_api_key_id (ProjectPrincipal.user p) = none
actor_api_key_id (ProjectPrincipal.key k) = some k.api_key_id

unfoldable pub require_project_permission : ProjectPrincipal → ℕ → Permission → Action (Unit {0})
require_project_permission (ProjectPrincipal.key k) organisation_id required_permission = do
  raise_if (not (k.organisation_id == organisation_id)) tenant_access_denied
  raise_if (not (contains_permission required_permission api_key_project_permissions))
      tenant_access_denied
require_project_permission (ProjectPrincipal.user p) organisation_id required_permission = do
  get_tenant_context p organisation_id (some required_permission)
  pure tt

abbrev pub ensure_can_create_project : ProjectPrincipal → ℕ → Action (Unit {0})
ensure_can_create_project principal organisation_id =
    require_project_permission principal organisation_id Permission.write_projects

abbrev name_and_status : Project → Fields
name_and_status p =
    field (codes "project_name") (Json.str p.name)
      (field (codes "status") (Json.str (status_value p.status)) end)

unfoldable pub insert_project :
    Env → ProjectPrincipal → ℕ → Text → Option Text → ProjectStatus → Action Project
insert_project env principal organisation_id name description status = do
  project ← Projects.create env organisation_id name status description (actor_user_id principal)
  record_event env AuditAction.project_created (codes "project") (some organisation_id)
      (actor_user_id principal) (actor_api_key_id principal) (some project.id)
      (name_and_status project)
  commit env
  record_metric Metric.project_created
  pure project

unfoldable pub create_project :
    Env → ProjectPrincipal → ℕ → Text → Option Text → ProjectStatus → Action PublicProject
create_project env principal organisation_id name description status = do
  require_project_permission principal organisation_id Permission.write_projects
  project ←
      transaction same_error (insert_project env principal organisation_id name description status)
  pure (public_project_from_model project)

unfoldable pub list_projects :
    Env
    → ProjectPrincipal
    → ℕ
    → ℕ
    → ℕ
    → Option ProjectStatus
    → Option Text
    → ProjectSortField
    → SortDirection
    → Action ProjectList
list_projects env principal organisation_id limit offset status name_search sort_by sort_direction =
    do
      require_project_permission principal organisation_id Permission.read_projects
      projects ←
          Projects.list_for_organisation env organisation_id limit offset status name_search false
            sort_by sort_direction
      total ← Projects.count_for_organisation env organisation_id status name_search false
      pure (record {
        items = map public_project_from_model projects;
        limit = limit;
        offset = offset;
        total = total;
      })

unfoldable pub get_authorised_project : ProjectPrincipal → ℕ → ℕ → Permission → Action Project
get_authorised_project principal organisation_id project_id required_permission = do
  require_project_permission principal organisation_id required_permission
  found ← Projects.get_by_id organisation_id project_id false
  or_raise found project_not_found

unfoldable pub get_project : ProjectPrincipal → ℕ → ℕ → Action PublicProject
get_project principal organisation_id project_id = do
  project ← get_authorised_project principal organisation_id project_id Permission.read_projects
  pure (public_project_from_model project)

abbrev provided : {A : Type 0} → Option A → Text → Items → Items
provided none name rest = rest
provided (some a) name rest = item (Json.str name) rest

abbrev provided_flag : Bool → Text → Items → Items
provided_flag false name rest = rest
provided_flag true name rest = item (Json.str name) rest

abbrev pub provided_update_fields : Option Text → Bool → Option ProjectStatus → Items
provided_update_fields name description_was_provided status = provided name (codes "name") (
    provided_flag description_was_provided (codes "description")
      (provided status (codes "status") nil))

abbrev pub description_update : Bool → Option Text → Update (Option Text)
description_update true description = set_to description
description_update false description = unset

unfoldable pub write_project :
    Env
    → ProjectPrincipal
    → ℕ
    → Project
    → Option Text
    → Option Text
    → Bool
    → Option ProjectStatus
    → Action Project
write_project env principal organisation_id project name description description_was_provided
      status =
    do
      updated ←
          Projects.update env project name (description_update description_was_provided description)
            status (actor_user_id principal)
      record_event env AuditAction.project_updated (codes "project") (some organisation_id)
          (actor_user_id principal) (actor_api_key_id principal) (some updated.id)
          (field (codes "changed_fields")
            (Json.arr (provided_update_fields name description_was_provided status)) end)
      commit env
      pure updated

unfoldable pub update_project :
    Env
    → ProjectPrincipal
    → ℕ
    → ℕ
    → Option Text
    → Option Text
    → Bool
    → Option ProjectStatus
    → Action PublicProject
update_project env principal organisation_id project_id name description description_was_provided
      status =
    do
      project ←
          get_authorised_project principal organisation_id project_id Permission.write_projects
      updated ← transaction same_error (
          write_project env principal organisation_id project name description
            description_was_provided status)
      pure (public_project_from_model updated)

unfoldable pub soft_delete : Env → ProjectPrincipal → ℕ → Project → Action (Unit {0})
soft_delete env principal organisation_id project = do
  deleted ← Projects.delete env project none (actor_user_id principal)
  record_event env AuditAction.project_deleted (codes "project") (some organisation_id)
      (actor_user_id principal) (actor_api_key_id principal) (some deleted.id)
      (field (codes "project_name") (Json.str project.name) end)
  commit env
  pure tt

unfoldable pub delete_project : Env → ProjectPrincipal → ℕ → ℕ → Action (Unit {0})
delete_project env principal organisation_id project_id = do
  project ← get_authorised_project principal organisation_id project_id Permission.write_projects
  transaction same_error (soft_delete env principal organisation_id project)
