-- ===== src/Routes/Errors/Bodies.antt =====
-- The bodies of the transactions raise failures of the database only: no metadata that the services
-- record has a forbidden key.
use multi_tenant_saas_api.Base.{ℕ, ◌≡◌, Bool, false, Option, Text, arith, codes}
use multi_tenant_saas_api.Domain.{OrganisationRole, ProjectStatus}
use multi_tenant_saas_api.Json.{Json, Fields, end, field}
use multi_tenant_saas_api.Database.{Organisation, OrganisationMembership, Project, ApiKey}
use multi_tenant_saas_api.Exec.{Env}
use multi_tenant_saas_api.Exec.Raises.{Raises, raise_rules}
use multi_tenant_saas_api.Repositories.Errors.{
  create_organisation-Raises, update_organisation-Raises, create_membership-Raises,
  update_role-Raises, delete_membership-Raises, create_project-Raises, update_project-Raises,
  delete_project-Raises, create_api_key-Raises, revoke-Raises, create_record-Raises,
}
use multi_tenant_saas_api.Audit.Metadata.{contains_forbidden_metadata_key}
use multi_tenant_saas_api.Audit.Errors.{record_event-Raises}
use multi_tenant_saas_api.ApiKeyService.{
  ProjectPrincipal, insert_api_key, write_revocation, revoke_once,
}
use multi_tenant_saas_api.ProjectService.{
  insert_project, write_project, soft_delete, provided_update_fields,
}
use multi_tenant_saas_api.OrganisationService
use multi_tenant_saas_api.OrganisationService.{insert_organisation, write_organisation}
use multi_tenant_saas_api.MembershipService.{insert_member, change_role, take_out}
use multi_tenant_saas_api.Idempotency.{IdempotencyContext, insert_record}
use multi_tenant_saas_api.Routes.Errors.{is_internal}

project_changes_safe :
    (n : Option Text) (b : Bool) (s : Option ProjectStatus)
    → contains_forbidden_metadata_key
        (Json.obj (field (codes "changed_fields") (Json.arr (provided_update_fields n b s)) end))
      ≡ false
unfolding contains_forbidden_metadata_key
project_changes_safe n b s = ground arith

organisation_changes_safe :
    (n s : Option Text)
    → contains_forbidden_metadata_key (
        Json.obj (
          field
            (codes "changed_fields")
            (Json.arr (OrganisationService.provided_update_fields n s))
            end))
      ≡ false
unfolding contains_forbidden_metadata_key
organisation_changes_safe n s = ground arith

module _ (env : Env) where
  pub insert_project-Raises :
      (p : ProjectPrincipal) (o : ℕ) (n : Text) (d : Option Text) (s : ProjectStatus)
      → Raises is_internal (insert_project env p o n d s)
  unfolding insert_project contains_forbidden_metadata_key
  insert_project-Raises p o n d s =
      search (raise_rules, create_project-Raises, record_event-Raises) depth 14

  pub write_project-Raises :
      (p : ProjectPrincipal) (o : ℕ) (q : Project) (n d : Option Text) (b : Bool)
      (s : Option ProjectStatus)
      → Raises is_internal (write_project env p o q n d b s)
  unfolding write_project
  write_project-Raises p o q n d b s =
      search (raise_rules, update_project-Raises, record_event-Raises, project_changes_safe) depth
        14

  pub soft_delete-Raises :
      (p : ProjectPrincipal) (o : ℕ) (q : Project) → Raises is_internal (soft_delete env p o q)
  unfolding soft_delete contains_forbidden_metadata_key
  soft_delete-Raises p o q =
      search (raise_rules, delete_project-Raises, record_event-Raises) depth 14

  pub insert_organisation-Raises :
      (u : ℕ) (n s : Text) → Raises is_internal (insert_organisation env u n s)
  unfolding insert_organisation contains_forbidden_metadata_key
  insert_organisation-Raises u n s =
      search
        (raise_rules, create_organisation-Raises, create_membership-Raises, record_event-Raises)
        depth 14

  pub write_organisation-Raises :
      (u : ℕ) (o : Organisation) (n s : Option Text)
      → Raises is_internal (write_organisation env u o n s)
  unfolding write_organisation
  write_organisation-Raises u o n s =
      search
        (raise_rules, update_organisation-Raises, record_event-Raises, organisation_changes_safe)
        depth 14

  pub insert_member-Raises :
      (a o u : ℕ) (r : OrganisationRole) → Raises is_internal (insert_member env a o u r)
  unfolding insert_member contains_forbidden_metadata_key
  insert_member-Raises a o u r =
      search (raise_rules, create_membership-Raises, record_event-Raises) depth 14

  pub change_role-Raises :
      (a o u : ℕ) (m : OrganisationMembership) (r : OrganisationRole)
      → Raises is_internal (change_role env a o u m r)
  unfolding change_role contains_forbidden_metadata_key
  change_role-Raises a o u m r =
      search (raise_rules, update_role-Raises, record_event-Raises) depth 14

  pub take_out-Raises :
      (a o u : ℕ) (m : OrganisationMembership) → Raises is_internal (take_out env a o u m)
  unfolding take_out contains_forbidden_metadata_key
  take_out-Raises a o u m =
      search (raise_rules, delete_membership-Raises, record_event-Raises) depth 14

  pub insert_api_key-Raises :
      (u o : ℕ) (n r : Text) → Raises is_internal (insert_api_key env u o n r)
  unfolding insert_api_key contains_forbidden_metadata_key
  insert_api_key-Raises u o n r =
      search (raise_rules, create_api_key-Raises, record_event-Raises) depth 14

  write_revocation-Raises : (u o : ℕ) (k : ApiKey) → Raises is_internal (write_revocation env u o k)
  unfolding write_revocation contains_forbidden_metadata_key
  write_revocation-Raises u o k = search (raise_rules, revoke-Raises, record_event-Raises) depth 14

  pub revoke_once-Raises : (u o : ℕ) (k : ApiKey) → Raises is_internal (revoke_once env u o k)
  unfolding revoke_once
  revoke_once-Raises u o k = search (raise_rules, write_revocation-Raises)

  pub insert_record-Raises :
      (c : IdempotencyContext) (code : ℕ) (b : Fields)
      → Raises is_internal (insert_record env c code b)
  unfolding insert_record
  insert_record-Raises c code b = search (raise_rules, create_record-Raises) depth 14
