-- ===== src/Routes/Router.antt =====
-- The routes of the application (app.py, and the decorators of routes/): which handler answers which
-- method and path. A call has the path's identifiers, the validated query or body, the principal,
-- and for the creations the idempotency key, the method and the path as the handler reads them.
use multi_tenant_saas_api.Base.{ℕ, Option, Text}
use multi_tenant_saas_api.Domain.{ProjectStatus, ProjectSortField, SortDirection}
use multi_tenant_saas_api.Exec.{Env, Action, pure, ◌>>=◌}
use multi_tenant_saas_api.Rbac.{CurrentPrincipal}
use multi_tenant_saas_api.ApiKeyService.{ProjectPrincipal}
use multi_tenant_saas_api.Schemas.Fields.{Page}
use multi_tenant_saas_api.Schemas.Bodies.{
  ProjectCreateRequest, ProjectUpdateRequest, OrganisationCreateRequest, OrganisationUpdateRequest,
  MembershipCreateRequest, MembershipUpdateRequest, ApiKeyCreateRequest,
}
use multi_tenant_saas_api.Schemas.Responses.{
  ProjectResponse, OrganisationResponse, MembershipResponse, ApiKeyResponse, ApiKeyCreateResponse,
  ApiKeyRevokeResponse, AuditEventResponse,
}
use multi_tenant_saas_api.Routes.{Reply}
use multi_tenant_saas_api.Routes.Organisations
use multi_tenant_saas_api.Routes.Memberships
use multi_tenant_saas_api.Routes.Projects
use multi_tenant_saas_api.Routes.ApiKeys
use multi_tenant_saas_api.Routes.AuditEvents

pub data Call : Type 0 where
  post_orgs : Option Text → CurrentPrincipal → OrganisationCreateRequest → Text → Text → Call
  get_orgs : CurrentPrincipal → ℕ → ℕ → Call
  get_org : CurrentPrincipal → ℕ → Call
  patch_org : CurrentPrincipal → ℕ → OrganisationUpdateRequest → Call
  get_members : CurrentPrincipal → ℕ → ℕ → ℕ → Call
  post_members : CurrentPrincipal → ℕ → MembershipCreateRequest → Call
  patch_member : CurrentPrincipal → ℕ → ℕ → MembershipUpdateRequest → Call
  delete_member : CurrentPrincipal → ℕ → ℕ → Call
  post_projects : Option Text → ProjectPrincipal → ℕ → ProjectCreateRequest → Text → Text → Call
  get_projects :
      ProjectPrincipal
      → ℕ
      → ℕ
      → ℕ
      → Option ProjectStatus
      → Option Text
      → ProjectSortField
      → SortDirection
      → Call
  get_project : ProjectPrincipal → ℕ → ℕ → Call
  patch_project : ProjectPrincipal → ℕ → ℕ → ProjectUpdateRequest → Call
  delete_project : ProjectPrincipal → ℕ → ℕ → Call
  post_api_keys : Option Text → CurrentPrincipal → ℕ → ApiKeyCreateRequest → Text → Text → Call
  get_api_keys : CurrentPrincipal → ℕ → ℕ → ℕ → Call
  delete_api_key : CurrentPrincipal → ℕ → ℕ → Call
  get_audit_events : CurrentPrincipal → ℕ → ℕ → ℕ → Call

pub data Answer : Type 0 where
  organisation_reply : Reply OrganisationResponse → Answer
  organisations : Page OrganisationResponse → Answer
  organisation : OrganisationResponse → Answer
  members : Page MembershipResponse → Answer
  member : MembershipResponse → Answer
  project_reply : Reply ProjectResponse → Answer
  projects : Page ProjectResponse → Answer
  project : ProjectResponse → Answer
  api_key_reply : Reply ApiKeyCreateResponse → Answer
  api_keys : Page ApiKeyResponse → Answer
  revoked : ApiKeyRevokeResponse → Answer
  audit_events : Page AuditEventResponse → Answer
  no_content : Answer

unfoldable pub answered : {A : Type 0} → Action A → (A → Answer) → Action Answer
answered m f = m >>= λ a. pure (f a)

unfoldable pub route : Env → Call → Action Answer
route env (Call.post_orgs k p b m u) =
    answered (Organisations.create_organisation env k p b m u) organisation_reply
route env (Call.get_orgs p l i) =
    answered (Organisations.list_organisations env p l i) organisations
route env (Call.get_org p o) = answered (Organisations.get_organisation p o) organisation
route env (Call.patch_org p o b) =
    answered (Organisations.update_organisation env p o b) organisation
route env (Call.get_members p o l i) = answered (Memberships.list_members env p o l i) members
route env (Call.post_members p o b) = answered (Memberships.add_member env p o b) member
route env (Call.patch_member p o i b) = answered (Memberships.update_member_role env p o i b) member
route env (Call.delete_member p o i) =
    answered (Memberships.remove_member env p o i) λ _. no_content
route env (Call.post_projects k p o b m u) =
    answered (Projects.create_project env k p o b m u) project_reply
route env (Call.get_projects p o l i st n f d) =
    answered (Projects.list_projects env p o l i st n f d) projects
route env (Call.get_project p o i) = answered (Projects.get_project p o i) project
route env (Call.patch_project p o i b) = answered (Projects.update_project env p o i b) project
route env (Call.delete_project p o i) = answered (Projects.delete_project env p o i) λ _. no_content
route env (Call.post_api_keys k p o b m u) =
    answered (ApiKeys.create_api_key env k p o b m u) api_key_reply
route env (Call.get_api_keys p o l i) = answered (ApiKeys.list_api_keys p o l i) api_keys
route env (Call.delete_api_key p o i) = answered (ApiKeys.revoke_api_key env p o i) revoked
route env (Call.get_audit_events p o l i) =
    answered (AuditEvents.list_audit_events p o l i) audit_events
