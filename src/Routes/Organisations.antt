-- ===== src/Routes/Organisations.antt =====
-- routes/organisations.py.
use multi_tenant_saas_api.Base.{ℕ, Option, none, some, map, Text, codes}
use multi_tenant_saas_api.Exec.{
  Env, Action, Error, pure, ◌>>=◌, ◌>>◌, organisation_slug_already_exists, organisation_not_found,
  permission_denied, tenant_access_denied,
}
use multi_tenant_saas_api.Rbac.{CurrentPrincipal}
use multi_tenant_saas_api.ApiKeyService.{ProjectPrincipal}
use multi_tenant_saas_api.OrganisationService
use multi_tenant_saas_api.OrganisationService.{
  PublicOrganisation, OrganisationList, CreatedOrganisation,
}
use multi_tenant_saas_api.Idempotency.{
  IdempotencyDecision, IdempotencyReplay, IdempotencyContext, start_request, store_response,
}
use multi_tenant_saas_api.Schemas.Fields.{Page, page_response}
use multi_tenant_saas_api.Schemas.Bodies.{
  OrganisationCreateRequest, OrganisationUpdateRequest, organisation_create_body,
}
use multi_tenant_saas_api.Schemas.Responses.{OrganisationResponse, organisation_response_body}
use multi_tenant_saas_api.Routes.{
  not_found, forbidden, conflict, tenant_error, idempotency_error, translated, Reply, created,
  replayed,
}

-- `OrganisationResponse` has no bounds.
abbrev pub organisation_response : PublicOrganisation → OrganisationResponse
organisation_response o = record {
  id = o.id;
  name = o.name;
  slug = o.slug;
  created_at = o.created_at;
  updated_at = o.updated_at;
}

abbrev pub created_organisation_response : CreatedOrganisation → OrganisationResponse
created_organisation_response c = organisation_response c.organisation

abbrev pub organisation_list_response : OrganisationList → Action (Page OrganisationResponse)
organisation_list_response organisations =
    page_response (map organisation_response organisations.items) organisations.limit
      organisations.offset organisations.total

abbrev slug_taken : Error
slug_taken = conflict (codes "organisation slug is already in use")

abbrev pub create_error : Error → Error
create_error organisation_slug_already_exists = slug_taken
create_error e = e

-- A refused permission is a denied access too (`PermissionDeniedError` is its subclass).
abbrev pub get_error : Error → Error
get_error organisation_not_found = not_found (codes "organisation was not found")
get_error permission_denied = forbidden (codes "organisation access denied")
get_error tenant_access_denied = forbidden (codes "organisation access denied")
get_error e = e

abbrev pub update_error : Error → Error
update_error organisation_slug_already_exists = slug_taken
update_error e = tenant_error e

module _ (env : Env) where
  unfoldable pub begin_create :
      Option Text
      → CurrentPrincipal
      → OrganisationCreateRequest
      → Text
      → Text
      → Action IdempotencyDecision
  begin_create key principal payload method path = translated idempotency_error (
      start_request env key (ProjectPrincipal.user principal) method path
        (organisation_create_body payload) none)

  unfoldable pub create_and_store :
      CurrentPrincipal
      → OrganisationCreateRequest
      → Option IdempotencyContext
      → Action (Reply OrganisationResponse)
  create_and_store principal payload context = do
    c ←
        translated create_error
          (OrganisationService.create_organisation env principal payload.name payload.slug)
    store_response env context 201
        (organisation_response_body env (created_organisation_response c))
    pure (created (created_organisation_response c))

  abbrev pub reply_or_create :
      CurrentPrincipal
      → OrganisationCreateRequest
      → IdempotencyDecision
      → Option IdempotencyReplay
      → Action (Reply OrganisationResponse)
  reply_or_create principal payload decision none =
      create_and_store principal payload decision.context
  reply_or_create principal payload decision (some replay) =
      pure (replayed replay.response_status_code replay.response_body)

  unfoldable pub create_organisation :
      Option Text
      → CurrentPrincipal
      → OrganisationCreateRequest
      → Text
      → Text
      → Action (Reply OrganisationResponse)
  create_organisation key principal payload method path = do
    idempotency ← begin_create key principal payload method path
    reply_or_create principal payload idempotency idempotency.replay

  unfoldable pub list_organisations : CurrentPrincipal → ℕ → ℕ → Action (Page OrganisationResponse)
  list_organisations principal limit offset = do
    organisations ← OrganisationService.list_organisations env principal limit offset
    organisation_list_response organisations

  unfoldable pub update_organisation :
      CurrentPrincipal → ℕ → OrganisationUpdateRequest → Action OrganisationResponse
  update_organisation principal organisation_id payload = do
    organisation ← translated update_error (
        OrganisationService.update_organisation env principal organisation_id payload.name
          payload.slug)
    pure (organisation_response organisation)

unfoldable pub get_organisation : CurrentPrincipal → ℕ → Action OrganisationResponse
get_organisation principal organisation_id = do
  organisation ←
      translated get_error (OrganisationService.get_organisation principal organisation_id)
  pure (organisation_response organisation)
