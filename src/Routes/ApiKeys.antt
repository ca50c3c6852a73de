-- ===== src/Routes/ApiKeys.antt =====
-- routes/api_keys.py.
use multi_tenant_saas_api.Base.{ℕ, Option, none, some, Text, codes}
use multi_tenant_saas_api.Exec.{Env, Action, Error, pure, ◌>>=◌, ◌>>◌, api_key_not_found}
use multi_tenant_saas_api.Rbac.{CurrentPrincipal}
use multi_tenant_saas_api.ApiKeyService
use multi_tenant_saas_api.ApiKeyService.{
  ProjectPrincipal, PublicApiKey, ApiKeyList, CreatedApiKey, RevokedApiKey,
  ensure_can_create_api_key,
}
use multi_tenant_saas_api.Idempotency.{
  IdempotencyDecision, IdempotencyReplay, IdempotencyContext, start_request, store_response,
  api_key_idempotency_replay_body,
}
use multi_tenant_saas_api.Schemas.Fields.{Page, page_response, validated}
use multi_tenant_saas_api.Schemas.Bodies.{ApiKeyCreateRequest, api_key_create_body}
use multi_tenant_saas_api.Schemas.Responses.{
  ApiKeyResponse, ApiKeyCreateResponse, ApiKeyRevokeResponse, api_key_response_valid,
  api_key_create_response_valid, api_key_create_response_body, validate_items,
}
use multi_tenant_saas_api.Routes.{
  not_found, tenant_error, lookup_error, translated, Reply, created, replayed,
}

abbrev pub to_api_key_response : PublicApiKey → ApiKeyResponse
to_api_key_response k = record {
  id = k.id;
  organisation_id = k.organisation_id;
  name = k.name;
  key_prefix = k.key_prefix;
  created_by_user_id = k.created_by_user_id;
  revoked_at = k.revoked_at;
  last_used_at = k.last_used_at;
  created_at = k.created_at;
  updated_at = k.updated_at;
}

abbrev pub api_key_response : PublicApiKey → Action ApiKeyResponse
api_key_response k =
    validated (api_key_response_valid (to_api_key_response k)) (to_api_key_response k)

unfoldable pub created_api_key_response : CreatedApiKey → Action ApiKeyCreateResponse
created_api_key_response c = do
  api_key ← api_key_response c.api_key
  let response : ApiKeyCreateResponse = record { api_key = api_key; raw_key = c.raw_key }
  validated (api_key_create_response_valid response) response

unfoldable pub api_key_list_response : ApiKeyList → Action (Page ApiKeyResponse)
api_key_list_response api_keys = do
  items ← validate_items api_key_response api_keys.items
  page_response items api_keys.limit api_keys.offset api_keys.total

abbrev pub api_key_revoke_response : RevokedApiKey → ApiKeyRevokeResponse
api_key_revoke_response r = record {
  id = r.id;
  organisation_id = r.organisation_id;
  status = codes "revoked";
  revoked_at = r.revoked_at;
}

abbrev pub revoke_error : Error → Error
revoke_error api_key_not_found = not_found (codes "api key was not found")
revoke_error e = tenant_error e

-- The check comes first where the request has a key.
abbrev pub check_create : Option Text → CurrentPrincipal → ℕ → Action (Unit {0})
check_create none principal organisation_id = pure tt
check_create (some key) principal organisation_id =
    ensure_can_create_api_key principal organisation_id

module _ (env : Env) where
  unfoldable pub begin_create :
      Option Text
      → CurrentPrincipal
      → ℕ
      → ApiKeyCreateRequest
      → Text
      → Text
      → Action IdempotencyDecision
  begin_create key principal organisation_id payload method path = translated lookup_error (do
    check_create key principal organisation_id
    start_request env key (ProjectPrincipal.user principal) method path
        (api_key_create_body payload) (some organisation_id))

  -- What is stored of a creation has no raw key.
  unfoldable pub create_and_store :
      CurrentPrincipal
      → ℕ
      → ApiKeyCreateRequest
      → Option IdempotencyContext
      → Action (Reply ApiKeyCreateResponse)
  create_and_store principal organisation_id payload context = do
    c ←
        translated tenant_error
          (ApiKeyService.create_api_key env principal organisation_id payload.name)
    response ← created_api_key_response c
    store_response env context 201
        (api_key_idempotency_replay_body (api_key_create_response_body env response))
    pure (created response)

  abbrev pub reply_or_create :
      CurrentPrincipal
      → ℕ
      → ApiKeyCreateRequest
      → IdempotencyDecision
      → Option IdempotencyReplay
      → Action (Reply ApiKeyCreateResponse)
  reply_or_create principal organisation_id payload decision none =
      create_and_store principal organisation_id payload decision.context
  reply_or_create principal organisation_id payload decision (some replay) =
      pure (replayed replay.response_status_code replay.response_body)

  unfoldable pub create_api_key :
      Option Text
      → CurrentPrincipal
      → ℕ
      → ApiKeyCreateRequest
      → Text
      → Text
      → Action (Reply ApiKeyCreateResponse)
  create_api_key key principal organisation_id payload method path = do
    idempotency ← begin_create key principal organisation_id payload method path
    reply_or_create principal organisation_id payload idempotency idempotency.replay

  unfoldable pub revoke_api_key : CurrentPrincipal → ℕ → ℕ → Action ApiKeyRevokeResponse
  revoke_api_key principal organisation_id api_key_id = do
    revoked ←
        translated revoke_error
          (ApiKeyService.revoke_api_key env principal organisation_id api_key_id)
    pure (api_key_revoke_response revoked)

unfoldable pub list_api_keys : CurrentPrincipal → ℕ → ℕ → ℕ → Action (Page ApiKeyResponse)
list_api_keys principal organisation_id limit offset = do
  api_keys ←
      translated tenant_error (ApiKeyService.list_api_keys principal organisation_id limit offset)
  api_key_list_response api_keys
