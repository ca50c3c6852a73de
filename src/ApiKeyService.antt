-- ===== src/ApiKeyService.antt =====
-- services/api_keys.py: API key management, and the principals that bearer credentials resolve to.
pub mod Atomicity
pub mod Authentication
pub mod Effects
pub mod Outcomes
use multi_tenant_saas_api.Base.{
  ℕ, Bool, true, Option, none, some, List, ◌++◌, map, Text, codes, take, is_none, if◌then◌else◌,
}
use multi_tenant_saas_api.Domain.{Permission, AuditAction}
use multi_tenant_saas_api.Json.{Json, Fields, field, end}
use multi_tenant_saas_api.Database.{ApiKey}
use multi_tenant_saas_api.Exec.{
  Env, Action, pure, raise, or_raise, ◌>>=◌, ◌>>◌, commit, transaction, same_error, record_metric,
  token_urlsafe, api_key_not_found, runtime_error, Metric,
}
use multi_tenant_saas_api.Repositories.ApiKeys
use multi_tenant_saas_api.Rbac.{PrincipalType, CurrentPrincipal, get_tenant_context}
use multi_tenant_saas_api.Audit.{record_event}

pub record PublicApiKey : Type 0 where
  pub id : ℕ
  pub organisation_id : ℕ
  pub name : Text
  pub key_prefix : Text
  pub created_by_user_id : Option ℕ
  pub revoked_at : Option ℕ
  pub last_used_at : Option ℕ
  pub created_at : ℕ
  pub updated_at : ℕ

pub record CreatedApiKey : Type 0 where
  pub api_key : PublicApiKey
  pub raw_key : Text

pub record ApiKeyList : Type 0 where
  pub items : List PublicApiKey
  pub limit : ℕ
  pub offset : ℕ
  pub total : ℕ

pub record RevokedApiKey : Type 0 where
  pub id : ℕ
  pub organisation_id : ℕ
  pub revoked_at : ℕ

pub record ApiKeyPrincipal : Type 0 where
  pub principal_type : PrincipalType
  pub api_key_id : ℕ
  pub organisation_id : ℕ
  pub name : Text
  pub key_prefix : Text
  pub created_at : ℕ
  pub last_used_at : Option ℕ

-- `CurrentPrincipal | APIKeyPrincipal`
pub data ProjectPrincipal : Type 0 where
  user : CurrentPrincipal → ProjectPrincipal
  key : ApiKeyPrincipal → ProjectPrincipal

abbrev pub public_api_key_from_model : ApiKey → PublicApiKey
public_api_key_from_model k = record {
  id = k.id;
  organisation_id = k.organisation_id;
  name = k.name;
  key_prefix = k.key_prefix;
  created_by_user_id = k.created_by_user_id;
  revoked_at = k.revoked_at;
  last_used_at = k.last_used_at;
  created_at = k.created_at;
  updated_at = k.updated_at;
}

abbrev pub api_key_principal_from_model : ApiKey → ApiKeyPrincipal
api_key_principal_from_model k = record {
  principal_type = PrincipalType.api_key;
  api_key_id = k.id;
  organisation_id = k.organisation_id;
  name = k.name;
  key_prefix = k.key_prefix;
  created_at = k.created_at;
  last_used_at = k.last_used_at;
}

-- The secret service: a random key behind a fixed prefix, its first characters, and its digest.
unfoldable pub generate_raw_key : Env → Action Text
generate_raw_key env = do token ← token_urlsafe env; pure (codes "saas_demo_" ++ token)

abbrev pub key_prefix : Text → Text
key_prefix raw_key = take 16 raw_key

abbrev pub hash_key : Env → Text → Text
hash_key env raw_key = env.sha256 raw_key

unfoldable pub ensure_can_create_api_key : CurrentPrincipal → ℕ → Action (Unit {0})
ensure_can_create_api_key principal organisation_id = do
  get_tenant_context principal organisation_id (some Permission.manage_api_keys)
  pure tt

abbrev key_metadata : ApiKey → Fields
key_metadata k =
    field (codes "api_key_name") (Json.str k.name)
      (field (codes "key_prefix") (Json.str k.key_prefix) end)

unfoldable pub insert_api_key : Env → ℕ → ℕ → Text → Text → Action ApiKey
insert_api_key env user_id organisation_id name raw_key = do
  api_key ←
      ApiKeys.create env organisation_id name (key_prefix raw_key) (hash_key env raw_key)
        (some user_id)
  record_event env AuditAction.api_key_created (codes "api_key") (some organisation_id)
      (some user_id) none (some api_key.id) (key_metadata api_key)
  commit env
  record_metric Metric.api_key_created
  pure api_key

unfoldable pub create_api_key : Env → CurrentPrincipal → ℕ → Text → Action CreatedApiKey
create_api_key env principal organisation_id name = do
  get_tenant_context principal organisation_id (some Permission.manage_api_keys)
  raw_key ← generate_raw_key env
  api_key ←
      transaction same_error (insert_api_key env principal.user_id organisation_id name raw_key)
  pure (record { api_key = public_api_key_from_model api_key; raw_key = raw_key })

unfoldable pub list_api_keys : CurrentPrincipal → ℕ → ℕ → ℕ → Action ApiKeyList
list_api_keys principal organisation_id limit offset = do
  get_tenant_context principal organisation_id (some Permission.manage_api_keys)
  api_keys ← ApiKeys.list_for_organisation organisation_id limit offset true
  total ← ApiKeys.count_for_organisation organisation_id true
  pure (record {
    items = map public_api_key_from_model api_keys;
    limit = limit;
    offset = offset;
    total = total;
  })

unfoldable pub write_revocation : Env → ℕ → ℕ → ApiKey → Action ApiKey
write_revocation env user_id organisation_id api_key = do
  revoked ← ApiKeys.revoke env api_key none
  record_event env AuditAction.api_key_revoked (codes "api_key") (some organisation_id)
      (some user_id) none (some revoked.id) (key_metadata revoked)
  commit env
  record_metric Metric.api_key_revoked
  pure revoked

-- A key that is revoked already is left as it is.
unfoldable pub revoke_once : Env → ℕ → ℕ → ApiKey → Action ApiKey
revoke_once env user_id organisation_id api_key =
    if is_none api_key.revoked_at
    then write_revocation env user_id organisation_id api_key
    else pure api_key

abbrev pub revoked_api_key_at : ApiKey → Option ℕ → Action RevokedApiKey
revoked_api_key_at k none = raise runtime_error
revoked_api_key_at k (some t) =
    pure (record { id = k.id; organisation_id = k.organisation_id; revoked_at = t })

abbrev pub revoked_api_key : ApiKey → Action RevokedApiKey
revoked_api_key k = revoked_api_key_at k k.revoked_at

unfoldable pub revoke_api_key : Env → CurrentPrincipal → ℕ → ℕ → Action RevokedApiKey
revoke_api_key env principal organisation_id api_key_id = do
  get_tenant_context principal organisation_id (some Permission.manage_api_keys)
  found ← ApiKeys.get_by_id organisation_id api_key_id
  api_key ← or_raise found api_key_not_found
  revoked ← transaction same_error (revoke_once env principal.user_id organisation_id api_key)
  revoked_api_key revoked
