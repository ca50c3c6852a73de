-- ===== src/Dependencies.antt =====
-- dependencies.py: the bearer token of a request and the principal that it stands for.
use multi_tenant_saas_api.Base.{true, not, ◌||◌, Option, [], Text, codes, text_eq, lower}
use multi_tenant_saas_api.Exec.{
  Env, Action, Error, pure, raise, raise_if, or_raise, catch, ◌>>=◌, ◌>>◌, http_exception,
  principal_resolution, api_key_authentication,
}
use multi_tenant_saas_api.Auth.{AuthSettings}
use multi_tenant_saas_api.Rbac.{CurrentPrincipal}
use multi_tenant_saas_api.Rbac.Principals.{resolve_current_principal}
use multi_tenant_saas_api.ApiKeyService.{ProjectPrincipal}
use multi_tenant_saas_api.ApiKeyService.Authentication.{resolve_project_principal}

-- What the scheme `HTTPBearer(auto_error=False)` finds in the header, if anything.
pub record HttpAuthorizationCredentials : Type 0 where
  pub scheme : Text
  pub credentials : Text

abbrev pub unauthorized : Text → Error
unauthorized detail =
    http_exception (record { status_code = 401; detail = detail; asks_for_bearer = true })

unfoldable pub require_bearer_token : Option HttpAuthorizationCredentials → Action Text
unfolding text_eq lower
require_bearer_token found = do
  c ← or_raise found (unauthorized (codes "authentication required"))
  raise_if (not (text_eq (lower c.scheme) (codes "bearer")) || text_eq c.credentials [])
      (unauthorized (codes "authentication required"))
  pure c.credentials

-- `except PrincipalResolutionError`
abbrev pub principal_error : Error → Error
principal_error principal_resolution = unauthorized (codes "invalid or expired access token")
principal_error e = e

-- `except APIKeyAuthenticationError`
abbrev pub project_principal_error : Error → Error
project_principal_error api_key_authentication =
    unauthorized (codes "invalid or expired access token or API key")
project_principal_error e = e

unfoldable pub get_current_principal :
    Env → AuthSettings → Option HttpAuthorizationCredentials → Action CurrentPrincipal
get_current_principal env settings found = do
  bearer_token ← require_bearer_token found
  catch (resolve_current_principal env settings bearer_token) λ e. raise (principal_error e)

unfoldable pub get_project_principal :
    Env → AuthSettings → Option HttpAuthorizationCredentials → Action ProjectPrincipal
get_project_principal env settings found = do
  bearer_token ← require_bearer_token found
  catch (resolve_project_principal env settings bearer_token) λ e. raise (project_principal_error e)
