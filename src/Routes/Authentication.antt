-- ===== src/Routes/Authentication.antt =====
-- routes/auth.py.
use multi_tenant_saas_api.Base.{Option, codes}
use multi_tenant_saas_api.Exec.{
  Env, Action, Error, pure, ◌>>=◌, or_raise, validation_error, email_already_registered,
  password_policy, invalid_credentials, invalid_bearer_token,
}
use multi_tenant_saas_api.Auth.{AuthSettings}
use multi_tenant_saas_api.AuthService
use multi_tenant_saas_api.AuthService.{PublicUser, CurrentUser, CurrentUserMembership}
use multi_tenant_saas_api.Dependencies.{
  HttpAuthorizationCredentials, unauthorized, require_bearer_token,
}
use multi_tenant_saas_api.Schemas.Fields.{validated, has_length}
use multi_tenant_saas_api.Schemas.Bodies.{RegisterRequest, LoginRequest}
use multi_tenant_saas_api.Schemas.Responses.{
  UserResponse, CurrentUserMembershipResponse, CurrentUserResponse, LoginResponse,
  login_response_valid, current_user_membership_response_valid, validate_items,
}
use multi_tenant_saas_api.Routes.{http_error, conflict, translated}

unfoldable pub user_response : Env → PublicUser → Action UserResponse
user_response env u = do
  email ← or_raise (env.validate_email u.email) validation_error
  validated (has_length 1 120 u.display_name) (record {
    id = u.id;
    email = email;
    display_name = u.display_name;
    is_active = u.is_active;
    created_at = u.created_at;
    updated_at = u.updated_at;
  })

abbrev to_membership_response : CurrentUserMembership → CurrentUserMembershipResponse
to_membership_response m = record {
  membership_id = m.membership_id;
  organisation_id = m.organisation_id;
  organisation_name = m.organisation_name;
  organisation_slug = m.organisation_slug;
  role = m.role;
}

abbrev pub current_user_membership_response :
    CurrentUserMembership → Action CurrentUserMembershipResponse
current_user_membership_response m =
    validated (current_user_membership_response_valid (to_membership_response m))
      (to_membership_response m)

unfoldable pub current_user_response : Env → CurrentUser → Action CurrentUserResponse
current_user_response env current_user = do
  user ← user_response env current_user.user
  memberships ← validate_items current_user_membership_response current_user.memberships
  pure (record { user = user; memberships = memberships })

abbrev pub register_error : Error → Error
register_error email_already_registered = conflict (codes "email is already registered")
register_error (password_policy message) = http_error 422 message
register_error e = e

abbrev pub login_error : Error → Error
login_error invalid_credentials = http_error 401 (codes "invalid email or password")
login_error e = e

abbrev pub me_error : Error → Error
me_error invalid_bearer_token = unauthorized (codes "invalid or expired access token")
me_error e = e

module _ (env : Env) (settings : AuthSettings) where
  unfoldable pub register_user : RegisterRequest → Action UserResponse
  register_user payload = do
    user ←
        translated register_error (
          AuthService.register_user env settings payload.email payload.password
            payload.display_name)
    user_response env user

  unfoldable pub login_user : LoginRequest → Action LoginResponse
  login_user payload = do
    access_token ←
        translated login_error (AuthService.login_user env settings payload.email payload.password)
    let response : LoginResponse = record {
      access_token = access_token.token;
      token_type = codes "bearer";
      expires_in_seconds = access_token.expires_in_seconds;
    }
    validated (login_response_valid response) response

  unfoldable pub get_me : Option HttpAuthorizationCredentials → Action CurrentUserResponse
  get_me found = do
    bearer_token ← require_bearer_token found
    current_user ← translated me_error (AuthService.get_current_user env settings bearer_token)
    current_user_response env current_user
