-- ===== src/Server.antt =====
-- A whole HTTP request: the session that dependencies.get_session opens, the principal of the bearer
-- token, and the handler. The calls that app.py routes to are those of Routes/Router, and the three
-- of routes/auth.py.
pub mod Rules
pub mod Calls
pub mod Requests
pub mod Tracking
pub mod Log
pub mod Validity
pub mod Entitlement
pub mod Isolation
use multi_tenant_saas_api.Base.{Option, List, [], ◌∷◌}
use multi_tenant_saas_api.Exec.{Env, State, Action, Result, pure, ◌>>=◌}
use multi_tenant_saas_api.Auth.{AuthSettings}
use multi_tenant_saas_api.Rbac.{CurrentPrincipal}
use multi_tenant_saas_api.ApiKeyService.{ProjectPrincipal}
use multi_tenant_saas_api.Schemas.Bodies.{RegisterRequest, LoginRequest}
use multi_tenant_saas_api.Schemas.Responses.{UserResponse, LoginResponse, CurrentUserResponse}
use multi_tenant_saas_api.Dependencies.{
  HttpAuthorizationCredentials, get_current_principal, get_project_principal,
}
use multi_tenant_saas_api.Routes.Authentication.{register_user, login_user, get_me}
use multi_tenant_saas_api.Routes.Router.{Call, Answer, route}

-- A session begins with the committed database in view.
abbrev pub opened : State → State
opened s = record s { session = s.committed }

-- What a request asks for. The calls of the other routers wait for a principal: a user's for all
-- but the routes of projects, which take an API key too.
pub data HttpCall : Type 0 where
  register : RegisterRequest → HttpCall
  login : LoginRequest → HttpCall
  me : HttpCall
  by_user : (CurrentPrincipal → Call) → HttpCall
  by_principal : (ProjectPrincipal → Call) → HttpCall

pub data HttpAnswer : Type 0 where
  registered : UserResponse → HttpAnswer
  logged_in : LoginResponse → HttpAnswer
  current_user : CurrentUserResponse → HttpAnswer
  routed : Answer → HttpAnswer

unfoldable pub replied : {A : Type 0} → Action A → (A → HttpAnswer) → Action HttpAnswer
replied m f = m >>= λ a. pure (f a)

module _ (env : Env) (settings : AuthSettings) where
  unfoldable pub perform : Option HttpAuthorizationCredentials → HttpCall → Action HttpAnswer
  perform found (register payload) = replied (register_user env settings payload) registered
  perform found (login payload) = replied (login_user env settings payload) logged_in
  perform found me = replied (get_me env settings found) current_user
  perform found (by_user call) =
      replied (get_current_principal env settings found >>= λ p. route env (call p)) routed
  perform found (by_principal call) =
      replied (get_project_principal env settings found >>= λ p. route env (call p)) routed

  -- Each request has a session of its own.
  unfoldable pub respond :
      Option HttpAuthorizationCredentials → HttpCall → State → Result HttpAnswer × State
  respond found call s = perform found call (opened s)

  unfoldable pub respond_all : List (Option HttpAuthorizationCredentials × HttpCall) → State → State
  respond_all [] s = s
  respond_all (r ∷ rs) s = respond_all rs (respond r.0 r.1 s).1
