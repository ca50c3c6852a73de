-- ===== src/Server/Requests.antt =====
-- Every request, with the authentication before it, ends as what it calls ends.
use multi_tenant_saas_api.Base.{
  ℕ, ◌≡◌, Bool, true, false, Option, none, some, List, [], ◌∷◌, Text, refl, subst, All,
}
use multi_tenant_saas_api.Database.{Db, OrganisationMembership}
use multi_tenant_saas_api.Exec.{Env, State, Action, Error, pure, catch, raise, raise_if, ◌>>=◌}
use multi_tenant_saas_api.Auth.{AuthSettings}
use multi_tenant_saas_api.Rbac.{CurrentPrincipal}
use multi_tenant_saas_api.ApiKeyService.{ProjectPrincipal}
use multi_tenant_saas_api.Rbac.Principals.{resolve_user_principal, resolve_user_principal-ReadOnly}
use multi_tenant_saas_api.Repositories.Memberships
use multi_tenant_saas_api.AuthService
use multi_tenant_saas_api.AuthService.{current_user_memberships}
use multi_tenant_saas_api.ApiKeyService.Authentication.{resolve_project_principal}
use multi_tenant_saas_api.Dependencies.{
  HttpAuthorizationCredentials, require_bearer_token, get_current_principal, get_project_principal,
  project_principal_error,
}
use multi_tenant_saas_api.Routes.Authentication
use multi_tenant_saas_api.Routes.Router.{Call}
use multi_tenant_saas_api.Server.{HttpCall, HttpAnswer, replied, perform, respond, respond_all}
use multi_tenant_saas_api.Server.Rules.{
  Stays, Stays-pure, Stays-bind, Stays-translated, Stays-of-ReadOnly, stay_rules, Moves, Moves-then,
  Moves-translated, Moves-of-Stays, Moves-after,
}
use multi_tenant_saas_api.Server.Calls.{Writes, call_target, Allows, May-Allows}
use multi_tenant_saas_api.Server.Calls.Routing.{route-Moves}

-- The writes of registration and login take a step at most; the authentication of a key by a token
-- that may be presented keeps to where it starts.
pub record Entries (env : Env) (settings : AuthSettings) (Before After : Db → Type 0)
    (Trusts : Text → Type 0) : Type 0 where
  pub register_user :
      (email password name : Text)
      → Moves Before After (AuthService.register_user env settings email password name)
  pub login_user :
      (email password : Text)
      → Moves Before After (AuthService.login_user env settings email password)
  pub resolve_project_principal :
      (token : Text) → Trusts token → Stays Before (resolve_project_principal env settings token)

-- A request keeps to the organisations that may be touched and, where a key may authenticate it, to
-- the tokens that may be presented.
module _ (May : Option ℕ → Type 0) (Trusts : Text → Type 0) where
  abbrev pub Trusted : Option HttpAuthorizationCredentials → Type 0
  Trusted none = Unit
  Trusted (some header) = Trusts header.credentials

  abbrev pub Permits : Option HttpAuthorizationCredentials × HttpCall → Type 0
  Permits (found, HttpCall.register payload) = Unit
  Permits (found, HttpCall.login payload) = Unit
  Permits (found, HttpCall.me) = Unit
  Permits (found, HttpCall.by_user call) = (p : CurrentPrincipal) → May (call_target (call p))
  Permits (found, HttpCall.by_principal call) =
      Trusted found × ((p : ProjectPrincipal) → May (call_target (call p)))

guarded-Stays :
    (Holds : Db → Type 0) {A B : Type 0} (b : Bool) (x : Error) (a : A) (f : A → Action B)
    → Stays Holds (f a)
    → Stays Holds ((raise_if b x >>= λ _. pure a) >>= f)
unfolding ◌>>=◌
guarded-Stays Holds true x a f r = record { clean = λ s c h. c; holds = λ s c h. h }
guarded-Stays Holds false x a f r = record { clean = r.clean; holds = r.holds }

-- What follows the bearer token is run for the credentials of the header only.
bearer-Stays :
    (Holds : Db → Type 0) {A : Type 0} (found : Option HttpAuthorizationCredentials)
    (f : Text → Action A)
    → ((header : HttpAuthorizationCredentials)
        → found ≡ some header
        → Stays Holds (f header.credentials))
    → Stays Holds (require_bearer_token found >>= f)
unfolding require_bearer_token ◌>>=◌
bearer-Stays Holds none f r = record { clean = λ s c h. c; holds = λ s c h. h }
bearer-Stays Holds (some header) f r = guarded-Stays Holds _ _ header.credentials f (r header refl)

module _ (env : Env) (settings : AuthSettings) (Holds : Db → Type 0) where
  require_bearer_token-Stays :
      (found : Option HttpAuthorizationCredentials) → Stays Holds (require_bearer_token found)
  unfolding require_bearer_token
  require_bearer_token-Stays found = search stay_rules depth 12

  resolve_user_principal-Stays :
      (token : Text) (translate : Error → Error)
      → Stays Holds (catch (resolve_user_principal env settings token) λ x. raise (translate x))
  resolve_user_principal-Stays token translate =
      Stays-translated Holds translate _
        (Stays-of-ReadOnly Holds _ (resolve_user_principal-ReadOnly env settings token))

  memberships-Stays : (ms : List OrganisationMembership) → Stays Holds (current_user_memberships ms)
  unfolding current_user_memberships
  memberships-Stays [] = search stay_rules
  memberships-Stays (m ∷ ms) =
      Stays-bind Holds _ _ (search stay_rules)
        λ o. Stays-bind Holds _ _ (memberships-Stays ms) λ rest. Stays-pure Holds _

  me-Stays :
      (found : Option HttpAuthorizationCredentials)
      → Stays Holds (Authentication.get_me env settings found)
  unfolding Authentication.get_me AuthService.get_current_user Memberships.list_for_user
      Authentication.current_user_response Authentication.user_response
  me-Stays found =
      search
        (stay_rules, require_bearer_token-Stays, resolve_user_principal-Stays, memberships-Stays)
        depth 20

module _ (env : Env) (settings : AuthSettings) (Before After : Db → Type 0)
    (widens : (db : Db) → Before db → After db) (May : Option ℕ → Type 0) (Trusts : Text → Type 0)
    (w : Writes env Before After May)
    (known : (token : Text)
      → Trusts token
      → Stays Before (resolve_project_principal env settings token)) where
  replied-Moves :
      {A : Type 0} (m : Action A) (f : A → HttpAnswer)
      → Moves Before After m
      → Moves Before After (replied m f)
  unfolding replied
  replied-Moves m f x = Moves-then Before After _ _ x λ a. Stays-pure After (f a)

  authenticated-Stays :
      (found : Option HttpAuthorizationCredentials)
      → Trusted May Trusts found
      → Stays Before (get_project_principal env settings found)
  unfolding get_project_principal
  authenticated-Stays none t = bearer-Stays Before none _ λ header given. absurd (cc)
  authenticated-Stays (some header) t = bearer-Stays Before (some header) _ λ h given.
      let same : header ≡ h = cc given in
      Stays-translated Before project_principal_error _
        (known h.credentials (subst (λ x. Trusts x.credentials) same t))

  -- The calls of a user, and those of a user or a key.
  pub me-Moves :
      (found : Option HttpAuthorizationCredentials)
      → Moves Before After (perform env settings found HttpCall.me)
  unfolding perform
  me-Moves found =
      replied-Moves _ _ (Moves-of-Stays Before After widens _ (me-Stays env settings Before found))

  pub user-Moves :
      (found : Option HttpAuthorizationCredentials) (call : CurrentPrincipal → Call)
      → ((p : CurrentPrincipal) → Allows May (call p))
      → Moves Before After (perform env settings found (HttpCall.by_user call))
  unfolding perform get_current_principal
  user-Moves found call may = replied-Moves _ _ (
      Moves-after Before After widens _ _
        (Stays-bind Before _ _ (require_bearer_token-Stays env settings Before found)
          λ token. resolve_user_principal-Stays env settings Before token _)
        λ p. route-Moves env Before After widens May w (call p) (may p))

  pub principal-Moves :
      (found : Option HttpAuthorizationCredentials) (call : ProjectPrincipal → Call)
      → Trusted May Trusts found
      → ((p : ProjectPrincipal) → Allows May (call p))
      → Moves Before After (perform env settings found (HttpCall.by_principal call))
  unfolding perform
  principal-Moves found call trusted may = replied-Moves _ _ (
      Moves-after Before After widens _ _ (authenticated-Stays found trusted)
        λ p. route-Moves env Before After widens May w (call p) (may p))

module _ (env : Env) (settings : AuthSettings) (Before After : Db → Type 0)
    (widens : (db : Db) → Before db → After db) (May : Option ℕ → Type 0) (Trusts : Text → Type 0)
    (w : Writes env Before After May) (e : Entries env settings Before After Trusts) where
  perform-Moves :
      (found : Option HttpAuthorizationCredentials) (call : HttpCall)
      → Permits May Trusts (found, call)
      → Moves Before After (perform env settings found call)
  unfolding perform replied Authentication.register_user Authentication.login_user
      Authentication.user_response
  perform-Moves found (HttpCall.register payload) may =
      search (stay_rules, Moves-then, Moves-translated, e.register_user) depth 14
  perform-Moves found (HttpCall.login payload) may =
      search (stay_rules, Moves-then, Moves-translated, e.login_user) depth 14
  perform-Moves found HttpCall.me may =
      me-Moves env settings Before After widens May Trusts w e.resolve_project_principal found
  perform-Moves found (HttpCall.by_user call) may =
      user-Moves env settings Before After widens May Trusts w e.resolve_project_principal found
        call λ p. May-Allows May (call p) (may p)
  perform-Moves found (HttpCall.by_principal call) may =
      principal-Moves env settings Before After widens May Trusts w e.resolve_project_principal
        found call may.0 λ p. May-Allows May (call p) (may.1 p)

  -- So does a whole request.
  pub respond-Moves :
      (found : Option HttpAuthorizationCredentials) (call : HttpCall) (s : State)
      → Permits May Trusts (found, call)
      → Before s.committed
      → After (respond env settings found call s).1.committed
  unfolding respond
  respond-Moves found call s may h =
      (perform-Moves found call may).holds (record s { session = s.committed }) refl h

-- What each request keeps, a sequence of them keeps.
module _ (env : Env) (settings : AuthSettings) (Holds : Db → Type 0) (May : Option ℕ → Type 0)
    (Trusts : Text → Type 0) (w : Writes env Holds Holds May)
    (e : Entries env settings Holds Holds Trusts) where
  pub respond_all-Stays :
      (rs : List (Option HttpAuthorizationCredentials × HttpCall)) (s : State)
      → All (Permits May Trusts) rs
      → Holds s.committed
      → Holds (respond_all env settings rs s).committed
  unfolding respond_all
  respond_all-Stays [] s may h = h
  respond_all-Stays (r ∷ rs) s may h =
      respond_all-Stays rs (respond env settings r.0 r.1 s).1 may.1
        (respond-Moves env settings Holds Holds (λ db h. h) May Trusts w e r.0 r.1 s may.0 h)
