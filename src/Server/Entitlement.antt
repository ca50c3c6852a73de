-- ===== src/Server/Entitlement.antt =====
-- Who gets an answer: the bearer token has a principal, and the principal may make the call.
use multi_tenant_saas_api.Base.{
  ◌≡◌, ◌∙◌, refl, sym, subst, true, Option, some, Text, codes, text_eq, lower, arith, Bool-cases,
  inl, inr,
}
use multi_tenant_saas_api.Exec.{Env, State, Action, Error, Result, ok, err, catch, ◌>>=◌}
use multi_tenant_saas_api.Exec.Returns.{
  Returns, Returns-bind, Returns-weaken, Returns-or_raise, Returns-raise_if, Returns-pure,
}
use multi_tenant_saas_api.Auth.{AuthSettings}
use multi_tenant_saas_api.Rbac.{CurrentPrincipal}
use multi_tenant_saas_api.Rbac.Principals.{
  Resolved, resolve_user_principal, resolve_user_principal-ReadOnly, resolve_user_principal-Returns,
}
use multi_tenant_saas_api.AuthService
use multi_tenant_saas_api.ApiKeyService.{ProjectPrincipal}
use multi_tenant_saas_api.ApiKeyService.Authentication.{
  Principal, resolve_project_principal, resolve_project_principal-Returns,
}
use multi_tenant_saas_api.Dependencies.{
  HttpAuthorizationCredentials, require_bearer_token, get_current_principal, get_project_principal,
  principal_error, project_principal_error,
}
use multi_tenant_saas_api.Schemas.Bodies.{RegisterRequest, LoginRequest}
use multi_tenant_saas_api.Routes.{translated}
use multi_tenant_saas_api.Schemas.Responses.{CurrentUserResponse}
use multi_tenant_saas_api.Routes.Authentication
use multi_tenant_saas_api.Routes.Authentication.{me_error, current_user_response}
use multi_tenant_saas_api.Routes.Denials.{call_authorised, route-Denied}
use multi_tenant_saas_api.Routes.Refusals.{Denied}
use multi_tenant_saas_api.Routes.Replays.{Returns-translated, Returns-any}
use multi_tenant_saas_api.Routes.Router.{Call, Answer, route}
use multi_tenant_saas_api.Server.{HttpCall, HttpAnswer, replied, perform}

-- The request has a header with a bearer token.
pub record Bears (found : Option HttpAuthorizationCredentials) (token : Text) : Type 0 where
  pub header : HttpAuthorizationCredentials
  pub given : found ≡ some header
  pub is_bearer : text_eq (lower header.scheme) (codes "bearer") ≡ true
  pub is_token : token ≡ header.credentials

-- Who may have a call answered in a session: anyone may register or log in; otherwise an active
-- user whom the token names, or for the routes of projects an active key too, and one who has the
-- permission of the call.
pub data Entitled (env : Env) (settings : AuthSettings)
    (found : Option HttpAuthorizationCredentials) (s : State) : HttpCall → Type 0 where
  to_register :
      (payload : RegisterRequest) → Entitled env settings found s (HttpCall.register payload)
  to_log_in : (payload : LoginRequest) → Entitled env settings found s (HttpCall.login payload)
  to_see_oneself :
      (token : Text) (p : CurrentPrincipal)
      → Bears found token
      → Resolved env settings token s p
      → Entitled env settings found s HttpCall.me
  as_user :
      (call : CurrentPrincipal → Call) (token : Text) (p : CurrentPrincipal)
      → Bears found token
      → Resolved env settings token s p
      → call_authorised (call p) s.session ≡ true
      → Entitled env settings found s (HttpCall.by_user call)
  as_principal :
      (call : ProjectPrincipal → Call) (token : Text) (p : ProjectPrincipal) (t : State)
      → Bears found token
      → Principal env settings token s p t
      → call_authorised (call p) t.session ≡ true
      → Entitled env settings found s (HttpCall.by_principal call)

require_bearer_token-Returns :
    (found : Option HttpAuthorizationCredentials) (s : State)
    → Returns (require_bearer_token found) s (λ token t. (t ≡ s) × Bears found token)
unfolding require_bearer_token
require_bearer_token-Returns found s = Returns-or_raise _ _ _ λ header given.
    Returns-raise_if _ _ _ λ accepted.
      Returns-pure _
        (refl, record { header = header; given = given; is_bearer = ground arith; is_token = refl })

-- A route that answers was authorised.
route-authorised :
    (env : Env) (call : Call) (t : State)
    → Returns (route env call) t (λ a u. call_authorised call t.session ≡ true)
route-authorised env call t = record {
  at = λ a u h. elim (Bool-cases (call_authorised call t.session)) [
    | inl may ↦ may
    | inr may_not ↦ refused a u h (route-Denied env call t may_not)
  ];
}
  where
    refused :
        (a : Answer) (u : State)
        → route env call t ≡ (ok a, u)
        → Denied (route env call) t
        → call_authorised call t.session ≡ true
    refused a u h d = let clash = d.raised in absurd (cc)

-- A handler that only raises returns nothing.
Returns-raising :
    {A : Type 0} (m : Action A) (h : Error → Action A) {s : State} {P : A → State → Type 0}
    → Returns m s P
    → ((e : Error) (t : State) → Returns (h e) t P)
    → Returns (catch m h) s P
unfolding catch
Returns-raising {A} m h {s} {P} r k = record { at = λ a t x. step a t (m s) refl x }
  where
    step :
        (a : A) (t : State) (p : Result A × State)
        → m s ≡ p
        → catch (λ _. p) h s ≡ (ok a, t)
        → P a t
    step a t (ok b, u) e x = r.at a t (e ∙ x)
    step a t (err y, u) e x = (k y u).at a t x

module _ (env : Env) (settings : AuthSettings) (found : Option HttpAuthorizationCredentials)
    (s : State) where
  translated-Resolved :
      (translate : Error → Error) (token : Text)
      → Returns
          (translated translate (resolve_user_principal env settings token))
          s
          (λ p t. (t ≡ s) × Resolved env settings token s p)
  translated-Resolved translate token = Returns-translated translate _ (record {
    at = λ p t h. (
      subst (λ (q : Result CurrentPrincipal × State). q.1 ≡ s) h
          ((resolve_user_principal-ReadOnly env settings token).at s),
      (resolve_user_principal-Returns env settings token s).at p t h,
    );
  })

  get_current_principal-Returns :
      Returns
        (get_current_principal env settings found)
        s
        (λ p t. (t ≡ s) × ((token : Text) × Bears found token × Resolved env settings token s p))
  unfolding get_current_principal
  get_current_principal-Returns =
      Returns-bind _ _ (require_bearer_token-Returns found s) λ token t bears.
        subst
          (λ u.
            Returns (translated principal_error (resolve_user_principal env settings token)) u
              (λ p t.
                (t ≡ s) × ((token : Text) × Bears found token × Resolved env settings token s p)))
          (sym bears.0)
          (Returns-weaken (translated-Resolved principal_error token)
            λ p u r. (r.0, (token, bears.1, r.1)))

  get_project_principal-Returns :
      Returns
        (get_project_principal env settings found)
        s
        (λ p t. (token : Text) × Bears found token × Principal env settings token s p t)
  unfolding get_project_principal
  get_project_principal-Returns =
      Returns-bind _ _ (require_bearer_token-Returns found s) λ token t bears.
        subst
          (λ u.
            Returns
              (translated project_principal_error (resolve_project_principal env settings token)) u
              (λ p t. (token : Text) × Bears found token × Principal env settings token s p t))
          (sym bears.0)
          (Returns-translated project_principal_error _ (
            Returns-weaken (resolve_project_principal-Returns env settings token s)
              λ p u r. (token, bears.1, r)))

  current_user-Returns :
      (token : Text)
      → Returns
          (AuthService.get_current_user env settings token)
          s
          (λ _ _. (p : CurrentPrincipal) × Resolved env settings token s p)
  unfolding AuthService.get_current_user
  current_user-Returns token =
      Returns-bind _ _
        (Returns-raising _ _ {P = λ p _. Resolved env settings token s p}
          (resolve_user_principal-Returns env settings token s) λ e t. record { at = λ a u x. cc })
        λ p t r. Returns-weaken (Returns-any _) λ a u x. (p, r)

  replied-Returns :
      {A : Type 0} {P : Type 0} (m : Action A) (f : A → HttpAnswer)
      → Returns m s (λ _ _. P)
      → Returns (replied m f) s (λ _ _. P)
  unfolding replied
  replied-Returns m f r = Returns-bind _ _ r λ a t p. Returns-pure (f a) p

  -- `get_me` from the token on.
  abbrev get_me_by : Text → Action CurrentUserResponse
  get_me_by token = do
    v ← translated me_error (AuthService.get_current_user env settings token)
    current_user_response env v

  entitled :
      (call : HttpCall)
      → Returns (perform env settings found call) s (λ _ _. Entitled env settings found s call)
  unfolding perform Authentication.get_me
  entitled (HttpCall.register payload) = Returns-weaken (Returns-any _) λ a t x. to_register payload
  entitled (HttpCall.login payload) = Returns-weaken (Returns-any _) λ a t x. to_log_in payload
  entitled HttpCall.me = replied-Returns _ _ (
      Returns-bind _ _ (require_bearer_token-Returns found s) λ token t bears.
        subst (λ u. Returns (get_me_by token) u (λ _ _. Entitled env settings found s HttpCall.me))
          (sym bears.0)
          (Returns-bind _ _ (Returns-translated me_error _ (current_user-Returns token))
            λ v u r. Returns-weaken (Returns-any _) λ a x y. to_see_oneself token r.0 bears.1 r.1))
  entitled (HttpCall.by_user call) = replied-Returns _ _ (
      Returns-bind _ _ get_current_principal-Returns λ p t r.
        Returns-weaken (route-authorised env (call p) t) λ a u may.
          as_user call r.1.0 p r.1.1 r.1.2
            (subst (λ v. call_authorised (call p) v.session ≡ true) r.0 may))
  entitled (HttpCall.by_principal call) = replied-Returns _ _ (
      Returns-bind _ _ get_project_principal-Returns λ p t r.
        Returns-weaken (route-authorised env (call p) t)
          λ a u may. as_principal call r.0 p t r.1 r.2 may)

  -- A request that is answered was entitled to it: it registers, or logs in, or its bearer token
  -- names a user who is active in the session, or on the routes of projects an active key, and that
  -- principal has, in the organisation of the call, the permission that the call takes.
  pub perform-Entitled :
      (call : HttpCall) (a : HttpAnswer) (t : State)
      → perform env settings found call s ≡ (ok a, t)
      → Entitled env settings found s call
  perform-Entitled call a t h = (entitled call).at a t h
