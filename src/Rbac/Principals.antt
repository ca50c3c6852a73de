-- ===== src/Rbac/Principals.antt =====
-- services/rbac.py: the active user that a bearer token stands for.
use multi_tenant_saas_api.Base.{ℕ, ◌≡◌, refl, true, not, some, Text, scalar, ◌==◌, arith, unnegated}
use multi_tenant_saas_api.Database.{User}
use multi_tenant_saas_api.Exec.{
  Env, State, Action, Error, Result, ok, err, pure, raise, raise_if, or_raise, catch, ◌>>=◌, ◌>>◌,
  access_token_expired, invalid_access_token, principal_resolution,
}
use multi_tenant_saas_api.Exec.Rules.{
  ReadOnly, ReadOnly-bind, IsClean, Atomic-of-ReadOnly, read_rules,
}
use multi_tenant_saas_api.Exec.Returns.{
  Returns, Returns-check, Returns-query, Returns-or_raise, Returns-raise_if, Returns-pure, Outcome,
  outcome,
}
use multi_tenant_saas_api.Repositories.Users
use multi_tenant_saas_api.Auth.{AuthSettings, validate_access_token}
use multi_tenant_saas_api.Rbac.{CurrentPrincipal, current_principal_from_model}

-- `except AccessTokenError`
abbrev unresolved : Error → Error
unresolved access_token_expired = principal_resolution
unresolved invalid_access_token = principal_resolution
unresolved e = e

abbrev token_error : {A : Type 0} → Error → Action A
token_error e = raise (unresolved e)

unfoldable pub resolve_user_principal : Env → AuthSettings → Text → Action CurrentPrincipal
unfolding validate_access_token
resolve_user_principal env settings bearer_token = do
  user_id ← catch (validate_access_token env settings bearer_token) token_error
  found ← Users.get_by_id user_id
  user ← or_raise found principal_resolution
  raise_if (not user.is_active) principal_resolution
  pure (current_principal_from_model user)

-- `RBACService.resolve_current_principal`
abbrev pub resolve_current_principal : Env → AuthSettings → Text → Action CurrentPrincipal
resolve_current_principal env settings bearer_token =
    resolve_user_principal env settings bearer_token

-- An active user of the database, whom an access token that is valid at this time names.
pub record Resolved (env : Env) (settings : AuthSettings) (token : Text) (s : State)
    (p : CurrentPrincipal) : Type 0 where
  pub user_id : ℕ
  pub valid : (validate_access_token env settings token s).0 ≡ ok user_id
  pub user : User
  pub found : scalar (λ u. u.id == user_id) s.session.users ≡ some user
  pub active : user.is_active ≡ true
  pub answer : p ≡ current_principal_from_model user

pub validate_access_token-ReadOnly :
    (env : Env) (settings : AuthSettings) (token : Text)
    → ReadOnly (validate_access_token env settings token)
unfolding validate_access_token ◌>>=◌
validate_access_token-ReadOnly env settings token = record { at = λ s. ground arith }

module _ (m : Action ℕ) (r : ReadOnly m) where
  catch-ReadOnly : ReadOnly (catch m token_error)
  unfolding catch
  catch-ReadOnly = record { at = λ s. step s (m s) (r.at s) }
    where
      step : (s : State) (p : Result ℕ × State) → p.1 ≡ s → (catch (λ _. p) token_error s).1 ≡ s
      step s (ok n, t) e = e
      step s (err x, t) e = e

  caught : (s : State) → Returns (catch m token_error) s (λ n _. (m s).0 ≡ ok n)
  unfolding catch
  caught s = record { at = λ n t h. step n t (m s) refl h }
    where
      step :
          (n : ℕ) (t : State) (p : Result ℕ × State)
          → m s ≡ p
          → catch (λ _. p) token_error s ≡ (ok n, t)
          → (m s).0 ≡ ok n
      step n t (ok k, u) e h = ground arith
      step n t (err x, u) e h = cc

pub resolve_user_principal-ReadOnly :
    (env : Env) (settings : AuthSettings) (token : Text)
    → ReadOnly (resolve_user_principal env settings token)
unfolding resolve_user_principal
resolve_user_principal-ReadOnly env settings token =
    ReadOnly-bind _ _ (catch-ReadOnly _ (validate_access_token-ReadOnly env settings token))
      λ n. search read_rules depth 12

-- A returned principal is that of an active user whom a valid token names.
pub resolve_user_principal-Returns :
    (env : Env) (settings : AuthSettings) (token : Text) (s : State)
    → Returns (resolve_user_principal env settings token) s (λ p _. Resolved env settings token s p)
unfolding resolve_user_principal
resolve_user_principal-Returns env settings token s =
    Returns-check _ _ (catch-ReadOnly _ (validate_access_token-ReadOnly env settings token))
      (caught _ (validate_access_token-ReadOnly env settings token) s)
      λ n valid. Returns-query _ _ (
        Returns-or_raise _ _ _ λ user found. Returns-raise_if _ _ _ λ active.
          Returns-pure _ (record {
            user_id = n;
            valid = valid;
            user = user;
            found = found;
            active = unnegated active;
            answer = refl;
          }))

-- From a session with nothing pending, a bearer token resolves to an active user whom an access
-- token that is valid at this time names, or an exception is raised; nothing is pending or committed.
pub resolve_user_principal-Outcome :
    (env : Env) (settings : AuthSettings) (token : Text) (s : State)
    → IsClean s
    → Outcome
        (λ p _. Resolved env settings token s p)
        s.committed
        (resolve_user_principal env settings token s)
resolve_user_principal-Outcome env settings token s c =
    outcome _ s (Atomic-of-ReadOnly _ (resolve_user_principal-ReadOnly env settings token))
      (resolve_user_principal-Returns env settings token s) c
