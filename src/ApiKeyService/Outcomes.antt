-- ===== src/ApiKeyService/Outcomes.antt =====
-- What the API key operations come to, on every branch.
use multi_tenant_saas_api.Base.{ℕ, subst, Text}
use multi_tenant_saas_api.Auth.{AuthSettings}
use multi_tenant_saas_api.Rbac.{CurrentPrincipal}
use multi_tenant_saas_api.ApiKeyService.{create_api_key, revoke_api_key}
use multi_tenant_saas_api.ApiKeyService.Atomicity.{create_api_key-Atomic, revoke_api_key-Atomic}
use multi_tenant_saas_api.ApiKeyService.Effects.{
  Created, Revoked, create_api_key-Returns_lem, revoke_api_key-Returns_lem,
}
use multi_tenant_saas_api.ApiKeyService.Authentication.{
  Principal, resolve_project_principal, resolve_project_principal-Atomic,
  resolve_project_principal-Returns,
}
use multi_tenant_saas_api.Exec.{Env, State}
use multi_tenant_saas_api.Exec.Rules.{IsClean}
use multi_tenant_saas_api.Exec.Returns.{Outcome, outcome}

-- From a session with nothing pending, creation either returns, was allowed to the caller, and has
-- committed the digest of the raw key that it answers with, and the event only; or it raises, leaves
-- nothing pending, and has committed nothing.
pub create_api_key-Outcome :
    (env : Env) (p : CurrentPrincipal) (o : ℕ) (name : Text) (s : State)
    → IsClean s
    → Outcome
        (λ v t. Created env p o name s.committed v t.committed)
        s.committed
        (create_api_key env p o name s)
create_api_key-Outcome env p o name s c =
    subst
      (λ d.
        Outcome (λ v t. Created env p o name d v t.committed) s.committed
          (create_api_key env p o name s))
      c
      (outcome _ s (create_api_key-Atomic env p o name) (create_api_key-Returns_lem env p o name s)
        c)

-- From a session with nothing pending, revocation either returns, was allowed to the caller, and has
-- revoked a key that was active with one event, or found the key revoked and changed nothing; or it
-- raises, leaves nothing pending, and has committed nothing.
pub revoke_api_key-Outcome :
    (env : Env) (p : CurrentPrincipal) (o i : ℕ) (s : State)
    → IsClean s
    → Outcome (Revoked p o i s) s.committed (revoke_api_key env p o i s)
revoke_api_key-Outcome env p o i s c =
    outcome _ s (revoke_api_key-Atomic env p o i) (revoke_api_key-Returns_lem env p o i s) c

-- From a session with nothing pending, a bearer token either stands for the active user whom a valid
-- access token names, and then the session is unchanged, or for the active key whose digest is the
-- token's, and then the key's row was committed with the clock's time as `last_used_at`, its update
-- time, and otherwise as it was, and nothing else; or an exception is raised, and nothing is pending
-- or committed.
pub resolve_project_principal-Outcome :
    (env : Env) (settings : AuthSettings) (token : Text) (s : State)
    → IsClean s
    → Outcome
        (Principal env settings token s)
        s.committed
        (resolve_project_principal env settings token s)
resolve_project_principal-Outcome env settings token s c =
    outcome _ s (resolve_project_principal-Atomic env settings token)
      (resolve_project_principal-Returns env settings token s) c
