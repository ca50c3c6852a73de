-- ===== src/Server/Log/Reads.antt =====
-- What HTTP requests that list or get leave as it was.
use multi_tenant_saas_api.Base.{◌≡◌, true, Option, none, some, refl}
use multi_tenant_saas_api.Database.{Db}
use multi_tenant_saas_api.Exec.{Env, State}
use multi_tenant_saas_api.Repositories.IdempotencyRecords.{add_idempotency_record}
use multi_tenant_saas_api.Auth.{AuthSettings}
use multi_tenant_saas_api.Rbac.{CurrentPrincipal}
use multi_tenant_saas_api.ApiKeyService.{ProjectPrincipal}
use multi_tenant_saas_api.Invariants.{IsValid}
use multi_tenant_saas_api.Dependencies.{HttpAuthorizationCredentials}
use multi_tenant_saas_api.Server.{HttpCall, perform, respond}
use multi_tenant_saas_api.Server.Rules.{Moves}
use multi_tenant_saas_api.Server.Calls.{reads, reads-Allows}
use multi_tenant_saas_api.Server.Requests.{Trusted, me-Moves, user-Moves, principal-Moves}
use multi_tenant_saas_api.Server.Tracking.{Follows, writes}
use multi_tenant_saas_api.Server.Validity.{IsValid-add_idempotency_record}
use multi_tenant_saas_api.Server.Log.{SameData, SameData-refl, SameData-then, Quiet}
use multi_tenant_saas_api.Server.Log.Requests.{entries}

-- A request that lists or gets, whoever makes it.
abbrev pub IsReading : HttpCall → Type 0
IsReading (HttpCall.register payload) = ⊥
IsReading (HttpCall.login payload) = ⊥
IsReading HttpCall.me = Unit
IsReading (HttpCall.by_user call) = (p : CurrentPrincipal) → reads (call p) ≡ true
IsReading (HttpCall.by_principal call) = (p : ProjectPrincipal) → reads (call p) ≡ true

module _ (base : Db) where
  -- No organisation may be touched.
  unchanged : Follows (Quiet base) (Quiet base) (λ _. ⊥)
  unfolding add_idempotency_record
  unchanged = record {
    widens = λ db h. h;
    valid = λ db h. h.valid;
    follow = λ h actor may accounted v. absurd may;
    store = λ r db h. record {
      valid = IsValid-add_idempotency_record r db h.valid;
      same = SameData-then h.same (record {
        users = refl;
        organisations = refl;
        memberships = refl;
        projects = refl;
        api_keys = refl;
        audit_events = refl;
      });
    };
  }

  module _ (env : Env) (settings : AuthSettings) where
    trusted : (found : Option HttpAuthorizationCredentials) → Trusted (λ _. ⊥) (λ _. Unit) found
    trusted none = tt
    trusted (some header) = tt

    reading-Moves :
        (found : Option HttpAuthorizationCredentials) (call : HttpCall)
        → IsReading call
        → Moves (Quiet base) (Quiet base) (perform env settings found call)
    reading-Moves found (HttpCall.register payload) r = absurd r
    reading-Moves found (HttpCall.login payload) r = absurd r
    reading-Moves found HttpCall.me r =
        me-Moves env settings (Quiet base) (Quiet base) (λ db h. h) (λ _. ⊥) (λ _. Unit)
          (writes env (Quiet base) (Quiet base) (λ _. ⊥) unchanged)
          (entries env settings base).resolve_project_principal found
    reading-Moves found (HttpCall.by_user call) r =
        user-Moves env settings (Quiet base) (Quiet base) (λ db h. h) (λ _. ⊥) (λ _. Unit)
          (writes env (Quiet base) (Quiet base) (λ _. ⊥) unchanged)
          (entries env settings base).resolve_project_principal found call
          λ p. reads-Allows (λ _. ⊥) (call p) (r p)
    reading-Moves found (HttpCall.by_principal call) r =
        principal-Moves env settings (Quiet base) (Quiet base) (λ db h. h) (λ _. ⊥) (λ _. Unit)
          (writes env (Quiet base) (Quiet base) (λ _. ⊥) unchanged)
          (entries env settings base).resolve_project_principal found call (trusted found)
          λ p. reads-Allows (λ _. ⊥) (call p) (r p)

-- From a valid database, an HTTP request that lists or gets, whatever its bearer token and whether it
-- is answered or raises, commits no change to a user, organisation, membership, project or event, and
-- of a key only the times of its use and update.
pub respond-SameData :
    (env : Env) (settings : AuthSettings) (found : Option HttpAuthorizationCredentials)
    (call : HttpCall) (s : State)
    → IsValid s.committed
    → IsReading call
    → SameData s.committed (respond env settings found call s).1.committed
unfolding respond
respond-SameData env settings found call s v r =
    ((reading-Moves s.committed env settings found call r).holds
      (record s { session = s.committed }) refl
      (record { valid = v; same = SameData-refl s.committed })).same
