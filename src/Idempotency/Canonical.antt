-- ===== src/Idempotency/Canonical.antt =====
-- The hash of a request is that of its canonical JSON.
use multi_tenant_saas_api.Base.{ℕ, ◌≡◌, refl, ap, Option, none, some, Text}
use multi_tenant_saas_api.Json.{Fields}
use multi_tenant_saas_api.Json.Dumps.Order.{Reordered, dumps-Reordered}
use multi_tenant_saas_api.Exec.{Env, State}
use multi_tenant_saas_api.ApiKeyService.{ProjectPrincipal}
use multi_tenant_saas_api.Idempotency.{request_hash, start_request}

request_hash-Reordered :
    (env : Env) {fs gs : Fields} → Reordered fs gs → request_hash env fs ≡ request_hash env gs
unfolding request_hash
request_hash-Reordered env r = ap env.sha256 (dumps-Reordered r)

-- Two requests whose bodies have the same fields in another order get the same decision and leave
-- the same state, with whatever key, principal and session: a repetition that lists its fields in
-- another order is no conflict.
pub start_request-Reordered :
    (env : Env) (key : Option Text) (p : ProjectPrincipal) (method path : Text) (o : Option ℕ)
    (s : State) (fs gs : Fields)
    → Reordered fs gs
    → start_request env key p method path fs o s ≡ start_request env key p method path gs o s
unfolding start_request
start_request-Reordered env none p method path o s fs gs r = refl
start_request-Reordered env (some key) p method path o s fs gs r =
    rw (request_hash-Reordered env r) refl
