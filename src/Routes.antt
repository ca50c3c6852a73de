-- ===== src/Routes.antt =====
-- routes/: the handlers. Each runs one method of a service under its `except` clauses, and makes the
-- response. The principal is the one that Dependencies resolves; bodies and query parameters are
-- those that passed the validation of Schemas.
pub mod Projects
pub mod Organisations
pub mod ApiKeys
pub mod Memberships
pub mod AuditEvents
pub mod Authentication
pub mod Router
pub mod Refusals
pub mod Errors
pub mod Pages
pub mod Snapshots
pub mod Replays
pub mod Denials
use multi_tenant_saas_api.Base.{ℕ, false, Text, codes}
use multi_tenant_saas_api.Json.{Fields}
use multi_tenant_saas_api.Exec.{
  Action, Error, raise, catch, http_exception, organisation_not_found, permission_denied,
  tenant_access_denied, idempotency_conflict,
}

abbrev pub http_error : ℕ → Text → Error
http_error status_code detail =
    http_exception (record { status_code = status_code; detail = detail; asks_for_bearer = false })

abbrev pub not_found : Text → Error
not_found detail = http_error 404 detail

abbrev pub forbidden : Text → Error
forbidden detail = http_error 403 detail

abbrev pub conflict : Text → Error
conflict detail = http_error 409 detail

-- `try: m` with `except ... as exc: raise ... from exc`: `translate` gives what is raised instead.
abbrev pub translated : {A : Type 0} → (Error → Error) → Action A → Action A
translated translate m = catch m λ e. raise (translate e)

-- The clauses that most handlers have.
abbrev pub tenant_error : Error → Error
tenant_error organisation_not_found = not_found (codes "organisation was not found")
tenant_error permission_denied = forbidden (codes "insufficient permissions for this organisation")
tenant_error tenant_access_denied = forbidden (codes "organisation access denied")
tenant_error e = e

abbrev pub idempotency_conflict_response : Error
idempotency_conflict_response =
    conflict (codes "idempotency key was already used with a different request body")

abbrev pub idempotency_error : Error → Error
idempotency_error idempotency_conflict = idempotency_conflict_response
idempotency_error e = e

-- The clauses round the check and the lookup of an idempotent creation in an organisation.
abbrev pub lookup_error : Error → Error
lookup_error idempotency_conflict = idempotency_conflict_response
lookup_error e = tenant_error e

-- What a creation answers with: its response, with status 201, or a stored one, with its status,
-- its body, and the header `Idempotency-Replayed: true`.
pub data Reply (A : Type 0) : Type 0 where
  created : A → Reply A
  replayed : ℕ → Fields → Reply A
