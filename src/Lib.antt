-- ===== src/Lib.antt =====
-- A model of the multi-tenant SaaS API, and the theorems that make it safe to share one database
-- between tenants. Paths are from the root of the repository, below src/multi_tenant_saas_api/.
--
-- The program. middleware.py gives each HTTP request an identifier and records it. dependencies.py
-- opens a database session and turns the bearer token into a principal, a user or an organisation's
-- API key, through services/rbac.py and services/api_keys.py. The handler of a route (routes/) looks
-- up a stored response where the request has an idempotency key, hands the principal and the body
-- to one method of a service, translates its exceptions to HTTP ones, and builds the response, which
-- it stores under the key. The method checks the caller's role in the organisation
-- (RBACService.get_tenant_context, or the permissions of a key), reads and writes rows through the
-- repositories, records an audit event, and commits, or rolls back and raises.
--
-- The files.
--   Base, Base/*: tables as lists of rows (select, update, delete, order, page), texts as code
--     points, unique constraints, and counting.
--   Domain: domain.py, with the permission table. Json: JSON values, and json.dumps.
--   Database: database/models.py, rows and the constraints that a written row must pass.
--   Exec: a method is a function `State → Result A × State`. The state holds the committed
--     database, the session's view of it, the metrics recorded, and a tick. `flush` writes to the
--     view, `commit` copies the view to the committed database, `rollback` the other way; either of
--     the first two may fail. Exec/Rules, Exec/Returns and Exec/Raises have the proof rules for such
--     methods.
--   Repositories/*: repositories/, one module for each class, method for method.
--     Repositories/Edits and Outcomes state what each write leaves.
--   Rbac, Rbac/Principals: services/rbac.py. Audit: services/audit.py.
--   MembershipService, OrganisationService, ProjectService, ApiKeyService, AuthService, Idempotency:
--     services/memberships.py, organisations.py, projects.py, api_keys.py, auth_api.py,
--     idempotency.py. Auth: services/auth.py. In each, Atomicity has the unit-of-work proofs,
--     Effects says what a returned call did to the database, and Outcomes joins the two.
--     Function names are those of the source, without the leading underscore of private ones.
--     The body of a `try` is a function of its own: insert_member, change_role and so on.
--   Reads: the operations that list or get only read. Access: what docs and domain.py say of who may
--     use an organisation. Invariants: what every operation of a service keeps. Tenancy: the rows of
--     an organisation, and what an operation, called with a principal, may change and must log.
--   Schemas/Fields, Schemas/Bodies, Schemas/Responses: schemas/, the bounds of each model as a test,
--     and the JSON of a body or a response. Dependencies: the bearer token (dependencies.py).
--   Routes, Routes/Projects, Organisations, ApiKeys, Memberships, AuditEvents (routes/audit.py),
--     Authentication (routes/auth.py): one function for each handler, its except clauses as a
--     function on exceptions. Routes/Router: which call has which handler. Routes/Refusals and
--     Denials, Replays, Snapshots, Pages, Errors: what the handlers promise.
--   Server: a whole request, in a session of its own (dependencies.get_session), from the header to
--     the answer, and requests one after another. Server/Rules, Calls and Requests carry a property
--     of the database, or a step from one to another, through every request, given what each write
--     does; Server/Tracking has the steps of the services' operations. Server/Validity, Isolation and
--     Log give three such properties. Server/Entitlement: who is answered.
--   RequestContext: request_context.py and middleware.py.
--   Examples: the theorems at concrete inputs, and tests.
--
-- Parameters. `Env` holds what is not in the repository: the random generator and the clock, read
-- at a tick; the failures of the database driver; SHA-256, the password hasher, the JWT library,
-- email-validator, the text of a time, the database's collation and its ILIKE. The theorem on access
-- tokens assumes what the JWT library documents (JwtLaws in Auth/Tokens); no other theorem assumes
-- anything of a parameter: where two identifiers or two hashes collide, the constraints of the
-- database refuse the row, as they do in the program.
--
-- Choices. UUIDs and times (microseconds) are numbers. A text is a list of code points; `lower` maps
-- the letters of ASCII and the two other characters whose lower case has one, and leaves the rest,
-- so for addresses and slugs it is exact on ASCII. `uuid.UUID(text)` refuses the signs, underscores
-- and prefix that Python's int would take. An update with no net change writes nothing, as the
-- session's flush does. Fuel occurs in Json/Dumps, where a number has fewer digits than its
-- successor, and in Auth/Uuid, where a text loses a character a step; each starts at such a bound.
--
-- Not modelled: what the web framework does before a handler (parsing, coercion, its own 422
-- responses), the health, readiness and metrics pages, the Prometheus counters, configuration, the
-- format of log records, migrations and scripts. Requests do not overlap here: two sessions that
-- each check for another owner before either commits are outside these theorems.
pub mod Base
pub mod Domain
pub mod Json
pub mod Database
pub mod Exec
pub mod Reads
pub mod Repositories
pub mod Rbac
pub mod Audit
pub mod Auth
pub mod AuthService
pub mod MembershipService
pub mod OrganisationService
pub mod ApiKeyService
pub mod ProjectService
pub mod Idempotency
pub mod Invariants
pub mod Tenancy
pub mod Access
pub mod Examples
pub mod RequestContext
pub mod Schemas
pub mod Dependencies
pub mod Routes
pub mod Server
