-- ===== src/Routes/Denials.antt =====
-- Every handler in an organisation keeps to the caller's permission, stored responses included.
use multi_tenant_saas_api.Base.{ℕ, ◌≡◌, refl, Bool, true, false, Option, none, some, Text}
use multi_tenant_saas_api.Domain.{Permission}
use multi_tenant_saas_api.Database.{Db, Project}
use multi_tenant_saas_api.Exec.{Env, State, Action, Error, ◌>>=◌, catch}
use multi_tenant_saas_api.Rbac.{CurrentPrincipal, TenantContext, get_tenant_context}
use multi_tenant_saas_api.ApiKeyService.{ProjectPrincipal}
use multi_tenant_saas_api.ApiKeyService
use multi_tenant_saas_api.ProjectService
use multi_tenant_saas_api.ProjectService.{require_project_permission, get_authorised_project}
use multi_tenant_saas_api.OrganisationService
use multi_tenant_saas_api.MembershipService
use multi_tenant_saas_api.Audit.{list_organisation_events}
use multi_tenant_saas_api.Idempotency.{IdempotencyContext, start_request}
use multi_tenant_saas_api.Schemas.Bodies.{ProjectCreateRequest, ApiKeyCreateRequest}
use multi_tenant_saas_api.Access.{user_may, principal_may}
use multi_tenant_saas_api.Routes.{translated, tenant_error, lookup_error}
use multi_tenant_saas_api.Routes.Refusals.{
  Refuses, Denied, Translates, Translates-of, Denied-translated, Denied-bind, Refuses-bind,
  get_tenant_context-Refuses, require_project_permission-Refuses,
}
use multi_tenant_saas_api.Routes.Organisations
use multi_tenant_saas_api.Routes.Memberships
use multi_tenant_saas_api.Routes.Projects
use multi_tenant_saas_api.Routes.ApiKeys
use multi_tenant_saas_api.Routes.AuditEvents
use multi_tenant_saas_api.Routes.Router.{Call, Answer, answered, route}

-- Whether the caller has the permission that the call takes; no organisation is named by the first
-- two.
abbrev pub call_authorised : Call → Db → Bool
call_authorised (Call.post_orgs k p b m u) db = true
call_authorised (Call.get_orgs p l i) db = true
call_authorised (Call.get_org p o) db = user_may p o Permission.read_organisation db
call_authorised (Call.patch_org p o b) db = user_may p o Permission.update_organisation db
call_authorised (Call.get_members p o l i) db = user_may p o Permission.manage_members db
call_authorised (Call.post_members p o b) db = user_may p o Permission.manage_members db
call_authorised (Call.patch_member p o i b) db = user_may p o Permission.manage_members db
call_authorised (Call.delete_member p o i) db = user_may p o Permission.manage_members db
call_authorised (Call.post_projects k p o b m u) db = principal_may p o Permission.write_projects db
call_authorised (Call.get_projects p o l i st n f d) db =
    principal_may p o Permission.read_projects db
call_authorised (Call.get_project p o i) db = principal_may p o Permission.read_projects db
call_authorised (Call.patch_project p o i b) db = principal_may p o Permission.write_projects db
call_authorised (Call.delete_project p o i) db = principal_may p o Permission.write_projects db
call_authorised (Call.post_api_keys k p o b m u) db = user_may p o Permission.manage_api_keys db
call_authorised (Call.get_api_keys p o l i) db = user_may p o Permission.manage_api_keys db
call_authorised (Call.delete_api_key p o i) db = user_may p o Permission.manage_api_keys db
call_authorised (Call.get_audit_events p o l i) db = user_may p o Permission.read_audit_events db

-- A method that begins with a check, under the clauses of its handler.
module _ {A : Type 0} (s : State) (o : ℕ) (permission : Permission) (translate : Error → Error)
    (t : Translates translate) where
  by_context :
      (p : CurrentPrincipal) (f : TenantContext → Action A)
      → user_may p o permission s.session ≡ false
      → Denied (translated translate (get_tenant_context p o (some permission) >>= f)) s
  by_context p f denied =
      Denied-translated translate _ t
        (Refuses-bind _ f (get_tenant_context-Refuses p o permission s denied))

  by_permission :
      (p : ProjectPrincipal) (f : Unit {0} → Action A)
      → principal_may p o permission s.session ≡ false
      → Denied (translated translate (require_project_permission p o permission >>= f)) s
  by_permission p f denied =
      Denied-translated translate _ t
        (Refuses-bind _ f (require_project_permission-Refuses p o permission s denied))

  by_project :
      (p : ProjectPrincipal) (i : ℕ) (f : Project → Action A)
      → principal_may p o permission s.session ≡ false
      → Denied (translated translate (get_authorised_project p o i permission >>= f)) s
  unfolding get_authorised_project
  by_project p i f denied = Denied-translated translate _ t (
      Refuses-bind _ f
        (Refuses-bind _ _ (require_project_permission-Refuses p o permission s denied)))

tenant : Translates tenant_error
tenant = Translates-of tenant_error refl refl refl

answered-Denied :
    {A : Type 0} (m : Action A) (f : A → Answer) {s : State} → Denied m s → Denied (answered m f) s
unfolding answered
answered-Denied m f d = Denied-bind m _ d

lookup : Translates lookup_error
lookup = Translates-of lookup_error refl refl refl

-- A creation without a key is checked by the service, one with a key before the lookup.
module _ (env : Env) (s : State) (o : ℕ) where
  store_project-Denied :
      (p : ProjectPrincipal) (b : ProjectCreateRequest) (c : Option IdempotencyContext)
      → principal_may p o Permission.write_projects s.session ≡ false
      → Denied (Projects.create_and_store env p o b c) s
  unfolding Projects.create_and_store ProjectService.create_project
  store_project-Denied p b c denied = Denied-bind _ _ (by_permission s o _ _ tenant p _ denied)

  post_projects-Denied :
      (k : Option Text) (p : ProjectPrincipal) (b : ProjectCreateRequest) (m u : Text)
      → principal_may p o Permission.write_projects s.session ≡ false
      → Denied (Projects.create_project env k p o b m u) s
  unfolding Projects.create_project Projects.begin_create start_request catch ◌>>=◌
  post_projects-Denied none p b m u denied =
      let d = store_project-Denied p b none denied in
      record { exception = d.exception; status = d.status; raised = d.raised }
  post_projects-Denied (some key) p b m u denied =
      Denied-bind (Projects.begin_create env (some key) p o b m u) _
        (by_permission s o _ _ lookup p _ denied)

  store_key-Denied :
      (p : CurrentPrincipal) (b : ApiKeyCreateRequest) (c : Option IdempotencyContext)
      → user_may p o Permission.manage_api_keys s.session ≡ false
      → Denied (ApiKeys.create_and_store env p o b c) s
  unfolding ApiKeys.create_and_store ApiKeyService.create_api_key
  store_key-Denied p b c denied = Denied-bind _ _ (by_context s o _ _ tenant p _ denied)

  post_api_keys-Denied :
      (k : Option Text) (p : CurrentPrincipal) (b : ApiKeyCreateRequest) (m u : Text)
      → user_may p o Permission.manage_api_keys s.session ≡ false
      → Denied (ApiKeys.create_api_key env k p o b m u) s
  unfolding ApiKeys.create_api_key ApiKeys.begin_create start_request catch ◌>>=◌
      ApiKeyService.ensure_can_create_api_key
  post_api_keys-Denied none p b m u denied =
      let d = store_key-Denied p b none denied in
      record { exception = d.exception; status = d.status; raised = d.raised }
  post_api_keys-Denied (some key) p b m u denied =
      Denied-bind (ApiKeys.begin_create env (some key) p o b m u) _ (
        Denied-translated lookup_error _ lookup
          (Refuses-bind _ _ (Refuses-bind _ _ (get_tenant_context-Refuses p o _ s denied))))

list_organisation_events-Refuses :
    (s : State) (o : ℕ) (p : CurrentPrincipal) (l i : ℕ)
    → user_may p o Permission.read_audit_events s.session ≡ false
    → Refuses (list_organisation_events true p o l i) s
unfolding list_organisation_events ◌>>=◌
list_organisation_events-Refuses s o p l i denied =
    let r = get_tenant_context-Refuses p o Permission.read_audit_events s denied in
    record { error = r.error; is_refusal = r.is_refusal; raised = rw r.raised refl }

-- A caller who lacks the permission that a call takes in its organisation, as a member by role or as
-- a key of it for projects only, gets status 403 or 404, whether or not a response is stored for the
-- call's idempotency key, and nothing at all changes.
pub route-Denied :
    (env : Env) (call : Call) (s : State)
    → call_authorised call s.session ≡ false
    → Denied (route env call) s
unfolding route Organisations.get_organisation OrganisationService.get_organisation
    Organisations.update_organisation OrganisationService.update_organisation
    Memberships.list_members MembershipService.list_members Memberships.add_member
    MembershipService.add_member Memberships.update_member_role MembershipService.update_member_role
    Memberships.remove_member MembershipService.remove_member Projects.list_projects
    ProjectService.list_projects Projects.get_project ProjectService.get_project
    Projects.update_project ProjectService.update_project Projects.delete_project
    ProjectService.delete_project ApiKeys.list_api_keys ApiKeyService.list_api_keys
    ApiKeys.revoke_api_key ApiKeyService.revoke_api_key AuditEvents.list_audit_events
    list_organisation_events
route-Denied env (Call.post_orgs k p b m u) s denied = absurd (cc)
route-Denied env (Call.get_orgs p l i) s denied = absurd (cc)
route-Denied env (Call.get_org p o) s denied = answered-Denied _ _ (
    Denied-bind _ _
      (by_context s o _ _ (Translates-of Organisations.get_error refl refl refl) p _ denied))
route-Denied env (Call.patch_org p o b) s denied = answered-Denied _ _ (
    Denied-bind _ _
      (by_context s o _ _ (Translates-of Organisations.update_error refl refl refl) p _ denied))
route-Denied env (Call.get_members p o l i) s denied = answered-Denied _ _ (
    Denied-bind _ _
      (by_context s o _ _ (Translates-of Memberships.list_error refl refl refl) p _ denied))
route-Denied env (Call.post_members p o b) s denied = answered-Denied _ _ (
    Denied-bind _ _
      (by_context s o _ _ (Translates-of Memberships.add_error refl refl refl) p _ denied))
route-Denied env (Call.patch_member p o i b) s denied = answered-Denied _ _ (
    Denied-bind _ _
      (by_context s o _ _ (Translates-of Memberships.update_error refl refl refl) p _ denied))
route-Denied env (Call.delete_member p o i) s denied =
    answered-Denied _ _
      (by_context s o _ _ (Translates-of Memberships.remove_error refl refl refl) p _ denied)
route-Denied env (Call.post_projects k p o b m u) s denied =
    answered-Denied _ _ (post_projects-Denied env s o k p b m u denied)
route-Denied env (Call.get_projects p o l i st n f d) s denied =
    answered-Denied _ _ (Denied-bind _ _ (by_permission s o _ _ tenant p _ denied))
route-Denied env (Call.get_project p o i) s denied = answered-Denied _ _ (
    Denied-bind _ _
      (by_project s o _ _ (Translates-of Projects.project_error refl refl refl) p i _ denied))
route-Denied env (Call.patch_project p o i b) s denied = answered-Denied _ _ (
    Denied-bind _ _
      (by_project s o _ _ (Translates-of Projects.project_error refl refl refl) p i _ denied))
route-Denied env (Call.delete_project p o i) s denied =
    answered-Denied _ _
      (by_project s o _ _ (Translates-of Projects.project_error refl refl refl) p i _ denied)
route-Denied env (Call.post_api_keys k p o b m u) s denied =
    answered-Denied _ _ (post_api_keys-Denied env s o k p b m u denied)
route-Denied env (Call.get_api_keys p o l i) s denied =
    answered-Denied _ _ (Denied-bind _ _ (by_context s o _ _ tenant p _ denied))
route-Denied env (Call.delete_api_key p o i) s denied = answered-Denied _ _ (
    Denied-bind _ _
      (by_context s o _ _ (Translates-of ApiKeys.revoke_error refl refl refl) p _ denied))
route-Denied env (Call.get_audit_events p o l i) s denied = answered-Denied _ _ (
    Denied-bind _ _
      (Denied-translated tenant_error _ tenant (list_organisation_events-Refuses s o p l i denied)))
