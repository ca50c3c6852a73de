-- ===== src/ProjectService/Effects.antt =====
-- Who may use projects, and what the project operations do to the database when they return.
pub mod Changes
use multi_tenant_saas_api.Base.{
  ℕ, ◌≡◌, ◌∙◌, refl, true, false, not, Option, none, some, Text, arith,
}
use multi_tenant_saas_api.Domain.{Permission, AuditAction, ProjectStatus, contains_permission}
use multi_tenant_saas_api.Database.{Db, Project, project_fits}
use multi_tenant_saas_api.Exec.{Env, State, raise_if, ok, tenant_access_denied}
use multi_tenant_saas_api.Exec.Returns.{
  Returns, Returns-pure, Returns-bind, Returns-check, Returns-query, Returns-raise_if,
  Returns-commit, Returns-transaction, Returns-record_metric, or_raise-some,
}
use multi_tenant_saas_api.Repositories.Projects.{add_project, find_project}
use multi_tenant_saas_api.Repositories.Outcomes.OfProjects.{create_project-Returns}
use multi_tenant_saas_api.Rbac.{TenantContext}
use multi_tenant_saas_api.Rbac.Reads.{get_tenant_context-ReadOnly}
use multi_tenant_saas_api.Rbac.Access.{Authorised, get_tenant_context-Returns}
use multi_tenant_saas_api.Audit.Events.{Logged, Logged-of-Recorded, record_event-Returns}
use multi_tenant_saas_api.ApiKeyService.{ProjectPrincipal}
use multi_tenant_saas_api.ProjectService.{
  PublicProject, public_project_from_model, actor_user_id, actor_api_key_id,
  api_key_project_permissions, require_project_permission, get_authorised_project, insert_project,
  create_project,
}
use multi_tenant_saas_api.ProjectService.Atomicity.{require_project_permission-ReadOnly}

-- A user by the role in the organisation; a key in its own organisation, for projects only.
abbrev pub MayUse : ProjectPrincipal → ℕ → Permission → Db → Type 0
MayUse (ProjectPrincipal.user p) o permission db =
    (c : TenantContext) × Authorised p o permission db c
MayUse (ProjectPrincipal.key k) o permission db =
    (k.organisation_id ≡ o) × (contains_permission permission api_key_project_permissions ≡ true)

pub require_project_permission-Returns :
    (p : ProjectPrincipal) (o : ℕ) (permission : Permission) (s : State)
    → Returns (require_project_permission p o permission) s (λ _ _. MayUse p o permission s.session)
unfolding require_project_permission
require_project_permission-Returns (ProjectPrincipal.user p) o permission s =
    Returns-check _ _ (get_tenant_context-ReadOnly _ _ _) (get_tenant_context-Returns p o _ s)
      λ c authorised. Returns-pure _ (c, authorised)
require_project_permission-Returns (ProjectPrincipal.key k) o permission s =
    Returns-raise_if _ _ _
      λ own. record { at = λ x t h. (ground arith, granted permission s x t h) }
  where
    granted :
        (q : Permission) (u : State) (x : Unit {0}) (t : State)
        → raise_if (not (contains_permission q api_key_project_permissions)) tenant_access_denied u
          ≡ (ok x, t)
        → contains_permission q api_key_project_permissions ≡ true
    granted q u x t h = ground arith

-- The project is one of the organisation, and not deleted.
pub get_authorised_project-Returns :
    (p : ProjectPrincipal) (o i : ℕ) (permission : Permission) (s : State)
    → Returns
        (get_authorised_project p o i permission)
        s
        (λ q _. MayUse p o permission s.session × (find_project o i false s.session ≡ some q))
unfolding get_authorised_project
get_authorised_project-Returns p o i permission s =
    Returns-check _ _ (require_project_permission-ReadOnly p o permission)
      (require_project_permission-Returns p o permission s)
      λ x may. Returns-query _ _ (record { at = λ q t h. (may, or_raise-some _ _ s h) })

pub record Inserted (p : ProjectPrincipal) (o : ℕ) (name : Text) (d : Option Text)
    (st : ProjectStatus) (before : Db) (q : Project) (after : Db) : Type 0 where
  pub logged :
      Logged before after
        (add_project q)
        AuditAction.project_created
        (some o)
        (actor_user_id p)
        (actor_api_key_id p)
        (some q.id)
  pub fits : project_fits before q ≡ true
  pub in_organisation : q.organisation_id ≡ o
  pub has_name : q.name ≡ name
  pub has_description : q.description ≡ d
  pub has_status : q.status ≡ st
  pub by_user : q.created_by_user_id ≡ actor_user_id p
  pub last_by_user : q.updated_by_user_id ≡ actor_user_id p
  pub shown : q.deleted_at ≡ none

insert_project-Returns :
    (env : Env) (p : ProjectPrincipal) (o : ℕ) (name : Text) (d : Option Text) (st : ProjectStatus)
    (s : State)
    → Returns
        (insert_project env p o name d st)
        s
        (λ q t. Inserted p o name d st s.session q t.committed)
unfolding insert_project
insert_project-Returns env p o name d st s =
    Returns-bind _ _ (create_project-Returns env s o name st d (actor_user_id p)) λ q t new.
      Returns-bind _ _ (record_event-Returns env t _ _ _ _ _ _ _) λ v w recorded.
        Returns-commit env _ λ c es ec. Returns-record_metric _ _ λ m fs fc.
          Returns-pure q (record {
            logged = Logged-of-Recorded new.wrote.session recorded (fc ∙ ec);
            fits = new.fits;
            in_organisation = new.in_organisation;
            has_name = new.has_name;
            has_description = new.has_description;
            has_status = new.has_status;
            by_user = new.by_user;
            last_by_user = new.last_by_user;
            shown = new.shown;
          })

pub record Created (p : ProjectPrincipal) (o : ℕ) (name : Text) (d : Option Text)
    (st : ProjectStatus) (before : Db) (v : PublicProject) (after : Db) : Type 0 where
  pub may : MayUse p o Permission.write_projects before
  pub project : Project
  pub inserted : Inserted p o name d st before project after
  pub answer : v ≡ public_project_from_model project

-- A returned `create_project` was allowed, and has committed the project and its event only.
pub create_project-Returns_lem :
    (env : Env) (p : ProjectPrincipal) (o : ℕ) (name : Text) (d : Option Text) (st : ProjectStatus)
    (s : State)
    → Returns
        (create_project env p o name d st)
        s
        (λ v t. Created p o name d st s.session v t.committed)
unfolding create_project
create_project-Returns_lem env p o name d st s =
    Returns-check _ _ (require_project_permission-ReadOnly p o _)
      (require_project_permission-Returns p o _ s)
      λ x may.
        Returns-bind _ _ (Returns-transaction _ _ (insert_project-Returns env p o name d st s))
          λ q t inserted.
            Returns-pure _ (record { may = may; project = q; inserted = inserted; answer = refl })
