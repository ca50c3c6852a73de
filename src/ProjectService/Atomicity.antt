-- ===== src/ProjectService/Atomicity.antt =====
-- Each project operation is one unit of work.
use multi_tenant_saas_api.Base.{ℕ, Bool, Option, Text}
use multi_tenant_saas_api.Domain.{Permission, ProjectStatus}
use multi_tenant_saas_api.Database.{Project}
use multi_tenant_saas_api.Exec.{Env}
use multi_tenant_saas_api.Exec.Rules.{
  ReadOnly, Commits, Atomic, read_rules, commit_rules, atomic_rules,
}
use multi_tenant_saas_api.Repositories.Pending.{
  create_project-KeepsCommitted, update_project-KeepsCommitted, delete_project-KeepsCommitted,
}
use multi_tenant_saas_api.Rbac.Reads.{get_tenant_context-ReadOnly}
use multi_tenant_saas_api.Audit.Pending.{record_event-KeepsCommitted}
use multi_tenant_saas_api.ApiKeyService.{ProjectPrincipal}
use multi_tenant_saas_api.ProjectService.{
  require_project_permission, get_authorised_project, insert_project, create_project, write_project,
  update_project, soft_delete, delete_project,
}

pub require_project_permission-ReadOnly :
    (p : ProjectPrincipal) (o : ℕ) (r : Permission) → ReadOnly (require_project_permission p o r)
unfolding require_project_permission
require_project_permission-ReadOnly (ProjectPrincipal.user p) o r =
    search (read_rules, get_tenant_context-ReadOnly)
require_project_permission-ReadOnly (ProjectPrincipal.key k) o r = search read_rules

pub get_authorised_project-ReadOnly :
    (p : ProjectPrincipal) (o i : ℕ) (r : Permission) → ReadOnly (get_authorised_project p o i r)
unfolding get_authorised_project
get_authorised_project-ReadOnly p o i r = search (read_rules, require_project_permission-ReadOnly)

module _ (env : Env) where
  insert_project-Commits :
      (p : ProjectPrincipal) (o : ℕ) (n : Text) (d : Option Text) (s : ProjectStatus)
      → Commits (insert_project env p o n d s)
  unfolding insert_project
  insert_project-Commits p o n d s =
      search (commit_rules, create_project-KeepsCommitted, record_event-KeepsCommitted)

  write_project-Commits :
      (p : ProjectPrincipal) (o : ℕ) (q : Project) (n d : Option Text) (b : Bool)
      (s : Option ProjectStatus)
      → Commits (write_project env p o q n d b s)
  unfolding write_project
  write_project-Commits p o q n d b s =
      search (commit_rules, update_project-KeepsCommitted, record_event-KeepsCommitted)

  soft_delete-Commits :
      (p : ProjectPrincipal) (o : ℕ) (q : Project) → Commits (soft_delete env p o q)
  unfolding soft_delete
  soft_delete-Commits p o q =
      search (commit_rules, delete_project-KeepsCommitted, record_event-KeepsCommitted)

  pub create_project-Atomic :
      (p : ProjectPrincipal) (o : ℕ) (n : Text) (d : Option Text) (s : ProjectStatus)
      → Atomic (create_project env p o n d s)
  unfolding create_project
  create_project-Atomic p o n d s =
      search (atomic_rules, require_project_permission-ReadOnly, insert_project-Commits)

  pub update_project-Atomic :
      (p : ProjectPrincipal) (o i : ℕ) (n d : Option Text) (b : Bool) (s : Option ProjectStatus)
      → Atomic (update_project env p o i n d b s)
  unfolding update_project
  update_project-Atomic p o i n d b s =
      search (atomic_rules, get_authorised_project-ReadOnly, write_project-Commits)

  pub delete_project-Atomic : (p : ProjectPrincipal) (o i : ℕ) → Atomic (delete_project env p o i)
  unfolding delete_project
  delete_project-Atomic p o i =
      search (atomic_rules, get_authorised_project-ReadOnly, soft_delete-Commits)
