-- ===== src/ProjectService/Outcomes.antt =====
-- What each writing project operation comes to, on every branch.
use multi_tenant_saas_api.Base.{ℕ, subst, Bool, Option, Text}
use multi_tenant_saas_api.Domain.{ProjectStatus}
use multi_tenant_saas_api.ApiKeyService.{ProjectPrincipal}
use multi_tenant_saas_api.ProjectService.{create_project, update_project, delete_project}
use multi_tenant_saas_api.ProjectService.Atomicity.{
  create_project-Atomic, update_project-Atomic, delete_project-Atomic,
}
use multi_tenant_saas_api.ProjectService.Effects.{Created, create_project-Returns_lem}
use multi_tenant_saas_api.ProjectService.Effects.Changes.{
  Updated, Deleted, update_project-Returns_lem, delete_project-Returns_lem,
}
use multi_tenant_saas_api.Exec.{Env, State}
use multi_tenant_saas_api.Exec.Rules.{IsClean}
use multi_tenant_saas_api.Exec.Returns.{Outcome, outcome}

-- From a session with nothing pending, creation either returns, was allowed to the user or the key,
-- and has committed a project of the requested name, description and status, created by the calling
-- user, if it is one, and its event only; or it raises, leaves nothing pending, and has committed
-- nothing.
pub create_project-Outcome :
    (env : Env) (p : ProjectPrincipal) (o : ℕ) (name : Text) (d : Option Text) (st : ProjectStatus)
    (s : State)
    → IsClean s
    → Outcome
        (λ v t. Created p o name d st s.committed v t.committed)
        s.committed
        (create_project env p o name d st s)
create_project-Outcome env p o name d st s c =
    subst
      (λ start.
        Outcome (λ v t. Created p o name d st start v t.committed) s.committed
          (create_project env p o name d st s))
      c
      (outcome _ s (create_project-Atomic env p o name d st)
        (create_project-Returns_lem env p o name d st s) c)

-- From a session with nothing pending, an update either returns, was allowed, found the project in
-- the organisation and not deleted, and has committed its row with the name and the status that were
-- asked for, or the old ones where none was, the description if the caller provided one, `None`
-- included, the calling user, if it is one, as the last to update it, and its event only; or it
-- raises, leaves nothing pending, and has committed nothing.
pub update_project-Outcome :
    (env : Env) (p : ProjectPrincipal) (o i : ℕ) (name d : Option Text) (b : Bool)
    (st : Option ProjectStatus) (s : State)
    → IsClean s
    → Outcome
        (λ v t. Updated p o i name d b st s.committed v t.committed)
        s.committed
        (update_project env p o i name d b st s)
update_project-Outcome env p o i name d b st s c =
    subst
      (λ start.
        Outcome (λ v t. Updated p o i name d b st start v t.committed) s.committed
          (update_project env p o i name d b st s))
      c
      (outcome _ s (update_project-Atomic env p o i name d b st)
        (update_project-Returns_lem env p o i name d b st s) c)

-- From a session with nothing pending, a deletion either returns, was allowed, found the project in
-- the organisation and not deleted, and has committed its row as deleted and its event only; or it
-- raises, leaves nothing pending, and has committed nothing.
pub delete_project-Outcome :
    (env : Env) (p : ProjectPrincipal) (o i : ℕ) (s : State)
    → IsClean s
    → Outcome
        (λ _ t. Deleted p o i s.committed t.committed)
        s.committed
        (delete_project env p o i s)
delete_project-Outcome env p o i s c =
    subst
      (λ start.
        Outcome (λ _ t. Deleted p o i start t.committed) s.committed (delete_project env p o i s))
      c (outcome _ s (delete_project-Atomic env p o i) (delete_project-Returns_lem env p o i s) c)
