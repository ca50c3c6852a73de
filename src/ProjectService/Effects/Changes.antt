-- ===== src/ProjectService/Effects/Changes.antt =====
-- What an update and a deletion of a project do to the database.
use multi_tenant_saas_api.Base.{
  ℕ, ◌≡◌, ◌≢◌, ◌⊎◌, inl, inr, refl, ap, Bool, true, false, Option, none, some, Text, if◌then◌else◌,
}
use multi_tenant_saas_api.Domain.{Permission, AuditAction, ProjectStatus}
use multi_tenant_saas_api.Database.{Db, Project}
use multi_tenant_saas_api.Exec.{Env, State}
use multi_tenant_saas_api.Exec.Returns.{
  Returns, Returns-pure, Returns-bind, Returns-check, Returns-commit, Returns-transaction,
}
use multi_tenant_saas_api.Repositories.Projects.{Update, put_project, find_project}
use multi_tenant_saas_api.Repositories.Edits.{IsGiven, IsUpdated, IsWriter}
use multi_tenant_saas_api.Repositories.Outcomes.{Wrote}
use multi_tenant_saas_api.Repositories.Outcomes.OfProjects.{
  EditedProject, update_project-Returns, delete_project-Returns,
}
use multi_tenant_saas_api.Audit.Events.{Logged, Logged-of-Recorded, record_event-Returns}
use multi_tenant_saas_api.ApiKeyService.{ProjectPrincipal}
use multi_tenant_saas_api.ProjectService.{
  PublicProject, public_project_from_model, actor_user_id, actor_api_key_id, description_update,
  write_project, update_project, soft_delete, delete_project,
}
use multi_tenant_saas_api.ProjectService.Atomicity.{get_authorised_project-ReadOnly}
use multi_tenant_saas_api.ProjectService.Effects.{MayUse, get_authorised_project-Returns}

-- The row has the fields that were asked for and its other ones, is as it was or was rewritten under
-- its identifier, and one event tells of it.
pub record Rewritten (p : ProjectPrincipal) (o : ℕ) (name d : Option Text) (b : Bool)
    (st : Option ProjectStatus) (old : Project) (before : Db) (q : Project) (after : Db)
    : Type 0 where
  pub middle : Db
  pub change : (middle ≡ before) × (q ≡ old) ⊎ (middle ≡ put_project q before)
  pub logged :
      Logged middle after
        (λ d. d)
        AuditAction.project_updated
        (some o)
        (actor_user_id p)
        (actor_api_key_id p)
        (some q.id)
  pub has_id : q.id ≡ old.id
  pub in_organisation : q.organisation_id ≡ old.organisation_id
  pub has_deleted_at : q.deleted_at ≡ old.deleted_at
  pub has_creator : q.created_by_user_id ≡ old.created_by_user_id
  pub has_created_at : q.created_at ≡ old.created_at
  pub has_name : IsGiven name old.name q.name
  pub has_description : q.description ≡ (if b then d else old.description)
  pub has_status : IsGiven st old.status q.status
  pub has_writer : IsWriter (actor_user_id p) old.updated_by_user_id q.updated_by_user_id

described :
    (b : Bool) (d old new : Option Text)
    → IsUpdated (description_update b d) old new
    → new ≡ (if b then d else old)
described true d old new is = is
described false d old new is = is

middle_of :
    {env : Env} {s t : State} {name : Option Text} {d : Update (Option Text)}
    {st : Option ProjectStatus} {u : Option ℕ} {old q : Project}
    → EditedProject env s name d st u old q t
    → (t.session ≡ s.session) × (q ≡ old) ⊎ (t.session ≡ put_project q s.session)
middle_of e = cases e.wrote
  where
    cases :
        {s t : State} {old q : Project}
        → (t ≡ s) × (q ≡ old) ⊎ Wrote s t (put_project q)
        → (t.session ≡ s.session) × (q ≡ old) ⊎ (t.session ≡ put_project q s.session)
    cases (inl (same, old)) = inl (ap (λ u. u.session) same, old)
    cases (inr w) = inr w.session

write_project-Returns :
    (env : Env) (p : ProjectPrincipal) (o : ℕ) (old : Project) (name d : Option Text) (b : Bool)
    (st : Option ProjectStatus) (s : State)
    → Returns
        (write_project env p o old name d b st)
        s
        (λ q t. Rewritten p o name d b st old s.session q t.committed)
unfolding write_project
write_project-Returns env p o old name d b st s =
    Returns-bind _ _ (update_project-Returns env s old name _ st (actor_user_id p)) λ q t edited.
      Returns-bind _ _ (record_event-Returns env t _ _ _ _ _ _ _) λ v w recorded.
        Returns-commit env _ λ c es ec. Returns-pure q (record {
          middle = t.session;
          change = middle_of edited;
          logged = Logged-of-Recorded refl recorded ec;
          has_id = edited.has_id;
          in_organisation = edited.in_organisation;
          has_deleted_at = edited.has_deleted_at;
          has_creator = edited.has_creator;
          has_created_at = edited.has_created_at;
          has_name = edited.asked.has_name;
          has_description =
              described b d old.description q.description edited.asked.has_description;
          has_status = edited.asked.has_status;
          has_writer = edited.asked.has_writer;
        })

pub record Updated (p : ProjectPrincipal) (o i : ℕ) (name d : Option Text) (b : Bool)
    (st : Option ProjectStatus) (before : Db) (v : PublicProject) (after : Db) : Type 0 where
  pub may : MayUse p o Permission.write_projects before
  pub old : Project
  pub found : find_project o i false before ≡ some old
  pub project : Project
  pub rewritten : Rewritten p o name d b st old before project after
  pub answer : v ≡ public_project_from_model project

-- A returned `update_project` was allowed, and has committed the change and its event only.
pub update_project-Returns_lem :
    (env : Env) (p : ProjectPrincipal) (o i : ℕ) (name d : Option Text) (b : Bool)
    (st : Option ProjectStatus) (s : State)
    → Returns
        (update_project env p o i name d b st)
        s
        (λ v t. Updated p o i name d b st s.session v t.committed)
unfolding update_project
update_project-Returns_lem env p o i name d b st s =
    Returns-check _ _ (get_authorised_project-ReadOnly p o i _)
      (get_authorised_project-Returns p o i _ s)
      λ old known.
        Returns-bind _ _ (Returns-transaction _ _ (write_project-Returns env p o old name d b st s))
          λ q t rewritten. Returns-pure _ (record {
            may = known.0;
            old = old;
            found = known.1;
            project = q;
            rewritten = rewritten;
            answer = refl;
          })

pub record Deleted (p : ProjectPrincipal) (o i : ℕ) (before after : Db) : Type 0 where
  pub may : MayUse p o Permission.write_projects before
  pub old : Project
  pub found : find_project o i false before ≡ some old
  pub project : Project
  pub logged :
      Logged before after
        (put_project project)
        AuditAction.project_deleted
        (some o)
        (actor_user_id p)
        (actor_api_key_id p)
        (some project.id)
  pub has_id : project.id ≡ old.id
  pub in_organisation : project.organisation_id ≡ old.organisation_id
  pub hidden : project.deleted_at ≢ none

-- A returned `delete_project` was allowed, and has hidden the project's row, which stays.
pub delete_project-Returns_lem :
    (env : Env) (p : ProjectPrincipal) (o i : ℕ) (s : State)
    → Returns (delete_project env p o i) s (λ _ t. Deleted p o i s.session t.committed)
unfolding delete_project soft_delete
delete_project-Returns_lem env p o i s =
    Returns-check _ _ (get_authorised_project-ReadOnly p o i _)
      (get_authorised_project-Returns p o i _ s)
      λ old known. Returns-transaction _ _ (
        Returns-bind _ _ (delete_project-Returns env s old (actor_user_id p)) λ q t gone.
          Returns-bind _ _ (record_event-Returns env t _ _ _ _ _ _ _) λ v w recorded.
            Returns-commit env _ λ c es ec. Returns-pure tt (record {
              may = known.0;
              old = old;
              found = known.1;
              project = q;
              logged = Logged-of-Recorded gone.wrote.session recorded ec;
              has_id = gone.has_id;
              in_organisation = gone.in_organisation;
              hidden = gone.hidden;
            }))
