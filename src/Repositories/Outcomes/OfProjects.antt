-- ===== src/Repositories/Outcomes/OfProjects.antt =====
-- What the writing statements of projects return.
use multi_tenant_saas_api.Base.{
  ℕ, ◌≡◌, ◌≢◌, ◌⊎◌, inl, inr, sym, ap, subst, true, Option, none, Text, arith,
}
use multi_tenant_saas_api.Domain.{ProjectStatus}
use multi_tenant_saas_api.Database.{Project, project_fits}
use multi_tenant_saas_api.Exec.{Env, State, ◌>>=◌, now, uuid4, flush}
use multi_tenant_saas_api.Exec.Returns.{Returns}
use multi_tenant_saas_api.Repositories.Projects
use multi_tenant_saas_api.Repositories.Projects.{
  Update, same_fields, save, edited, add_project, put_project,
}
use multi_tenant_saas_api.Repositories.Edits.{AsAsked, edited-AsAsked, same_fields-AsAsked}
use multi_tenant_saas_api.Repositories.Outcomes.{Wrote}

module _ (env : Env) (s : State) where
  pub record NewProject (o : ℕ) (name : Text) (st : ProjectStatus) (d : Option Text) (u : Option ℕ)
      (p : Project) (t : State) : Type 0 where
    pub wrote : Wrote s t (add_project p)
    pub fits : project_fits s.session p ≡ true
    pub in_organisation : p.organisation_id ≡ o
    pub has_name : p.name ≡ name
    pub has_status : p.status ≡ st
    pub has_description : p.description ≡ d
    pub by_user : p.created_by_user_id ≡ u
    pub last_by_user : p.updated_by_user_id ≡ u
    pub shown : p.deleted_at ≡ none

  pub create_project-Returns :
      (o : ℕ) (name : Text) (st : ProjectStatus) (d : Option Text) (u : Option ℕ)
      → Returns (Projects.create env o name st d u) s (NewProject o name st d u)
  unfolding Projects.create uuid4 now flush ◌>>=◌
  create_project-Returns o name st d u = record { at = λ p t h. ground arith }

  pub record EditedProject (name : Option Text) (d : Update (Option Text))
      (st : Option ProjectStatus) (u : Option ℕ) (old p : Project) (t : State) : Type 0 where
    pub wrote : (t ≡ s) × (p ≡ old) ⊎ Wrote s t (put_project p)
    pub has_id : p.id ≡ old.id
    pub in_organisation : p.organisation_id ≡ old.organisation_id
    pub has_deleted_at : p.deleted_at ≡ old.deleted_at
    pub has_creator : p.created_by_user_id ≡ old.created_by_user_id
    pub has_created_at : p.created_at ≡ old.created_at
    pub asked : AsAsked name d st u old p

  -- The row is as it was where no field differs, or is written with another `updated_at`.
  abbrev Saved : Project → Project → Project → State → Type 0
  Saved old new p t =
      ((t ≡ s) × (p ≡ old) × (same_fields old new ≡ true))
      ⊎ (Wrote s t (put_project p) × (p ≡ record new { updated_at = env.now s.ticks }))

  save-Returns : (old new : Project) → Returns (save env old new) s (Saved old new)
  unfolding now flush ◌>>=◌
  save-Returns old new = record { at = λ q t h. ground arith }

  pub update_project-Returns :
      (p : Project) (name : Option Text) (d : Update (Option Text)) (st : Option ProjectStatus)
      (u : Option ℕ)
      → Returns (Projects.update env p name d st u) s (EditedProject name d st u p)
  unfolding Projects.update edited
  update_project-Returns p name d st u = record {
    at = λ q t h. built q t ((save-Returns p (edited p name d st u)).at q t h);
  }
    where
      asked : AsAsked name d st u p (edited p name d st u)
      asked = edited-AsAsked name d st u p

      built :
          (q : Project) (t : State)
          → Saved p (edited p name d st u) q t
          → EditedProject name d st u p q t
      built q t (inl (same, is, fields)) = record {
        wrote = inl (same, is);
        has_id = ap (λ x. x.id) is;
        in_organisation = ap (λ x. x.organisation_id) is;
        has_deleted_at = ap (λ x. x.deleted_at) is;
        has_creator = ap (λ x. x.created_by_user_id) is;
        has_created_at = ap (λ x. x.created_at) is;
        asked =
            subst (AsAsked name d st u p) (sym is)
              (same_fields-AsAsked name d st u p _ asked fields);
      }
      built q t (inr (wrote, is)) = record {
        wrote = inr wrote;
        has_id = ap (λ x. x.id) is;
        in_organisation = ap (λ x. x.organisation_id) is;
        has_deleted_at = ap (λ x. x.deleted_at) is;
        has_creator = ap (λ x. x.created_by_user_id) is;
        has_created_at = ap (λ x. x.created_at) is;
        asked = subst (AsAsked name d st u p) (sym is) (record {
          has_name = asked.has_name;
          has_description = asked.has_description;
          has_status = asked.has_status;
          has_writer = asked.has_writer;
        });
      }

  pub record DeletedProject (old p : Project) (t : State) : Type 0 where
    pub wrote : Wrote s t (put_project p)
    pub has_id : p.id ≡ old.id
    pub in_organisation : p.organisation_id ≡ old.organisation_id
    pub hidden : p.deleted_at ≢ none

  pub delete_project-Returns :
      (p : Project) (u : Option ℕ) → Returns (Projects.delete env p none u) s (DeletedProject p)
  unfolding Projects.delete now flush ◌>>=◌
  delete_project-Returns p u = record { at = λ q t h. ground arith }
