-- ===== src/Repositories/Errors.antt =====
-- A repository's write raises what its flush raises.
use multi_tenant_saas_api.Base.{ℕ, ◌≡◌, Bool, true, Option, none, some, Text}
use multi_tenant_saas_api.Domain.{OrganisationRole, ProjectStatus, AuditAction}
use multi_tenant_saas_api.Json.{Fields}
use multi_tenant_saas_api.Database.{OrganisationMembership, Organisation, Project, ApiKey}
use multi_tenant_saas_api.Exec.{Env, Error, integrity_error, operational_error}
use multi_tenant_saas_api.Exec.Raises.{Raises, raise_rules}
use multi_tenant_saas_api.Repositories.Organisations
use multi_tenant_saas_api.Repositories.Memberships
use multi_tenant_saas_api.Repositories.Projects
use multi_tenant_saas_api.Repositories.Projects.{Update}
use multi_tenant_saas_api.Repositories.ApiKeys
use multi_tenant_saas_api.Repositories.AuditEvents
use multi_tenant_saas_api.Repositories.IdempotencyRecords

module _ (allowed : Error → Bool) (ho : allowed operational_error ≡ true)
    (hi : allowed integrity_error ≡ true) (env : Env) where
  pub create_organisation-Raises : (n s : Text) → Raises allowed (Organisations.create env n s)
  unfolding Organisations.create
  create_organisation-Raises n s = search (raise_rules, ho, hi) depth 12

  pub update_organisation-Raises :
      (o : Organisation) (n s : Option Text) → Raises allowed (Organisations.update env o n s)
  unfolding Organisations.update
  update_organisation-Raises o n s = search (raise_rules, ho, hi) depth 12

  pub create_membership-Raises :
      (o u : ℕ) (r : OrganisationRole) → Raises allowed (Memberships.create env o u r)
  unfolding Memberships.create
  create_membership-Raises o u r = search (raise_rules, ho, hi) depth 12

  pub update_role-Raises :
      (m : OrganisationMembership) (r : OrganisationRole)
      → Raises allowed (Memberships.update_role env m r)
  unfolding Memberships.update_role
  update_role-Raises m r = search (raise_rules, ho, hi) depth 12

  pub delete_membership-Raises :
      (m : OrganisationMembership) → Raises allowed (Memberships.delete env m)
  unfolding Memberships.delete
  delete_membership-Raises m = search (raise_rules, ho, hi) depth 12

  pub create_project-Raises :
      (o : ℕ) (n : Text) (s : ProjectStatus) (d : Option Text) (u : Option ℕ)
      → Raises allowed (Projects.create env o n s d u)
  unfolding Projects.create
  create_project-Raises o n s d u = search (raise_rules, ho, hi) depth 12

  pub update_project-Raises :
      (p : Project) (n : Option Text) (d : Update (Option Text)) (s : Option ProjectStatus)
      (u : Option ℕ)
      → Raises allowed (Projects.update env p n d s u)
  unfolding Projects.update
  update_project-Raises p n d s u = search (raise_rules, ho, hi) depth 12

  pub delete_project-Raises :
      (p : Project) (t u : Option ℕ) → Raises allowed (Projects.delete env p t u)
  unfolding Projects.delete
  delete_project-Raises p none u = search (raise_rules, ho, hi) depth 12
  delete_project-Raises p (some t) u = search (raise_rules, ho, hi) depth 12

  pub create_api_key-Raises :
      (o : ℕ) (n p h : Text) (u : Option ℕ) → Raises allowed (ApiKeys.create env o n p h u)
  unfolding ApiKeys.create
  create_api_key-Raises o n p h u = search (raise_rules, ho, hi) depth 12

  pub revoke-Raises : (k : ApiKey) (t : Option ℕ) → Raises allowed (ApiKeys.revoke env k t)
  unfolding ApiKeys.revoke
  revoke-Raises k none = search (raise_rules, ho, hi) depth 12
  revoke-Raises k (some t) = search (raise_rules, ho, hi) depth 12

  pub create_event-Raises :
      (a : AuditAction) (t : Text) (o u k i : Option ℕ) (fs : Fields)
      → Raises allowed (AuditEvents.create env a t o u k i fs)
  unfolding AuditEvents.create
  create_event-Raises a t o u k i fs = search (raise_rules, ho, hi) depth 12

  pub create_record-Raises :
      (t : Text) (i : ℕ) (k m p h : Text) (c : ℕ) (b : Fields) (o e : Option ℕ)
      → Raises allowed (IdempotencyRecords.create env t i k m p h c b o e)
  unfolding IdempotencyRecords.create
  create_record-Raises t i k m p h c b o e = search (raise_rules, ho, hi) depth 12
