-- ===== src/Repositories/Pending.antt =====
-- The repositories only write to the session: committing is left to the services.
use multi_tenant_saas_api.Base.{ℕ, Bool, Option, none, some, Text}
use multi_tenant_saas_api.Domain.{OrganisationRole, ProjectStatus, AuditAction}
use multi_tenant_saas_api.Json.{Fields}
use multi_tenant_saas_api.Database.{OrganisationMembership, Organisation, Project, ApiKey}
use multi_tenant_saas_api.Exec.{Env}
use multi_tenant_saas_api.Exec.Rules.{KeepsCommitted, pending_rules}
use multi_tenant_saas_api.Repositories.Users
use multi_tenant_saas_api.Repositories.Organisations
use multi_tenant_saas_api.Repositories.Memberships
use multi_tenant_saas_api.Repositories.Projects
use multi_tenant_saas_api.Repositories.Projects.{Update}
use multi_tenant_saas_api.Repositories.ApiKeys
use multi_tenant_saas_api.Repositories.AuditEvents

module _ (env : Env) where
  pub create_user-KeepsCommitted :
      (e d h : Text) (b : Bool) → KeepsCommitted (Users.create env e d h b)
  unfolding Users.create
  create_user-KeepsCommitted e d h b = search pending_rules depth 12

  pub create_organisation-KeepsCommitted :
      (n s : Text) → KeepsCommitted (Organisations.create env n s)
  unfolding Organisations.create
  create_organisation-KeepsCommitted n s = search pending_rules depth 12

  pub update_organisation-KeepsCommitted :
      (o : Organisation) (n s : Option Text) → KeepsCommitted (Organisations.update env o n s)
  unfolding Organisations.update
  update_organisation-KeepsCommitted o n s = search pending_rules depth 12

  pub create_membership-KeepsCommitted :
      (o u : ℕ) (r : OrganisationRole) → KeepsCommitted (Memberships.create env o u r)
  unfolding Memberships.create
  create_membership-KeepsCommitted o u r = search pending_rules depth 12

  pub update_role-KeepsCommitted :
      (m : OrganisationMembership) (r : OrganisationRole)
      → KeepsCommitted (Memberships.update_role env m r)
  unfolding Memberships.update_role
  update_role-KeepsCommitted m r = search pending_rules depth 12

  pub delete_membership-KeepsCommitted :
      (m : OrganisationMembership) → KeepsCommitted (Memberships.delete env m)
  unfolding Memberships.delete
  delete_membership-KeepsCommitted m = search pending_rules

  pub create_project-KeepsCommitted :
      (o : ℕ) (n : Text) (s : ProjectStatus) (d : Option Text) (u : Option ℕ)
      → KeepsCommitted (Projects.create env o n s d u)
  unfolding Projects.create
  create_project-KeepsCommitted o n s d u = search pending_rules depth 12

  pub update_project-KeepsCommitted :
      (p : Project) (n : Option Text) (d : Update (Option Text)) (s : Option ProjectStatus)
      (u : Option ℕ)
      → KeepsCommitted (Projects.update env p n d s u)
  unfolding Projects.update
  update_project-KeepsCommitted p n d s u = search pending_rules depth 12

  pub delete_project-KeepsCommitted :
      (p : Project) (t u : Option ℕ) → KeepsCommitted (Projects.delete env p t u)
  unfolding Projects.delete
  delete_project-KeepsCommitted p none u = search pending_rules depth 12
  delete_project-KeepsCommitted p (some t) u = search pending_rules depth 12

  pub create_api_key-KeepsCommitted :
      (o : ℕ) (n p h : Text) (u : Option ℕ) → KeepsCommitted (ApiKeys.create env o n p h u)
  unfolding ApiKeys.create
  create_api_key-KeepsCommitted o n p h u = search pending_rules depth 12

  pub revoke-KeepsCommitted : (k : ApiKey) (t : Option ℕ) → KeepsCommitted (ApiKeys.revoke env k t)
  unfolding ApiKeys.revoke
  revoke-KeepsCommitted k none = search pending_rules depth 12
  revoke-KeepsCommitted k (some t) = search pending_rules depth 12

  pub update_last_used-KeepsCommitted :
      (k : ApiKey) (t : Option ℕ) → KeepsCommitted (ApiKeys.update_last_used env k t)
  unfolding ApiKeys.update_last_used
  update_last_used-KeepsCommitted k none = search pending_rules depth 12
  update_last_used-KeepsCommitted k (some t) = search pending_rules depth 12

  pub create_audit_event-KeepsCommitted :
      (a : AuditAction) (target : Text) (o u k t : Option ℕ) (fs : Fields)
      → KeepsCommitted (AuditEvents.create env a target o u k t fs)
  unfolding AuditEvents.create
  create_audit_event-KeepsCommitted a target o u k t fs = search pending_rules depth 12
