-- ===== src/OrganisationService/Atomicity.antt =====
-- Each organisation operation is one unit of work.
use multi_tenant_saas_api.Base.{ℕ, Option, none, some, Text}
use multi_tenant_saas_api.Database.{Organisation}
use multi_tenant_saas_api.Exec.{Env}
use multi_tenant_saas_api.Exec.Rules.{
  ReadOnly, Commits, Atomic, read_rules, commit_rules, atomic_rules,
}
use multi_tenant_saas_api.Repositories.Pending.{
  create_organisation-KeepsCommitted, create_membership-KeepsCommitted,
  update_organisation-KeepsCommitted,
}
use multi_tenant_saas_api.Rbac.{CurrentPrincipal}
use multi_tenant_saas_api.Rbac.Reads.{get_tenant_context-ReadOnly}
use multi_tenant_saas_api.Audit.Pending.{record_event-KeepsCommitted}
use multi_tenant_saas_api.OrganisationService.{
  insert_organisation, create_organisation, check_slug, write_organisation, update_organisation,
}

pub check_slug-ReadOnly : (o : Organisation) (s : Option Text) → ReadOnly (check_slug o s)
unfolding check_slug
check_slug-ReadOnly o none = search read_rules
check_slug-ReadOnly o (some s) = search read_rules

module _ (env : Env) where
  insert_organisation-Commits : (u : ℕ) (n s : Text) → Commits (insert_organisation env u n s)
  unfolding insert_organisation
  insert_organisation-Commits u n s =
      search
        (
          commit_rules, create_organisation-KeepsCommitted, create_membership-KeepsCommitted,
          record_event-KeepsCommitted,
        )
        depth 12

  write_organisation-Commits :
      (u : ℕ) (o : Organisation) (n s : Option Text) → Commits (write_organisation env u o n s)
  unfolding write_organisation
  write_organisation-Commits u o n s =
      search (commit_rules, update_organisation-KeepsCommitted, record_event-KeepsCommitted)

  pub create_organisation-Atomic :
      (p : CurrentPrincipal) (n : Text) (s : Option Text) → Atomic (create_organisation env p n s)
  unfolding create_organisation
  create_organisation-Atomic p n s = search (atomic_rules, insert_organisation-Commits) depth 12

  pub update_organisation-Atomic :
      (p : CurrentPrincipal) (o : ℕ) (n s : Option Text) → Atomic (update_organisation env p o n s)
  unfolding update_organisation
  update_organisation-Atomic p o n s =
      search
        (atomic_rules, get_tenant_context-ReadOnly, check_slug-ReadOnly, write_organisation-Commits)
        depth 20
