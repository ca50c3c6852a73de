-- ===== src/MembershipService/Atomicity.antt =====
-- Each membership operation is one unit of work.
use multi_tenant_saas_api.Base.{ℕ, Option}
use multi_tenant_saas_api.Domain.{OrganisationRole}
use multi_tenant_saas_api.Database.{OrganisationMembership}
use multi_tenant_saas_api.Exec.{Env}
use multi_tenant_saas_api.Exec.Rules.{
  ReadOnly, Commits, Atomic, read_rules, commit_rules, atomic_rules,
}
use multi_tenant_saas_api.Repositories.Pending.{
  create_membership-KeepsCommitted, update_role-KeepsCommitted, delete_membership-KeepsCommitted,
}
use multi_tenant_saas_api.Rbac.{CurrentPrincipal}
use multi_tenant_saas_api.Rbac.Reads.{get_tenant_context-ReadOnly, protect_last_owner-ReadOnly}
use multi_tenant_saas_api.Audit.Pending.{record_event-KeepsCommitted}
use multi_tenant_saas_api.MembershipService.{
  protect_if_owner_would_be_removed, insert_member, add_member, change_role, update_member_role,
  take_out, remove_member,
}

pub protect_if_owner_would_be_removed-ReadOnly :
    (o u : ℕ) (r : OrganisationRole) (q : Option OrganisationRole)
    → ReadOnly (protect_if_owner_would_be_removed o u r q)
unfolding protect_if_owner_would_be_removed
protect_if_owner_would_be_removed-ReadOnly o u r q =
    search (read_rules, protect_last_owner-ReadOnly)

ruleset check_rules =
    (atomic_rules, get_tenant_context-ReadOnly, protect_if_owner_would_be_removed-ReadOnly)

module _ (env : Env) where
  insert_member-Commits : (a o u : ℕ) (r : OrganisationRole) → Commits (insert_member env a o u r)
  unfolding insert_member
  insert_member-Commits a o u r =
      search (commit_rules, create_membership-KeepsCommitted, record_event-KeepsCommitted)

  change_role-Commits :
      (a o u : ℕ) (m : OrganisationMembership) (r : OrganisationRole)
      → Commits (change_role env a o u m r)
  unfolding change_role
  change_role-Commits a o u m r =
      search (commit_rules, update_role-KeepsCommitted, record_event-KeepsCommitted)

  take_out-Commits : (a o u : ℕ) (m : OrganisationMembership) → Commits (take_out env a o u m)
  unfolding take_out
  take_out-Commits a o u m =
      search (commit_rules, delete_membership-KeepsCommitted, record_event-KeepsCommitted)

  -- Adding a member is atomic.
  pub add_member-Atomic :
      (p : CurrentPrincipal) (o u : ℕ) (r : OrganisationRole) → Atomic (add_member env p o u r)
  unfolding add_member
  add_member-Atomic p o u r = search (check_rules, insert_member-Commits) depth 20

  pub update_member_role-Atomic :
      (p : CurrentPrincipal) (o u : ℕ) (r : OrganisationRole)
      → Atomic (update_member_role env p o u r)
  unfolding update_member_role
  update_member_role-Atomic p o u r = search (check_rules, change_role-Commits) depth 20

  pub remove_member-Atomic : (p : CurrentPrincipal) (o u : ℕ) → Atomic (remove_member env p o u)
  unfolding remove_member
  remove_member-Atomic p o u = search (check_rules, take_out-Commits) depth 20
