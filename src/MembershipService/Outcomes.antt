-- ===== src/MembershipService/Outcomes.antt =====
-- What each membership operation comes to, on every branch.
use multi_tenant_saas_api.Base.{ℕ, subst}
use multi_tenant_saas_api.Domain.{OrganisationRole}
use multi_tenant_saas_api.Rbac.{CurrentPrincipal}
use multi_tenant_saas_api.MembershipService.{add_member, update_member_role, remove_member}
use multi_tenant_saas_api.MembershipService.Atomicity.{
  add_member-Atomic, update_member_role-Atomic, remove_member-Atomic,
}
use multi_tenant_saas_api.MembershipService.Effects.Adding.{Added, add_member-Returns}
use multi_tenant_saas_api.MembershipService.Effects.Changes.{
  Changed, Removed, update_member_role-Returns, remove_member-Returns,
}
use multi_tenant_saas_api.Exec.{Env, State}
use multi_tenant_saas_api.Exec.Rules.{IsClean}
use multi_tenant_saas_api.Exec.Returns.{Outcome, outcome}

-- From a session with nothing pending, adding a member either returns, was allowed to the caller, and
-- has committed the new membership of an existing user and its event only; or it raises, leaves
-- nothing pending, and has committed nothing.
pub add_member-Outcome :
    (env : Env) (p : CurrentPrincipal) (o u : ℕ) (r : OrganisationRole) (s : State)
    → IsClean s
    → Outcome
        (λ v t. Added p o u r s.committed v t.committed)
        s.committed
        (add_member env p o u r s)
add_member-Outcome env p o u r s c =
    subst
      (λ d. Outcome (λ v t. Added p o u r d v t.committed) s.committed (add_member env p o u r s)) c
      (outcome _ s (add_member-Atomic env p o u r) (add_member-Returns env p o u r s) c)

-- From a session with nothing pending, a change of role either returns, was allowed to the caller,
-- spared the last owner, and has committed the new role, if it is another, and its event only; or it
-- raises, leaves nothing pending, and has committed nothing.
pub update_member_role-Outcome :
    (env : Env) (p : CurrentPrincipal) (o u : ℕ) (r : OrganisationRole) (s : State)
    → IsClean s
    → Outcome
        (λ v t. Changed p o u r s.committed v t.committed)
        s.committed
        (update_member_role env p o u r s)
update_member_role-Outcome env p o u r s c =
    subst
      (λ d.
        Outcome (λ v t. Changed p o u r d v t.committed) s.committed
          (update_member_role env p o u r s))
      c
      (outcome _ s (update_member_role-Atomic env p o u r)
        (update_member_role-Returns env p o u r s) c)

-- From a session with nothing pending, the removal of a member either returns, was allowed to the
-- caller, spared the last owner, and has committed the removal and its event only; or it raises,
-- leaves nothing pending, and has committed nothing.
pub remove_member-Outcome :
    (env : Env) (p : CurrentPrincipal) (o u : ℕ) (s : State)
    → IsClean s
    → Outcome (λ _ t. Removed p o u s.committed t.committed) s.committed (remove_member env p o u s)
remove_member-Outcome env p o u s c =
    subst
      (λ d. Outcome (λ _ t. Removed p o u d t.committed) s.committed (remove_member env p o u s)) c
      (outcome _ s (remove_member-Atomic env p o u) (remove_member-Returns env p o u s) c)
