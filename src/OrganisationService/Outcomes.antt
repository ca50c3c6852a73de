-- ===== src/OrganisationService/Outcomes.antt =====
-- What creating and updating an organisation come to, on every branch.
use multi_tenant_saas_api.Base.{ℕ, subst, Option, Text}
use multi_tenant_saas_api.Rbac.{CurrentPrincipal}
use multi_tenant_saas_api.OrganisationService.{create_organisation, update_organisation}
use multi_tenant_saas_api.OrganisationService.Atomicity.{
  create_organisation-Atomic, update_organisation-Atomic,
}
use multi_tenant_saas_api.OrganisationService.Effects.{
  CreatedBy, Updated, create_organisation-Returns_lem, update_organisation-Returns_lem,
}
use multi_tenant_saas_api.Exec.{Env, State}
use multi_tenant_saas_api.Exec.Rules.{IsClean}
use multi_tenant_saas_api.Exec.Returns.{Outcome, outcome}

-- From a session with nothing pending, creation either returns, and has committed an organisation of
-- the requested name and slug, the caller as its owner, and the event only; or it raises, leaves
-- nothing pending, and has committed nothing.
pub create_organisation-Outcome :
    (env : Env) (p : CurrentPrincipal) (name : Text) (slug : Option Text) (s : State)
    → IsClean s
    → Outcome
        (λ v t. CreatedBy p.user_id name slug s.committed v t.committed)
        s.committed
        (create_organisation env p name slug s)
create_organisation-Outcome env p name slug s c =
    subst
      (λ d.
        Outcome (λ v t. CreatedBy p.user_id name slug d v t.committed) s.committed
          (create_organisation env p name slug s))
      c
      (outcome _ s (create_organisation-Atomic env p name slug)
        (create_organisation-Returns_lem env p name slug s) c)

-- From a session with nothing pending, an update either returns, was allowed to the caller, and has
-- committed the row with the name and the normalised slug that were asked for, or the old ones where
-- none was, under a slug that is free, and its event only; or it raises, leaves nothing pending, and
-- has committed nothing.
pub update_organisation-Outcome :
    (env : Env) (p : CurrentPrincipal) (i : ℕ) (name slug : Option Text) (s : State)
    → IsClean s
    → Outcome
        (λ v t. Updated p i name slug s.committed v t.committed)
        s.committed
        (update_organisation env p i name slug s)
update_organisation-Outcome env p i name slug s c =
    subst
      (λ d.
        Outcome (λ v t. Updated p i name slug d v t.committed) s.committed
          (update_organisation env p i name slug s))
      c
      (outcome _ s (update_organisation-Atomic env p i name slug)
        (update_organisation-Returns_lem env p i name slug s) c)
