-- ===== src/Rbac/Access.antt =====
-- What the checks of services/rbac.py let through.
use multi_tenant_saas_api.Base.{ℕ, ◌≡◌, refl, true, some, scalar, arith, ◌==◌}
use multi_tenant_saas_api.Domain.{Permission, role_has_permission}
use multi_tenant_saas_api.Database.{Db, Organisation, OrganisationMembership}
use multi_tenant_saas_api.Exec.{State}
use multi_tenant_saas_api.Exec.Returns.{
  Returns, Returns-pure, Returns-query, Returns-or_raise, Returns-raise_if,
}
use multi_tenant_saas_api.Repositories.Memberships.{find_for_user}
use multi_tenant_saas_api.Rbac.{CurrentPrincipal, TenantContext, get_tenant_context}

-- The organisation exists, the principal is a member of it, and the role has the permission.
pub record Authorised (p : CurrentPrincipal) (o : ℕ) (permission : Permission) (db : Db)
    (c : TenantContext) : Type 0 where
  pub membership : OrganisationMembership
  pub own : find_for_user o p.user_id db ≡ some membership
  pub organisation : Organisation
  pub exists : scalar (λ r. r.id == o) db.organisations ≡ some organisation
  pub has_role : c.role ≡ membership.role
  pub granted : role_has_permission membership.role permission ≡ true

pub get_tenant_context-Returns :
    (p : CurrentPrincipal) (o : ℕ) (permission : Permission) (s : State)
    → Returns
        (get_tenant_context p o (some permission))
        s
        (λ c _. Authorised p o permission s.session c)
unfolding get_tenant_context role_has_permission
get_tenant_context-Returns p o permission s = Returns-query _ _ (
    Returns-or_raise _ _ _ λ organisation exists. Returns-query _ _ (
      Returns-or_raise _ _ _ λ membership own. Returns-raise_if _ _ _ λ granted.
        Returns-pure _ (record {
          membership = membership;
          own = own;
          organisation = organisation;
          exists = exists;
          has_role = refl;
          granted = ground arith;
        })))
