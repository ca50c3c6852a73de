-- ===== src/Domain/Permissions.antt =====
-- The permission table of domain.py as an order of the roles.
use multi_tenant_saas_api.Base.{◌≡◌, true, ◌≤◌, arith}
use multi_tenant_saas_api.Domain.{OrganisationRole, Permission, role_has_permission}

-- The roles from the weakest to the strongest.
abbrev pub rank : OrganisationRole → Prim.Native.Nat.ℕ
rank OrganisationRole.owner = 3
rank OrganisationRole.admin = 2
rank OrganisationRole.member = 1
rank OrganisationRole.viewer = 0

-- A role at least as strong as another, in the order viewer, member, admin, owner, has every
-- permission of the other.
pub role_has_permission_mono :
    (r q : OrganisationRole) (p : Permission)
    → rank r ≤ rank q
    → role_has_permission r p ≡ true
    → role_has_permission q p ≡ true
unfolding role_has_permission
role_has_permission_mono r q Permission.read_organisation h e = ground arith
role_has_permission_mono r q _ h e = ground arith
