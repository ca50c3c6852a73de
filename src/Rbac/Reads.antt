-- ===== src/Rbac/Reads.antt =====
-- The checks of services/rbac.py only read.
use multi_tenant_saas_api.Base.{ℕ, Option, none, some}
use multi_tenant_saas_api.Domain.{OrganisationRole, Permission}
use multi_tenant_saas_api.Exec.Rules.{ReadOnly, read_rules}
use multi_tenant_saas_api.Repositories.Memberships
use multi_tenant_saas_api.Rbac.{CurrentPrincipal, get_tenant_context, protect_last_owner}

pub get_tenant_context-ReadOnly :
    (p : CurrentPrincipal) (o : ℕ) (r : Option Permission) → ReadOnly (get_tenant_context p o r)
unfolding get_tenant_context
get_tenant_context-ReadOnly p o none = search read_rules depth 12
get_tenant_context-ReadOnly p o (some r) = search read_rules depth 12

pub is_last_owner-ReadOnly : (o u : ℕ) → ReadOnly (Memberships.is_last_owner o u)
unfolding Memberships.is_last_owner
is_last_owner-ReadOnly o u = search read_rules depth 12

pub protect_last_owner-ReadOnly :
    (o u : ℕ) (r : Option OrganisationRole) → ReadOnly (protect_last_owner o u r)
unfolding protect_last_owner
protect_last_owner-ReadOnly o u r = search (read_rules, is_last_owner-ReadOnly) depth 12
