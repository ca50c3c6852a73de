-- ===== src/Routes/Errors/Routing.antt =====
-- The handlers translate every exception of their services.
use multi_tenant_saas_api.Exec.Raises.{Raises, raise_rules}
use multi_tenant_saas_api.Routes.Errors.Handlers.{validated-Raises, validate_items-Raises}
use multi_tenant_saas_api.Routes.Organisations
use multi_tenant_saas_api.Routes.Memberships
use multi_tenant_saas_api.Routes.Projects
use multi_tenant_saas_api.Routes.ApiKeys
use multi_tenant_saas_api.Routes.AuditEvents

ruleset response_rules = (raise_rules, validated-Raises, validate_items-Raises)
