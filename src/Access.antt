-- ===== src/Access.antt =====
-- Who may use an organisation: what docs and domain.py say of roles and keys, as a test on the
-- database.
use multi_tenant_saas_api.Base.{ℕ, Bool, false, ◌&&◌, Option, none, some, ◌==◌}
use multi_tenant_saas_api.Domain.{Permission, role_has_permission, contains_permission}
use multi_tenant_saas_api.Database.{Db, OrganisationMembership}
use multi_tenant_saas_api.Repositories.Memberships.{find_for_user}
use multi_tenant_saas_api.Rbac.{CurrentPrincipal}
use multi_tenant_saas_api.ProjectService.{api_key_project_permissions}
use multi_tenant_saas_api.ApiKeyService.{ProjectPrincipal}

abbrev grants : Option OrganisationMembership → Permission → Bool
grants none permission = false
grants (some m) permission = role_has_permission m.role permission

-- A member whose role has the permission.
abbrev pub user_may : CurrentPrincipal → ℕ → Permission → Db → Bool
user_may p o permission db = grants (find_for_user o p.user_id db) permission

-- Such a member, or a key of the organisation, for projects only.
abbrev pub principal_may : ProjectPrincipal → ℕ → Permission → Db → Bool
principal_may (ProjectPrincipal.user p) o permission db = user_may p o permission db
principal_may (ProjectPrincipal.key k) o permission db =
    (k.organisation_id == o) && contains_permission permission api_key_project_permissions
