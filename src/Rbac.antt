-- ===== src/Rbac.antt =====
-- services/rbac.py: tenant contexts, permission checks and the protection of the last owner.
pub mod Reads
pub mod Access
pub mod Principals
use multi_tenant_saas_api.Base.{ℕ, Bool, false, not, Option, none, some, List, Text, if◌then◌else◌}
use multi_tenant_saas_api.Domain.{
  OrganisationRole, Permission, permissions_for_role, contains_permission, role_eq,
}
use multi_tenant_saas_api.Database.{User, Organisation, OrganisationMembership}
use multi_tenant_saas_api.Exec.{
  Action, pure, raise_if, or_raise, ◌>>=◌, ◌>>◌, tenant_access_denied, permission_denied,
  organisation_not_found, last_owner_protection,
}
use multi_tenant_saas_api.Repositories.Organisations
use multi_tenant_saas_api.Repositories.Memberships

pub data PrincipalType : Type 0 where
  user api_key : PrincipalType

pub record CurrentPrincipal : Type 0 where
  pub principal_type : PrincipalType
  pub user_id : ℕ
  pub email : Text
  pub display_name : Text
  pub is_active : Bool
  pub created_at : ℕ
  pub updated_at : ℕ

pub record TenantContext : Type 0 where
  pub principal : CurrentPrincipal
  pub organisation_id : ℕ
  pub organisation_name : Text
  pub organisation_slug : Text
  pub membership_id : ℕ
  pub role : OrganisationRole
  pub permissions : List Permission

abbrev pub has_permission : TenantContext → Permission → Bool
has_permission context permission = contains_permission permission context.permissions

abbrev pub require_permission : TenantContext → Option Permission → Action (Unit {0})
require_permission context none = pure tt
require_permission context (some permission) =
    raise_if (not (has_permission context permission)) permission_denied

abbrev pub tenant_context_from_models :
    CurrentPrincipal → Organisation → OrganisationMembership → TenantContext
tenant_context_from_models principal organisation membership = record {
  principal = principal;
  organisation_id = organisation.id;
  organisation_name = organisation.name;
  organisation_slug = organisation.slug;
  membership_id = membership.id;
  role = membership.role;
  permissions = permissions_for_role membership.role;
}

unfoldable pub get_tenant_context : CurrentPrincipal → ℕ → Option Permission → Action TenantContext
get_tenant_context principal organisation_id required_permission = do
  found ← Organisations.get_by_id organisation_id
  organisation ← or_raise found organisation_not_found
  own ← Memberships.get_for_user organisation_id principal.user_id
  membership ← or_raise own tenant_access_denied
  let context = tenant_context_from_models principal organisation membership
  require_permission context required_permission
  pure context

abbrev keeps_owner : Option OrganisationRole → Bool
keeps_owner none = false
keeps_owner (some r) = role_eq r OrganisationRole.owner

unfoldable pub protect_last_owner : ℕ → ℕ → Option OrganisationRole → Action (Unit {0})
protect_last_owner organisation_id target_user_id new_role =
    if keeps_owner new_role then pure tt else do
      last ← Memberships.is_last_owner organisation_id target_user_id
      raise_if last last_owner_protection

abbrev pub current_principal_from_model : User → CurrentPrincipal
current_principal_from_model u = record {
  principal_type = PrincipalType.user;
  user_id = u.id;
  email = u.email;
  display_name = u.display_name;
  is_active = u.is_active;
  created_at = u.created_at;
  updated_at = u.updated_at;
}
