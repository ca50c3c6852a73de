-- ===== src/Routes/Errors/Services.antt =====
-- What each method of the services may raise.
pub mod Writes
use multi_tenant_saas_api.Base.{
  ℕ, ◌≡◌, refl, Bool, true, Option, none, some, List, [], ◌∷◌, Text, arith,
}
use multi_tenant_saas_api.Domain.{OrganisationRole, Permission}
use multi_tenant_saas_api.Database.{Organisation, OrganisationMembership, ApiKey}
use multi_tenant_saas_api.Exec.{
  Error, Action, same_error, organisation_not_found, tenant_access_denied, permission_denied,
  last_owner_protection, transaction,
}
use multi_tenant_saas_api.Exec.Raises.{
  Raises, Raises-transaction, Raises-bind, Raises-pure, Raises-query, Raises-or_raise, raise_rules,
}
use multi_tenant_saas_api.Repositories.Memberships
use multi_tenant_saas_api.Repositories.Organisations
use multi_tenant_saas_api.Repositories.Projects
use multi_tenant_saas_api.Repositories.ApiKeys
use multi_tenant_saas_api.Repositories.AuditEvents
use multi_tenant_saas_api.Rbac.{CurrentPrincipal, get_tenant_context, protect_last_owner}
use multi_tenant_saas_api.Audit.{list_organisation_events}
use multi_tenant_saas_api.ApiKeyService.{
  ProjectPrincipal, list_api_keys, revoked_api_key_at, ensure_can_create_api_key,
}
use multi_tenant_saas_api.ProjectService.{
  require_project_permission, get_authorised_project, get_project,
}
use multi_tenant_saas_api.OrganisationService
use multi_tenant_saas_api.MembershipService
use multi_tenant_saas_api.OrganisationService.{get_organisation, check_slug}
use multi_tenant_saas_api.MembershipService.{
  public_memberships, list_members, protect_if_owner_would_be_removed,
}
use multi_tenant_saas_api.Routes.Errors.{
  is_internal, of_tenant, of_project, of_key, of_slug, of_organisation, of_members, of_new_member,
  of_removal, of_role,
}

module _ (allowed : Error → Bool) (h1 : allowed organisation_not_found ≡ true)
    (h2 : allowed tenant_access_denied ≡ true) (h3 : allowed permission_denied ≡ true) where
  pub get_tenant_context-Raises :
      (p : CurrentPrincipal) (o : ℕ) (r : Option Permission)
      → Raises allowed (get_tenant_context p o r)
  unfolding get_tenant_context
  get_tenant_context-Raises p o none = search (raise_rules, h1, h2) depth 12
  get_tenant_context-Raises p o (some r) = search (raise_rules, h1, h2, h3) depth 12

  pub require_project_permission-Raises :
      (p : ProjectPrincipal) (o : ℕ) (r : Permission)
      → Raises allowed (require_project_permission p o r)
  unfolding require_project_permission
  require_project_permission-Raises (ProjectPrincipal.user p) o r =
      search (raise_rules, get_tenant_context-Raises)
  require_project_permission-Raises (ProjectPrincipal.key k) o r = search (raise_rules, h2)

-- A transaction whose body raises failures of the database only.
module _ {A : Type 0} (allowed : Error → Bool)
    (w : (e : Error) → is_internal e ≡ true → allowed e ≡ true) (m : Action A) where
  pub Raises-unit : Raises is_internal m → Raises allowed (transaction same_error m)
  Raises-unit r = Raises-transaction allowed same_error is_internal m w r

-- The failures of the database are among those that each may raise.
tenant_internal : (e : Error) → is_internal e ≡ true → of_tenant e ≡ true
tenant_internal e h = ground arith

project_internal : (e : Error) → is_internal e ≡ true → of_project e ≡ true
project_internal e h = ground arith

key_internal : (e : Error) → is_internal e ≡ true → of_key e ≡ true
key_internal e h = ground arith

removal_internal : (e : Error) → is_internal e ≡ true → of_removal e ≡ true
removal_internal e h = ground arith

role_internal : (e : Error) → is_internal e ≡ true → of_role e ≡ true
role_internal e h = ground arith

-- Where a broken constraint becomes an exception of the service.
module _ {A : Type 0} (m : Action A) (r : Raises is_internal m) where
  pub new_organisation-Raises : Raises of_slug (transaction OrganisationService.taken m)
  new_organisation-Raises =
      Raises-transaction of_slug OrganisationService.taken is_internal m (λ e h. ground arith) r

  pub changed_organisation-Raises : Raises of_organisation (transaction OrganisationService.taken m)
  changed_organisation-Raises =
      Raises-transaction of_organisation OrganisationService.taken is_internal m
        (λ e h. ground arith) r

  pub new_member-Raises : Raises of_new_member (transaction MembershipService.taken m)
  new_member-Raises =
      Raises-transaction of_new_member MembershipService.taken is_internal m (λ e h. ground arith) r

ruleset service_rules = (
  raise_rules, get_tenant_context-Raises, require_project_permission-Raises, Raises-unit,
  tenant_internal, project_internal, key_internal, removal_internal, role_internal,
)

pub get_authorised_project-Raises :
    (p : ProjectPrincipal) (o i : ℕ) (r : Permission)
    → Raises of_project (get_authorised_project p o i r)
unfolding get_authorised_project
get_authorised_project-Raises p o i r = search service_rules depth 12

pub get_project-Raises : (p : ProjectPrincipal) (o i : ℕ) → Raises of_project (get_project p o i)
unfolding get_project
get_project-Raises p o i = search (service_rules, get_authorised_project-Raises) depth 12

pub ensure_can_create_api_key-Raises :
    (p : CurrentPrincipal) (o : ℕ) → Raises of_tenant (ensure_can_create_api_key p o)
unfolding ensure_can_create_api_key
ensure_can_create_api_key-Raises p o = search service_rules depth 12

pub list_api_keys-Raises :
    (p : CurrentPrincipal) (o l k : ℕ) → Raises of_tenant (list_api_keys p o l k)
unfolding list_api_keys ApiKeys.list_for_organisation ApiKeys.count_for_organisation
list_api_keys-Raises p o l k = search service_rules depth 12

pub list_organisation_events-Raises :
    (p : CurrentPrincipal) (o l k : ℕ) → Raises of_tenant (list_organisation_events true p o l k)
unfolding list_organisation_events AuditEvents.list_for_organisation
    AuditEvents.count_for_organisation
list_organisation_events-Raises p o l k =
    Raises-bind of_tenant _ _ (Raises-pure of_tenant tt) λ x. search service_rules depth 12

pub get_organisation-Raises :
    (p : CurrentPrincipal) (o : ℕ) → Raises of_tenant (get_organisation p o)
unfolding get_organisation
get_organisation-Raises p o = search service_rules depth 12

public_memberships-Raises :
    (ms : List OrganisationMembership) → Raises of_members (public_memberships ms)
unfolding public_memberships
public_memberships-Raises [] = search service_rules
public_memberships-Raises (m ∷ ms) = Raises-bind of_members _ _ (Raises-query of_members _) λ found.
    Raises-bind of_members _ _ (Raises-or_raise of_members _ _ refl) λ user.
      Raises-bind of_members _ _ (public_memberships-Raises ms) λ rest. Raises-pure of_members _

pub list_members-Raises :
    (p : CurrentPrincipal) (o l k : ℕ) → Raises of_members (list_members p o l k)
unfolding list_members Memberships.list_for_organisation Memberships.count_for_organisation
list_members-Raises p o l k = search (service_rules, public_memberships-Raises) depth 12

module _ (allowed : Error → Bool) (h : allowed last_owner_protection ≡ true) where
  protect_last_owner-Raises :
      (o u : ℕ) (r : Option OrganisationRole) → Raises allowed (protect_last_owner o u r)
  unfolding protect_last_owner Memberships.is_last_owner
  protect_last_owner-Raises o u r = search (raise_rules, h) depth 12

  pub protect_if-Raises :
      (o u : ℕ) (r : OrganisationRole) (n : Option OrganisationRole)
      → Raises allowed (protect_if_owner_would_be_removed o u r n)
  unfolding protect_if_owner_would_be_removed
  protect_if-Raises o u r n = search (raise_rules, protect_last_owner-Raises) depth 12

pub check_slug-Raises :
    (o : Organisation) (s : Option Text) → Raises of_organisation (check_slug o s)
unfolding check_slug
check_slug-Raises o none = search service_rules depth 12
check_slug-Raises o (some s) = search service_rules depth 12

pub revoked_at-Raises : (k : ApiKey) (t : Option ℕ) → Raises of_key (revoked_api_key_at k t)
revoked_at-Raises k none = search service_rules
revoked_at-Raises k (some t) = search service_rules
