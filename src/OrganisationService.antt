-- ===== src/OrganisationService.antt =====
-- services/organisations.py: creating, listing, reading and updating organisation tenants.
pub mod Slug
pub mod Atomicity
pub mod Effects
pub mod Outcomes
use multi_tenant_saas_api.Base.{
  ℕ, Bool, true, false, not, ◌&&◌, Option, none, some, List, [], ◌∷◌, ◌++◌, map, Text, codes,
  text_eq, strip, lower, is_none, if◌then◌else◌,
}
use multi_tenant_saas_api.Domain.{OrganisationRole, Permission, AuditAction}
use multi_tenant_saas_api.Json.{Json, Items, nil, item, Fields, field, end}
use multi_tenant_saas_api.Database.{Organisation, OrganisationMembership}
use multi_tenant_saas_api.Exec.{
  Env, Action, Error, pure, raise_if, or_raise, ◌>>=◌, ◌>>◌, commit, transaction, record_metric,
  integrity_error, organisation_not_found, organisation_slug_already_exists, Metric,
}
use multi_tenant_saas_api.Repositories.Organisations
use multi_tenant_saas_api.Repositories.Memberships
use multi_tenant_saas_api.Rbac.{CurrentPrincipal, get_tenant_context}
use multi_tenant_saas_api.Audit.{record_event}
use Slug.{slug_from_name}

pub record PublicOrganisation : Type 0 where
  pub id : ℕ
  pub name : Text
  pub slug : Text
  pub created_at : ℕ
  pub updated_at : ℕ

pub record OrganisationList : Type 0 where
  pub items : List PublicOrganisation
  pub limit : ℕ
  pub offset : ℕ
  pub total : ℕ

pub record CreatedOwnerMembership : Type 0 where
  pub id : ℕ
  pub organisation_id : ℕ
  pub user_id : ℕ
  pub role : OrganisationRole
  pub created_at : ℕ
  pub updated_at : ℕ

pub record CreatedOrganisation : Type 0 where
  pub organisation : PublicOrganisation
  pub owner_membership : CreatedOwnerMembership

abbrev pub public_organisation_from_model : Organisation → PublicOrganisation
public_organisation_from_model o = record {
  id = o.id;
  name = o.name;
  slug = o.slug;
  created_at = o.created_at;
  updated_at = o.updated_at;
}

abbrev pub created_organisation : Organisation → OrganisationMembership → CreatedOrganisation
created_organisation o m = record {
  organisation = public_organisation_from_model o;
  owner_membership = record {
    id = m.id;
    organisation_id = m.organisation_id;
    user_id = m.user_id;
    role = m.role;
    created_at = m.created_at;
    updated_at = m.updated_at;
  };
}

unfoldable pub normalise_slug : Text → Text
normalise_slug slug = lower (strip slug)

-- `except IntegrityError`
abbrev pub taken : Error → Error
taken integrity_error = organisation_slug_already_exists
taken e = e

unfoldable pub insert_organisation :
    Env → ℕ → Text → Text → Action (Organisation × OrganisationMembership)
insert_organisation env user_id name slug = do
  organisation ← Organisations.create env name slug
  owner_membership ← Memberships.create env organisation.id user_id OrganisationRole.owner
  record_event env AuditAction.organisation_created (codes "organisation") (some organisation.id)
      (some user_id) none (some organisation.id) end
  commit env
  record_metric Metric.organisation_created
  pure (organisation, owner_membership)

abbrev pub requested_slug : Text → Option Text → Text
requested_slug name none = slug_from_name name
requested_slug name (some slug) = normalise_slug slug

unfoldable pub create_organisation :
    Env → CurrentPrincipal → Text → Option Text → Action CreatedOrganisation
unfolding normalise_slug
create_organisation env principal name slug = do
  let requested = requested_slug name slug
  existing ← Organisations.get_by_slug requested
  raise_if (not (is_none existing)) organisation_slug_already_exists
  created ← transaction taken (insert_organisation env principal.user_id name requested)
  pure (created_organisation created.0 created.1)

unfoldable pub list_organisations : Env → CurrentPrincipal → ℕ → ℕ → Action OrganisationList
list_organisations env principal limit offset = do
  organisations ← Organisations.list_for_user env principal.user_id limit offset
  total ← Organisations.count_for_user principal.user_id
  pure (record {
    items = map public_organisation_from_model organisations;
    limit = limit;
    offset = offset;
    total = total;
  })

unfoldable pub get_organisation : CurrentPrincipal → ℕ → Action PublicOrganisation
get_organisation principal organisation_id = do
  get_tenant_context principal organisation_id (some Permission.read_organisation)
  found ← Organisations.get_by_id organisation_id
  organisation ← or_raise found organisation_not_found
  pure (public_organisation_from_model organisation)

abbrev provided : Option Text → Text → Items → Items
provided none name rest = rest
provided (some t) name rest = item (Json.str name) rest

abbrev pub provided_update_fields : Option Text → Option Text → Items
provided_update_fields name slug = provided name (codes "name") (provided slug (codes "slug") nil)

-- A new slug, other than the present one, must not be in use.
unfoldable pub check_slug : Organisation → Option Text → Action (Unit {0})
check_slug organisation none = pure tt
check_slug organisation (some slug) = if text_eq slug organisation.slug then pure tt else do
  existing ← Organisations.get_by_slug slug
  raise_if (not (is_none existing)) organisation_slug_already_exists

unfoldable pub write_organisation :
    Env → ℕ → Organisation → Option Text → Option Text → Action Organisation
write_organisation env user_id organisation name slug = do
  updated ← Organisations.update env organisation name slug
  record_event env AuditAction.organisation_updated (codes "organisation") (some updated.id)
      (some user_id) none (some updated.id)
      (field (codes "changed_fields") (Json.arr (provided_update_fields name slug)) end)
  commit env
  pure updated

abbrev pub normalised : Option Text → Option Text
normalised none = none
normalised (some slug) = some (normalise_slug slug)

unfoldable pub update_organisation :
    Env → CurrentPrincipal → ℕ → Option Text → Option Text → Action PublicOrganisation
unfolding normalise_slug
update_organisation env principal organisation_id name slug = do
  get_tenant_context principal organisation_id (some Permission.update_organisation)
  found ← Organisations.get_by_id organisation_id
  organisation ← or_raise found organisation_not_found
  check_slug organisation (normalised slug)
  updated ←
      transaction taken
        (write_organisation env principal.user_id organisation name (normalised slug))
  pure (public_organisation_from_model updated)
