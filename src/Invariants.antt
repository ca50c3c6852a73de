-- ===== src/Invariants.antt =====
-- The invariants of the database that hold in every state that requests reach: the constraints of
-- database/models.py, an owner in every organisation, and no secret in the audit log.
pub mod Owners
pub mod Members
pub mod Operations
pub mod Writes
use multi_tenant_saas_api.Base.{ℕ, ◌<◌, ◌≡◌, Bool, false, ◌&&◌, ◌==◌, All, Text, text_eq}
use multi_tenant_saas_api.Base.Unique.{Distinct}
use multi_tenant_saas_api.Json.{obj}
use multi_tenant_saas_api.Database.{
  Db, Organisation, OrganisationMembership, Project, ApiKey, AuditEvent,
}
use multi_tenant_saas_api.Repositories.Memberships.{owners}
use multi_tenant_saas_api.Audit.{contains_forbidden_metadata_key}
use Owners.{same_membership_id}

abbrev pub same_pair : OrganisationMembership → OrganisationMembership → Bool
same_pair m n = (m.organisation_id == n.organisation_id) && (m.user_id == n.user_id)

abbrev pub same_organisation_id : Organisation → Organisation → Bool
same_organisation_id o p = o.id == p.id

abbrev pub same_slug : Organisation → Organisation → Bool
same_slug o p = text_eq o.slug p.slug

abbrev pub same_project_id : Project → Project → Bool
same_project_id p q = p.id == q.id

abbrev pub same_key_id : ApiKey → ApiKey → Bool
same_key_id j k = j.id == k.id

abbrev pub same_hash : ApiKey → ApiKey → Bool
same_hash j k = text_eq j.key_hash k.key_hash

abbrev pub IsSafe : AuditEvent → Type 0
IsSafe e = contains_forbidden_metadata_key (obj e.event_metadata) ≡ false

pub record IsValid (db : Db) : Type 0 where
  pub membership_ids : Distinct same_membership_id db.memberships
  pub membership_pairs : Distinct same_pair db.memberships
  pub organisation_ids : Distinct same_organisation_id db.organisations
  pub organisation_slugs : Distinct same_slug db.organisations
  pub project_ids : Distinct same_project_id db.projects
  pub key_ids : Distinct same_key_id db.api_keys
  pub key_hashes : Distinct same_hash db.api_keys
  pub safe_events : All IsSafe db.audit_events
  pub owned : All (λ o. 0 < owners o.id db) db.organisations
