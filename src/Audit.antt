-- ===== src/Audit.antt =====
-- services/audit.py: the append-only audit log and its refusal of secret-bearing metadata.
pub mod Metadata
pub mod Pending
pub mod Events
pub mod Errors
unfoldable pub use Metadata.{
  is_forbidden_metadata_key, normalise_metadata_key, contains_forbidden_metadata_key,
}
use multi_tenant_saas_api.Base.{ℕ, Bool, not, Option, some, List, Text, map}
use multi_tenant_saas_api.Domain.{AuditAction, Permission}
use multi_tenant_saas_api.Json.{Json, obj, Fields}
use multi_tenant_saas_api.Database.{AuditEvent}
use multi_tenant_saas_api.Exec.{
  Env, Action, pure, raise_if, ◌>>=◌, ◌>>◌, record_metric, audit_event, audit_metadata_rejected,
  audit_read_configuration,
}
use multi_tenant_saas_api.Repositories.AuditEvents
use multi_tenant_saas_api.Rbac.{CurrentPrincipal, get_tenant_context}

pub record PublicAuditEvent : Type 0 where
  pub id : ℕ
  pub organisation_id : Option ℕ
  pub actor_user_id : Option ℕ
  pub actor_api_key_id : Option ℕ
  pub action : AuditAction
  pub target_type : Text
  pub target_id : Option ℕ
  pub metadata : Fields
  pub created_at : ℕ

abbrev pub public_audit_event_from_model : AuditEvent → PublicAuditEvent
public_audit_event_from_model e = record {
  id = e.id;
  organisation_id = e.organisation_id;
  actor_user_id = e.actor_user_id;
  actor_api_key_id = e.actor_api_key_id;
  action = e.action;
  target_type = e.target_type;
  target_id = e.target_id;
  metadata = e.event_metadata;
  created_at = e.created_at;
}

abbrev reject_secret_metadata : Fields → Action (Unit {0})
reject_secret_metadata metadata =
    raise_if (contains_forbidden_metadata_key (obj metadata)) audit_metadata_rejected

unfoldable pub record_event :
    Env
    → AuditAction
    → Text
    → Option ℕ
    → Option ℕ
    → Option ℕ
    → Option ℕ
    → Fields
    → Action PublicAuditEvent
record_event env action target_type organisation_id actor_user_id actor_api_key_id target_id
      metadata =
    do
      reject_secret_metadata metadata
      event ←
          AuditEvents.create env action target_type organisation_id actor_user_id actor_api_key_id
            target_id metadata
      record_metric (audit_event action)
      pure (public_audit_event_from_model event)

pub record AuditEventPage : Type 0 where
  pub items : List PublicAuditEvent
  pub limit : ℕ
  pub offset : ℕ
  pub total : ℕ

-- `has_rbac`: whether the service was built with an RBAC service.
unfoldable pub list_organisation_events :
    Bool → CurrentPrincipal → ℕ → ℕ → ℕ → Action AuditEventPage
list_organisation_events has_rbac principal organisation_id limit offset = do
  raise_if (not has_rbac) audit_read_configuration
  get_tenant_context principal organisation_id (some Permission.read_audit_events)
  events ← AuditEvents.list_for_organisation organisation_id limit offset
  total ← AuditEvents.count_for_organisation organisation_id
  pure (record {
    items = map public_audit_event_from_model events;
    limit = limit;
    offset = offset;
    total = total;
  })
