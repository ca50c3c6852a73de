-- ===== src/Routes/AuditEvents.antt =====
-- routes/audit.py.
use multi_tenant_saas_api.Base.{ℕ, true}
use multi_tenant_saas_api.Exec.{Action, ◌>>=◌}
use multi_tenant_saas_api.Rbac.{CurrentPrincipal}
use multi_tenant_saas_api.Audit.{PublicAuditEvent, AuditEventPage, list_organisation_events}
use multi_tenant_saas_api.Schemas.Fields.{Page, page_response, validated}
use multi_tenant_saas_api.Schemas.Responses.{
  AuditEventResponse, audit_event_response_valid, validate_items,
}
use multi_tenant_saas_api.Routes.{tenant_error, translated}

abbrev to_audit_event_response : PublicAuditEvent → AuditEventResponse
to_audit_event_response e = record {
  id = e.id;
  organisation_id = e.organisation_id;
  actor_user_id = e.actor_user_id;
  actor_api_key_id = e.actor_api_key_id;
  action = e.action;
  target_type = e.target_type;
  target_id = e.target_id;
  metadata = e.metadata;
  created_at = e.created_at;
}

abbrev pub audit_event_response : PublicAuditEvent → Action AuditEventResponse
audit_event_response e =
    validated (audit_event_response_valid (to_audit_event_response e)) (to_audit_event_response e)

unfoldable pub audit_event_list_response : AuditEventPage → Action (Page AuditEventResponse)
audit_event_list_response audit_events = do
  items ← validate_items audit_event_response audit_events.items
  page_response items audit_events.limit audit_events.offset audit_events.total

-- The service has an RBAC service (dependencies.get_audit_service).
unfoldable pub list_audit_events : CurrentPrincipal → ℕ → ℕ → ℕ → Action (Page AuditEventResponse)
list_audit_events principal organisation_id limit offset = do
  audit_events ←
      translated tenant_error (list_organisation_events true principal organisation_id limit offset)
  audit_event_list_response audit_events
