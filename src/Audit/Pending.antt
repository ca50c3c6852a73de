-- ===== src/Audit/Pending.antt =====
-- `record_event` leaves the transaction to its caller.
use multi_tenant_saas_api.Base.{ℕ, Option, Text}
use multi_tenant_saas_api.Domain.{AuditAction}
use multi_tenant_saas_api.Json.{Fields}
use multi_tenant_saas_api.Exec.{Env}
use multi_tenant_saas_api.Exec.Rules.{
  KeepsCommitted, KeepsCommitted-of-ReadOnly, ReadOnly-raise_if, pending_rules,
}
use multi_tenant_saas_api.Repositories.Pending.{create_audit_event-KeepsCommitted}
use multi_tenant_saas_api.Audit.{record_event}

pub record_event-KeepsCommitted :
    (env : Env) (a : AuditAction) (target : Text) (o u k t : Option ℕ) (fs : Fields)
    → KeepsCommitted (record_event env a target o u k t fs)
unfolding record_event
record_event-KeepsCommitted env a target o u k t fs =
    search
      (
        pending_rules, KeepsCommitted-of-ReadOnly, ReadOnly-raise_if,
        create_audit_event-KeepsCommitted,
      )
      depth 12
