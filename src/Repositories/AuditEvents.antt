-- ===== src/Repositories/AuditEvents.antt =====
-- repositories/audit_events.py
use multi_tenant_saas_api.Base.{
  ℕ, Bool, true, false, Option, none, some, List, [], ◌∷◌, ◌++◌, Text, select, count, order_by,
  page, ◌==◌, ◌&&◌, leb, ltb, if◌then◌else◌,
}
use multi_tenant_saas_api.Domain.{AuditAction}
use multi_tenant_saas_api.Json.{Fields}
use multi_tenant_saas_api.Database.{Db, AuditEvent, audit_event_fits}
use multi_tenant_saas_api.Exec.{Env, Action, pure, query, ◌>>=◌, ◌>>◌, uuid4, now, flush}

unfoldable pub add_audit_event : AuditEvent → Db → Db
add_audit_event e db = record db { audit_events = db.audit_events ++ e ∷ [] }

unfoldable pub create :
    Env
    → AuditAction
    → Text
    → Option ℕ
    → Option ℕ
    → Option ℕ
    → Option ℕ
    → Fields
    → Action AuditEvent
create env action target_type organisation_id actor_user_id actor_api_key_id target_id
      event_metadata =
    do
      i ← uuid4 env
      c ← now env
      let audit_event : AuditEvent = record {
        id = i;
        organisation_id = organisation_id;
        actor_user_id = actor_user_id;
        actor_api_key_id = actor_api_key_id;
        action = action;
        target_type = target_type;
        target_id = target_id;
        event_metadata = event_metadata;
        created_at = c;
      }
      flush env (λ db. audit_event_fits db audit_event) (add_audit_event audit_event)
      pure audit_event

abbrev is_about : ℕ → AuditEvent → Bool
is_about organisation_id e = elim e.organisation_id [ none ↦ false | some i ↦ i == organisation_id ]

-- `ORDER BY created_at DESC, id DESC`
abbrev pub newest_first : AuditEvent → AuditEvent → Bool
newest_first e f =
    if ltb f.created_at e.created_at then true else (e.created_at == f.created_at) && leb f.id e.id

unfoldable pub list_for_organisation : ℕ → ℕ → ℕ → Action (List AuditEvent)
list_for_organisation organisation_id limit offset = query λ db.
    page limit offset (order_by newest_first (select (is_about organisation_id) db.audit_events))

unfoldable pub count_for_organisation : ℕ → Action ℕ
count_for_organisation organisation_id =
    query λ db. count (is_about organisation_id) db.audit_events
