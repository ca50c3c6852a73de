-- ===== src/Audit/Events.antt =====
-- What `record_event` adds to the log.
use multi_tenant_saas_api.Base.{ℕ, ◌≡◌, ◌∙◌, refl, sym, ap, subst, true, false, Option, Text}
use multi_tenant_saas_api.Domain.{AuditAction}
use multi_tenant_saas_api.Json.{obj, Fields}
use multi_tenant_saas_api.Database.{Db, AuditEvent, audit_event_fits}
use multi_tenant_saas_api.Exec.{Env, State}
use multi_tenant_saas_api.Exec.Returns.{
  Returns, Returns-bind, Returns-pure, Returns-raise_if, Returns-record_metric,
}
use multi_tenant_saas_api.Repositories.AuditEvents.{add_audit_event}
use multi_tenant_saas_api.Repositories.Outcomes.{NewEvent, create_audit_event-Returns}
use multi_tenant_saas_api.Audit.{
  PublicAuditEvent, public_audit_event_from_model, contains_forbidden_metadata_key, record_event,
}

-- One event was added to the session's log, and its metadata carry no secret.
pub record Recorded (env : Env) (s : State) (a : AuditAction) (o u k target : Option ℕ)
    (v : PublicAuditEvent) (t : State) : Type 0 where
  pub event : AuditEvent
  pub metadata : Fields
  pub new : NewEvent env s a o u k target metadata event t
  pub safe : contains_forbidden_metadata_key (obj metadata) ≡ false
  pub answer : v ≡ public_audit_event_from_model event

NewEvent-same :
    {env : Env} {s : State} {a : AuditAction} {o u k target : Option ℕ} {fs : Fields}
    {e : AuditEvent} {t w : State}
    → NewEvent env s a o u k target fs e t
    → w.session ≡ t.session
    → w.committed ≡ t.committed
    → NewEvent env s a o u k target fs e w
NewEvent-same new es ec = record {
  wrote = record { session = es ∙ new.wrote.session; committed = ec ∙ new.wrote.committed };
  fits = new.fits;
  has_action = new.has_action;
  in_organisation = new.in_organisation;
  by_user = new.by_user;
  by_api_key = new.by_api_key;
  on_target = new.on_target;
  has_metadata = new.has_metadata;
}

pub record_event-Returns :
    (env : Env) (s : State) (a : AuditAction) (type : Text) (o u k target : Option ℕ) (fs : Fields)
    → Returns (record_event env a type o u k target fs) s (Recorded env s a o u k target)
unfolding record_event
record_event-Returns env s a type o u k target fs = Returns-raise_if _ _ _ λ safe.
    Returns-bind _ _ (create_audit_event-Returns env s a type o u k target fs) λ e t new.
      Returns-record_metric _ _ λ w es ec. Returns-pure _ (record {
        event = e;
        metadata = fs;
        new = NewEvent-same new es ec;
        safe = safe;
        answer = refl;
      })

-- One write and one event about it, and nothing else, lie between two states of the database.
pub record Logged (before after : Db) (write : Db → Db) (a : AuditAction) (o u k target : Option ℕ)
    : Type 0 where
  pub event : AuditEvent
  pub written : after ≡ add_audit_event event (write before)
  pub fits : audit_event_fits (write before) event ≡ true
  pub has_action : event.action ≡ a
  pub in_organisation : event.organisation_id ≡ o
  pub by_user : event.actor_user_id ≡ u
  pub by_api_key : event.actor_api_key_id ≡ k
  pub on_target : event.target_id ≡ target
  pub safe : contains_forbidden_metadata_key (obj event.event_metadata) ≡ false

pub Logged-of-Recorded :
    {env : Env} {before after : Db} {write : Db → Db} {s : State} {a : AuditAction}
    {o u k target : Option ℕ} {v : PublicAuditEvent} {t : State}
    → s.session ≡ write before
    → Recorded env s a o u k target v t
    → after ≡ t.session
    → Logged before after write a o u k target
Logged-of-Recorded {write = write} e r c = record {
  event = r.event;
  written = c ∙ r.new.wrote.session ∙ ap (add_audit_event r.event) e;
  fits = subst (λ d. audit_event_fits d r.event ≡ true) e r.new.fits;
  has_action = r.new.has_action;
  in_organisation = r.new.in_organisation;
  by_user = r.new.by_user;
  by_api_key = r.new.by_api_key;
  on_target = r.new.on_target;
  safe =
      subst (λ m. contains_forbidden_metadata_key (obj m) ≡ false) (sym r.new.has_metadata) r.safe;
}
