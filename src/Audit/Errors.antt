-- ===== src/Audit/Errors.antt =====
-- `record_event` is not refused where no key of the metadata is forbidden.
use multi_tenant_saas_api.Base.{ℕ, ◌≡◌, Bool, true, false, Option, Text}
use multi_tenant_saas_api.Domain.{AuditAction}
use multi_tenant_saas_api.Json.{Fields, obj}
use multi_tenant_saas_api.Exec.{
  Env, Error, integrity_error, operational_error, audit_metadata_rejected, raise_if,
}
use multi_tenant_saas_api.Exec.Raises.{Raises, Raises-bind, Raises-pure, Raises-record_metric}
use multi_tenant_saas_api.Repositories.Errors.{create_event-Raises}
use multi_tenant_saas_api.Audit.Metadata.{contains_forbidden_metadata_key}
use multi_tenant_saas_api.Audit.{record_event}

pub unraised :
    (allowed : Error → Bool) (b : Bool) (e : Error) → b ≡ false → Raises allowed (raise_if b e)
unraised allowed true e h = absurd (cc)
unraised allowed false e h = record { at = λ s. tt }

module _ (allowed : Error → Bool) (ho : allowed operational_error ≡ true)
    (hi : allowed integrity_error ≡ true) (env : Env) where
  pub record_event-Raises :
      (a : AuditAction) (t : Text) (o u k i : Option ℕ) (fs : Fields)
      → contains_forbidden_metadata_key (obj fs) ≡ false
      → Raises allowed (record_event env a t o u k i fs)
  unfolding record_event
  record_event-Raises a t o u k i fs safe =
      Raises-bind allowed _ _ (unraised allowed _ audit_metadata_rejected safe) λ x.
        Raises-bind allowed _ _ (create_event-Raises allowed ho hi env a t o u k i fs)
          λ e. Raises-bind allowed _ _ (Raises-record_metric allowed _) λ y. Raises-pure allowed _
