-- ===== src/Server/Log.antt =====
-- services/audit.py, at the level of requests: every change that a request commits to the data of
-- tenants is told by one event, and the log is never rewritten.
pub mod Requests
pub mod Sequences
pub mod Reads
use multi_tenant_saas_api.Base.{
  ℕ, ◌≡◌, ◌⊎◌, ◌∙◌, inl, inr, refl, sym, ap, subst, Bool, true, Option, none, List, [], ◌∷◌, ◌++◌,
  map, All, update_rows, Bool-cases, ◌==◌,
}
use multi_tenant_saas_api.Domain.{AuditAction}
use multi_tenant_saas_api.Database.{Db, ApiKey, AuditEvent}
use multi_tenant_saas_api.Repositories.ApiKeys.{put_api_key}
use multi_tenant_saas_api.Repositories.IdempotencyRecords.{add_idempotency_record}
use multi_tenant_saas_api.Repositories.AuditEvents.{add_audit_event}
use multi_tenant_saas_api.Audit.Events.{Logged}
use multi_tenant_saas_api.Invariants.{IsValid}
use multi_tenant_saas_api.Tenancy.{Accounted}
use multi_tenant_saas_api.Server.Validity.{IsValid-add_idempotency_record}
use multi_tenant_saas_api.Server.Tracking.{is_actor, Follows}

-- A key without the two times that its use writes.
abbrev pub unused : ApiKey → ApiKey
unused k = record k { last_used_at = none; updated_at = 0 }

-- Nothing has changed but the times of use of keys and the stored responses.
pub record SameData (before after : Db) : Type 0 where
  pub users : after.users ≡ before.users
  pub organisations : after.organisations ≡ before.organisations
  pub memberships : after.memberships ≡ before.memberships
  pub projects : after.projects ≡ before.projects
  pub api_keys : map unused after.api_keys ≡ map unused before.api_keys
  pub audit_events : after.audit_events ≡ before.audit_events

-- An event names its author, a user or a key and not both, or tells of a registration.
abbrev pub IsSigned : AuditEvent → Type 0
IsSigned e =
    (is_actor e.actor_user_id e.actor_api_key_id ≡ true) ⊎ (e.action ≡ AuditAction.user_registered)

-- One signed event was added at the end of the log.
pub record OneEvent (before after : Db) : Type 0 where
  pub event : AuditEvent
  pub log : after.audit_events ≡ before.audit_events ++ event ∷ []
  pub signed : IsSigned event

abbrev pub Audited : Db → Db → Type 0
Audited before after = SameData before after ⊎ OneEvent before after

-- Since `base` a request has written nothing of its own, or has written what its event tells.
pub record Quiet (base db : Db) : Type 0 where
  pub valid : IsValid db
  pub same : SameData base db

pub record Told (base db : Db) : Type 0 where
  pub valid : IsValid db
  pub audited : Audited base db

pub SameData-refl : (db : Db) → SameData db db
SameData-refl db = record {
  users = refl;
  organisations = refl;
  memberships = refl;
  projects = refl;
  api_keys = refl;
  audit_events = refl;
}

pub SameData-then : {a b c : Db} → SameData a b → SameData b c → SameData a c
SameData-then x y = record {
  users = y.users ∙ x.users;
  organisations = y.organisations ∙ x.organisations;
  memberships = y.memberships ∙ x.memberships;
  projects = y.projects ∙ x.projects;
  api_keys = y.api_keys ∙ x.api_keys;
  audit_events = y.audit_events ∙ x.audit_events;
}

map-update :
    {A B : Type 0} (g : A → B) (p : A → Bool) (m old : A) (xs : List A)
    → All (λ x. p x ≡ true → x ≡ old) xs
    → g m ≡ g old
    → map g (update_rows p (λ _. m) xs) ≡ map g xs
map-update g p m old [] a e = refl
map-update g p m old (x ∷ xs) a e = elim (Bool-cases (p x)) [
  | inl hit ↦ rw (hit, a.0 hit, e) (ap (λ ys. g old ∷ ys) (map-update g p m old xs a.1 e))
  | inr miss ↦ rw miss (ap (λ ys. g x ∷ ys) (map-update g p m old xs a.1 e))
]

pub SameData-put_api_key :
    (k old : ApiKey) (db : Db)
    → All (λ j. (j.id == k.id) ≡ true → j ≡ old) db.api_keys
    → unused k ≡ unused old
    → SameData db (put_api_key k db)
unfolding put_api_key
SameData-put_api_key k old db only e = record {
  users = refl;
  organisations = refl;
  memberships = refl;
  projects = refl;
  api_keys = map-update unused (λ j. j.id == k.id) k old db.api_keys only e;
  audit_events = refl;
}

module _ (base : Db) where
  -- The event of a write that left the log alone.
  pub OneEvent-Logged :
      {db after : Db} {write : Db → Db} {a : AuditAction} {o u k target : Option ℕ}
      → SameData base db
      → Logged db after write a o u k target
      → (write db).audit_events ≡ db.audit_events
      → ((e : AuditEvent)
          → e.action ≡ a
          → e.actor_user_id ≡ u
          → e.actor_api_key_id ≡ k
          → IsSigned e)
      → OneEvent base after
  unfolding add_audit_event
  OneEvent-Logged {db} {after} {write} same l log signed = record {
    event = l.event;
    log =
        ap (λ d. d.audit_events) l.written
        ∙ ap (λ es. es ++ l.event ∷ []) (log ∙ same.audit_events);
    signed = signed l.event l.has_action l.by_user l.by_api_key;
  }

  told :
      {user key target : Option ℕ} {db after : Db}
      → SameData base db
      → is_actor user key ≡ true
      → Accounted user key target db after
      → Audited base after
  told same actor (inl e) = inl (subst (SameData base) (sym e) same)
  told same actor (inr c) = inr (record {
    event = c.event;
    log = c.log ∙ ap (λ es. es ++ c.event ∷ []) same.audit_events;
    signed = inl (rw (c.by_user, c.by_api_key) actor);
  })

  stored :
      {db after : Db}
      → SameData db after
      → after.audit_events ≡ db.audit_events
      → Audited base db
      → Audited base after
  stored more log (inl same) = inl (SameData-then same more)
  stored more log (inr e) = inr (record { event = e.event; log = log ∙ e.log; signed = e.signed })

  pub follows : Follows (Quiet base) (Told base) (λ _. Unit)
  unfolding add_idempotency_record
  follows = record {
    widens = λ db h. record { valid = h.valid; audited = inl h.same };
    valid = λ db h. h.valid;
    follow = λ h actor may accounted v. record { valid = v; audited = told h.same actor accounted };
    store = λ r db h. record {
      valid = IsValid-add_idempotency_record r db h.valid;
      audited =
          stored
            (record {
              users = refl;
              organisations = refl;
              memberships = refl;
              projects = refl;
              api_keys = refl;
              audit_events = refl;
            })
            refl h.audited;
    };
  }
