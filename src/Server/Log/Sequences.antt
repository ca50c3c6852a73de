-- ===== src/Server/Log/Sequences.antt =====
-- What a sequence of HTTP requests adds to the log.
use multi_tenant_saas_api.Base.{
  ◌≤◌, ◌≡◌, ◌∙◌, inl, inr, refl, sym, ap, Option, List, [], ◌∷◌, ◌++◌, length, All, arith,
}
use multi_tenant_saas_api.Database.{Db, AuditEvent}
use multi_tenant_saas_api.Exec.{Env, State}
use multi_tenant_saas_api.Auth.{AuthSettings}
use multi_tenant_saas_api.Invariants.{IsValid}
use multi_tenant_saas_api.Dependencies.{HttpAuthorizationCredentials}
use multi_tenant_saas_api.Server.{HttpCall, respond, respond_all}
use multi_tenant_saas_api.Server.Log.{SameData, SameData-refl, SameData-then, IsSigned, Audited}
use multi_tenant_saas_api.Server.Log.Requests.{respond-Told}

append-[] : {A : Type 0} (xs : List A) → xs ++ [] ≡ xs
append-[] [] = refl
append-[] (x ∷ xs) = ap (λ ys. x ∷ ys) (append-[] xs)

append_assoc : {A : Type 0} (xs ys zs : List A) → (xs ++ ys) ++ zs ≡ xs ++ (ys ++ zs)
append_assoc [] ys zs = refl
append_assoc (x ∷ xs) ys zs = ap (λ us. x ∷ us) (append_assoc xs ys zs)

-- Where there is no event, the data of tenants are the same.
abbrev pub IsExplained : List AuditEvent → Db → Db → Type 0
IsExplained [] before after = SameData before after
IsExplained (e ∷ es) before after = Unit

-- These events, at most so many and each of them signed, were added at the end of the log.
pub record Appended (rs : List (Option HttpAuthorizationCredentials × HttpCall)) (before after : Db)
    : Type 0 where
  pub events : List AuditEvent
  pub log : after.audit_events ≡ before.audit_events ++ events
  pub few : length events ≤ length rs
  pub signed : All IsSigned events
  pub explained : IsExplained events before after

-- A first request that wrote nothing of its own.
IsExplained-then :
    (es : List AuditEvent) (before mid after : Db)
    → SameData before mid
    → IsExplained es mid after
    → IsExplained es before after
IsExplained-then [] before mid after same x = SameData-then same x
IsExplained-then (e ∷ es) before mid after same x = tt

module _ (r : Option HttpAuthorizationCredentials × HttpCall)
    (rs : List (Option HttpAuthorizationCredentials × HttpCall)) {before mid after : Db} where
  Appended-then : Audited before mid → Appended rs mid after → Appended (r ∷ rs) before after
  Appended-then (inl same) a = record {
    events = a.events;
    log = a.log ∙ ap (λ es. es ++ a.events) same.audit_events;
    few = omega (arith, a.few);
    signed = a.signed;
    explained = IsExplained-then a.events before mid after same a.explained;
  }
  Appended-then (inr one) a = record {
    events = one.event ∷ a.events;
    log =
        a.log
        ∙ ap (λ es. es ++ a.events) one.log
        ∙ append_assoc before.audit_events (one.event ∷ []) a.events;
    few = omega (arith, a.few);
    signed = (one.signed, a.signed);
    explained = tt;
  }

-- From a valid database, any sequence of HTTP requests, registration and login included, only adds
-- to the end of the log, by one event for each request at most, each naming a user or a key as its
-- author or telling of a registration; and where no event was added, no row of a user, organisation,
-- membership or project has changed, and of a key only the times of its use and update.
pub respond_all-Appended :
    (env : Env) (settings : AuthSettings)
    (rs : List (Option HttpAuthorizationCredentials × HttpCall)) (s : State)
    → IsValid s.committed
    → Appended rs s.committed (respond_all env settings rs s).committed
unfolding respond_all
respond_all-Appended env settings [] s v = record {
  events = [];
  log = sym (append-[] s.committed.audit_events);
  few = omega arith;
  signed = tt;
  explained = SameData-refl s.committed;
}
respond_all-Appended env settings (r ∷ rs) s v =
    let told = respond-Told env settings r.0 r.1 s v in
    Appended-then r rs told.audited
      (respond_all-Appended env settings rs (respond env settings r.0 r.1 s).1 told.valid)
