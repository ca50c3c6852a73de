-- ===== src/Server/Log/Requests.antt =====
-- What HTTP requests, one and many, add to the log.
use multi_tenant_saas_api.Base.{◌≡◌, inl, inr, refl, sym, ap, subst, true, Option, Text, All, ◌==◌}
use multi_tenant_saas_api.Database.{Db, User}
use multi_tenant_saas_api.Exec.{Env, State}
use multi_tenant_saas_api.Exec.Rules.{IsClean}
use multi_tenant_saas_api.Exec.Returns.{Returns-weaken}
use multi_tenant_saas_api.Repositories.Users.{add_user}
use multi_tenant_saas_api.Auth.{AuthSettings}
use multi_tenant_saas_api.AuthService.Atomicity.{register_user-Atomic, login_user-Atomic}
use multi_tenant_saas_api.AuthService.Effects.{register_user-Returns}
use multi_tenant_saas_api.AuthService.Effects.Login.{login_user-Returns}
use multi_tenant_saas_api.ApiKeyService.{ProjectPrincipal, hash_key}
use multi_tenant_saas_api.ApiKeyService.Authentication.{
  Principal, ResolvedKey, resolve_project_principal-Atomic, resolve_project_principal-Returns,
}
use multi_tenant_saas_api.Invariants.{IsValid}
use multi_tenant_saas_api.Invariants.Writes.{IsValid-Logged}
use multi_tenant_saas_api.Dependencies.{HttpAuthorizationCredentials}
use multi_tenant_saas_api.Server.{HttpCall, respond}
use multi_tenant_saas_api.Server.Rules.{Stays-of-Atomic, Moves-of-Atomic}
use multi_tenant_saas_api.Server.Requests.{Entries, respond-Moves}
use multi_tenant_saas_api.Server.Tracking.{writes}
use multi_tenant_saas_api.Server.Validity.{IsValid-add_user, only_key, used, request-Permits}
use multi_tenant_saas_api.Server.Log.{
  SameData, SameData-refl, SameData-then, SameData-put_api_key, Audited, Quiet, Told,
  OneEvent-Logged, follows, unused,
}

add_user-log : (u : User) (db : Db) → (add_user u db).audit_events ≡ db.audit_events
unfolding add_user
add_user-log u db = refl

module _ (env : Env) (settings : AuthSettings) (base : Db) where
  key_used :
      (token : Text) (s t : State) (p : ProjectPrincipal)
      → Quiet base s.session
      → ResolvedKey env token s.session p t.committed
      → Quiet base t.committed
  key_used token s t p h k = record {
    valid = used env settings token s t p h.valid k;
    same = SameData-then h.same (
        subst (SameData s.session) (sym k.written) (
          SameData-put_api_key k.used k.api_key s.session
            (subst (λ x. All (λ j. (j.id == x) ≡ true → j ≡ k.api_key) s.session.api_keys)
              (sym k.has_id)
              (only_key env settings (hash_key env token) k.api_key s.session h.valid k.found))
            (ap unused k.has_fields)));
  }

  principal_kept :
      (token : Text) (s t : State) (p : ProjectPrincipal)
      → IsClean s
      → Quiet base s.committed
      → Principal env settings token s p t
      → Quiet base t.committed
  principal_kept token s t p c h (Principal.a_user q e r same) =
      subst (λ x. Quiet base x.committed) (sym same) h
  principal_kept token s t p c h (Principal.a_key k) =
      key_used token s t p (subst (Quiet base) (sym c) h) k

  widened : (db : Db) → Quiet base db → Told base db
  widened db h = record { valid = h.valid; audited = inl h.same }

  pub entries : Entries env settings (Quiet base) (Told base) (λ _. Unit)
  entries = record {
    register_user = λ email password name.
        Moves-of-Atomic (Quiet base) (Told base) widened _
          (register_user-Atomic env settings email password name)
          λ s c h.
            Returns-weaken (register_user-Returns env settings email password name s) λ a t r.
              let g = subst (Quiet base) (sym c) h in
              record {
                valid = IsValid-Logged r.logged (IsValid-add_user r.user s.session g.valid);
                audited = inr (
                    OneEvent-Logged base g.same r.logged (add_user-log r.user s.session)
                      λ e action user key. inr action);
              };
    login_user = λ email password.
        Moves-of-Atomic (Quiet base) (Told base) widened _
          (login_user-Atomic env settings email password)
          λ s c h. Returns-weaken (login_user-Returns env settings email password s) λ a t r.
            let g = subst (Quiet base) (sym c) h in
            record {
              valid = IsValid-Logged r.logged g.valid;
              audited = inr (
                  OneEvent-Logged base g.same r.logged refl
                    λ e action user key. inl (rw (user, key) refl));
            };
    resolve_project_principal = λ token _.
        Stays-of-Atomic (Quiet base) _ (resolve_project_principal-Atomic env settings token)
          λ s c h.
            Returns-weaken (resolve_project_principal-Returns env settings token s)
              λ p t r. principal_kept token s t p c h r;
  }

pub respond-Told :
    (env : Env) (settings : AuthSettings) (found : Option HttpAuthorizationCredentials)
    (call : HttpCall) (s : State)
    → IsValid s.committed
    → Told s.committed (respond env settings found call s).1.committed
respond-Told env settings found call s v =
    respond-Moves env settings (Quiet s.committed) (Told s.committed)
      (widened env settings s.committed) (λ _. Unit) (λ _. Unit)
      (writes env (Quiet s.committed) (Told s.committed) (λ _. Unit) (follows s.committed))
      (entries env settings s.committed) found call s (request-Permits env settings found call)
      (record { valid = v; same = SameData-refl s.committed })

-- From a valid database, one HTTP request, its authentication, its idempotency key and the storing of
-- its response included, whether it is answered or raises, either changes no row of a user,
-- organisation, membership, project or event, and of a key only the times of its use and update; or
-- adds just one event at the end of the log, which names a user or a key as its author, or tells of a
-- registration.
pub respond-Audited :
    (env : Env) (settings : AuthSettings) (found : Option HttpAuthorizationCredentials)
    (call : HttpCall) (s : State)
    → IsValid s.committed
    → Audited s.committed (respond env settings found call s).1.committed
respond-Audited env settings found call s v = (respond-Told env settings found call s v).audited
