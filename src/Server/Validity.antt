-- ===== src/Server/Validity.antt =====
-- The invariants of the database hold whatever HTTP requests are served.
use multi_tenant_saas_api.Base.{
  ◌≡◌, sym, subst, All, true, is_none, Option, none, some, List, [], ◌∷◌, Text, ◌==◌, arith, ◌&&◌,
  text_eq,
}
use multi_tenant_saas_api.Base.Unique.{unique_row}
use multi_tenant_saas_api.Database.{Db, User, ApiKey, IdempotencyRecord}
use multi_tenant_saas_api.Exec.{Env, State}
use multi_tenant_saas_api.Exec.Rules.{IsClean}
use multi_tenant_saas_api.Exec.Returns.{Returns-weaken}
use multi_tenant_saas_api.Repositories.Users.{add_user}
use multi_tenant_saas_api.Repositories.ApiKeys.{find_active}
use multi_tenant_saas_api.Repositories.IdempotencyRecords.{add_idempotency_record}
use multi_tenant_saas_api.Repositories.Memberships.{owners}
use multi_tenant_saas_api.Auth.{AuthSettings}
use multi_tenant_saas_api.AuthService.Atomicity.{register_user-Atomic, login_user-Atomic}
use multi_tenant_saas_api.AuthService.Effects.{register_user-Returns}
use multi_tenant_saas_api.AuthService.Effects.Login.{login_user-Returns}
use multi_tenant_saas_api.ApiKeyService.{ProjectPrincipal, hash_key}
use multi_tenant_saas_api.ApiKeyService.Authentication.{
  Principal, ResolvedKey, resolve_project_principal-Atomic, resolve_project_principal-Returns,
}
use multi_tenant_saas_api.Invariants.{IsValid, same_key_id}
use multi_tenant_saas_api.Invariants.Writes.{IsValid-Logged, IsValid-put_api_key}
use multi_tenant_saas_api.Dependencies.{HttpAuthorizationCredentials}
use multi_tenant_saas_api.Server.{HttpCall, respond_all}
use multi_tenant_saas_api.Server.Rules.{Stays-of-Atomic, Moves-of-Atomic}
use multi_tenant_saas_api.Server.Tracking.{Follows, writes}
use multi_tenant_saas_api.Server.Requests.{Entries, Permits, respond_all-Stays}

pub IsValid-add_user : (u : User) (db : Db) → IsValid db → IsValid (add_user u db)
unfolding add_user owners
IsValid-add_user u db v = record {
  membership_ids = v.membership_ids;
  membership_pairs = v.membership_pairs;
  organisation_ids = v.organisation_ids;
  organisation_slugs = v.organisation_slugs;
  project_ids = v.project_ids;
  key_ids = v.key_ids;
  key_hashes = v.key_hashes;
  safe_events = v.safe_events;
  owned = v.owned;
}

pub IsValid-add_idempotency_record :
    (r : IdempotencyRecord) (db : Db) → IsValid db → IsValid (add_idempotency_record r db)
unfolding add_idempotency_record owners
IsValid-add_idempotency_record r db v = record {
  membership_ids = v.membership_ids;
  membership_pairs = v.membership_pairs;
  organisation_ids = v.organisation_ids;
  organisation_slugs = v.organisation_slugs;
  project_ids = v.project_ids;
  key_ids = v.key_ids;
  key_hashes = v.key_hashes;
  safe_events = v.safe_events;
  owned = v.owned;
}

-- In view at the start is what is committed.
pub viewed : (s : State) → IsClean s → IsValid s.committed → IsValid s.session
viewed s c v = subst IsValid (sym c) v

follows : Follows IsValid IsValid (λ _. Unit)
follows = record {
  widens = λ db v. v;
  valid = λ db v. v;
  follow = λ h actor may accounted v. v;
  store = IsValid-add_idempotency_record;
}

module _ (env : Env) (settings : AuthSettings) where
  pub only_key :
      (hash : Text) (old : ApiKey) (db : Db)
      → IsValid db
      → find_active hash db ≡ some old
      → All (λ j. (j.id == old.id) ≡ true → j ≡ old) db.api_keys
  unfolding find_active
  only_key hash old db v found =
      unique_row same_key_id (λ k. text_eq k.key_hash hash && is_none k.revoked_at)
        (λ j. j.id == old.id) db.api_keys old (λ x y px py. ground arith) v.key_ids found
        (ground arith)

  pub used :
      (token : Text) (s t : State) (p : ProjectPrincipal)
      → IsValid s.session
      → ResolvedKey env token s.session p t.committed
      → IsValid t.committed
  used token s t p v k = subst IsValid (sym k.written) (
      IsValid-put_api_key k.api_key k.used s.session
        (subst (λ x. All (λ j. (j.id == x) ≡ true → j ≡ k.api_key) s.session.api_keys)
          (sym k.has_id) (only_key (hash_key env token) k.api_key s.session v k.found))
        k.has_id k.has_hash v)

  pub principal_kept :
      (token : Text) (s t : State) (p : ProjectPrincipal)
      → IsClean s
      → IsValid s.committed
      → Principal env settings token s p t
      → IsValid t.committed
  principal_kept token s t p c v (Principal.a_user q e r same) =
      subst (λ x. IsValid x.committed) (sym same) v
  principal_kept token s t p c v (Principal.a_key k) = used token s t p (viewed s c v) k

  entries : Entries env settings IsValid IsValid (λ _. Unit)
  entries = record {
    register_user = λ email password name.
        Moves-of-Atomic IsValid IsValid (λ db v. v) _
          (register_user-Atomic env settings email password name)
          λ s c v.
            Returns-weaken (register_user-Returns env settings email password name s)
              λ a t r. IsValid-Logged r.logged (IsValid-add_user r.user s.session (viewed s c v));
    login_user = λ email password.
        Moves-of-Atomic IsValid IsValid (λ db v. v) _
          (login_user-Atomic env settings email password)
          λ s c v.
            Returns-weaken (login_user-Returns env settings email password s)
              λ a t r. IsValid-Logged r.logged (viewed s c v);
    resolve_project_principal = λ token _.
        Stays-of-Atomic IsValid _ (resolve_project_principal-Atomic env settings token) λ s c v.
          Returns-weaken (resolve_project_principal-Returns env settings token s)
            λ p t r. principal_kept token s t p c v r;
  }

  pub request-Permits :
      (found : Option HttpAuthorizationCredentials) (call : HttpCall)
      → Permits (λ _. Unit) (λ _. Unit) (found, call)
  request-Permits found (HttpCall.register payload) = tt
  request-Permits found (HttpCall.login payload) = tt
  request-Permits found HttpCall.me = tt
  request-Permits found (HttpCall.by_user call) = λ p. tt
  request-Permits none (HttpCall.by_principal call) = (tt, λ p. tt)
  request-Permits (some header) (HttpCall.by_principal call) = (tt, λ p. tt)

  requests-Permits :
      (rs : List (Option HttpAuthorizationCredentials × HttpCall))
      → All (Permits (λ _. Unit) (λ _. Unit)) rs
  requests-Permits [] = tt
  requests-Permits (r ∷ rs) = (request-Permits r.0 r.1, requests-Permits rs)

  -- From a valid database, any sequence of HTTP requests, whatever bearer tokens and idempotency keys
  -- they have and whatever fails on the way, registration, login and replays included, ends with a
  -- valid one committed: every organisation has an owner, identifiers, slugs, key hashes and the
  -- members of an organisation are distinct, and no audit event has a forbidden metadata key.
  pub respond_all-IsValid :
      (rs : List (Option HttpAuthorizationCredentials × HttpCall)) (s : State)
      → IsValid s.committed
      → IsValid (respond_all env settings rs s).committed
  respond_all-IsValid rs s v =
      respond_all-Stays env settings IsValid (λ _. Unit) (λ _. Unit)
        (writes env IsValid IsValid (λ _. Unit) follows) entries rs s (requests-Permits rs) v
