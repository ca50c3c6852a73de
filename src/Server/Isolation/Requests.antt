-- ===== src/Server/Isolation/Requests.antt =====
-- Authentication, registration and login keep apart, and so do whole sequences of requests.
use multi_tenant_saas_api.Base.{
  ℕ, ◌≡◌, ◌∙◌, inl, inr, refl, sym, ap, subst, Bool, true, false, ◌&&◌, ◌||◌, is_none, Option, none,
  some, List, [], ◌∷◌, Text, text_eq, any, select, All, arith, Bool-cases, ◌==◌,
}
use multi_tenant_saas_api.Base.Unique.{any-scalar, scalar-holds}
use multi_tenant_saas_api.Domain.{AuditAction}
use multi_tenant_saas_api.Audit.Events.{Logged}
use multi_tenant_saas_api.Database.{Db, User, ApiKey}
use multi_tenant_saas_api.Exec.{Env, State}
use multi_tenant_saas_api.Exec.Rules.{IsClean}
use multi_tenant_saas_api.Exec.Returns.{Returns-weaken}
use multi_tenant_saas_api.Repositories.Users.{add_user}
use multi_tenant_saas_api.Repositories.ApiKeys.{find_active}
use multi_tenant_saas_api.Auth.{AuthSettings}
use multi_tenant_saas_api.AuthService.Atomicity.{register_user-Atomic, login_user-Atomic}
use multi_tenant_saas_api.AuthService.Effects.{register_user-Returns}
use multi_tenant_saas_api.AuthService.Effects.Login.{login_user-Returns}
use multi_tenant_saas_api.ApiKeyService.{ProjectPrincipal, hash_key}
use multi_tenant_saas_api.ApiKeyService.Authentication.{
  Principal, ResolvedKey, resolve_project_principal-Atomic, resolve_project_principal-Returns,
}
use multi_tenant_saas_api.Invariants.{IsValid}
use multi_tenant_saas_api.Invariants.Writes.{IsValid-Logged}
use multi_tenant_saas_api.Tenancy.{row, key_row, SameTenant, elsewhere, Change}
use multi_tenant_saas_api.Tenancy.Writes.{SameTenant-refl, SameTenant-put_api_key, Change-Logged}
use multi_tenant_saas_api.Dependencies.{HttpAuthorizationCredentials}
use multi_tenant_saas_api.Server.{HttpCall, respond_all}
use multi_tenant_saas_api.Server.Rules.{Stays-of-Atomic, Moves-of-Atomic}
use multi_tenant_saas_api.Server.Requests.{Entries, Permits, respond_all-Stays}
use multi_tenant_saas_api.Server.Validity.{IsValid-add_user, only_key, used}
use multi_tenant_saas_api.Server.Isolation.{Apart, further, follows}
use multi_tenant_saas_api.Server.Tracking.{writes}

any-select :
    {A : Type 0} (p q : A → Bool) (xs : List A) → any q (select p xs) ≡ any (λ x. p x && q x) xs
any-select p q [] = refl
any-select p q (x ∷ xs) = elim (Bool-cases (p x)) [
  | inl hit ↦ rw hit (ap (λ b. q x || b) (any-select p q xs))
  | inr miss ↦ rw miss (any-select p q xs)
]

-- No key of the organisation has the digest of the token.
abbrev pub IsForeign : Env → ℕ → Db → Text → Type 0
IsForeign env o base token =
    any (λ k. (k.organisation_id == o) && text_eq k.key_hash (hash_key env token)) base.api_keys
    ≡ false

SameTenant-add_user : (o : ℕ) (u : User) (db : Db) → SameTenant o db (add_user u db)
unfolding add_user
SameTenant-add_user o u db = record {
  organisations = refl;
  memberships = refl;
  projects = refl;
  api_keys = refl;
  events = refl;
}

add_user-log : (u : User) (db : Db) → (add_user u db).audit_events ≡ db.audit_events
unfolding add_user
add_user-log u db = refl

module _ (o : ℕ) (base : Db) where
  -- A write and its event that belong to no organisation.
  of_no_tenant :
      {db after : Db} {write : Db → Db} {a : AuditAction} {u k t : Option ℕ}
      → Apart o base db
      → Logged db after write a none u k t
      → (write db).audit_events ≡ db.audit_events
      → ((x : ℕ) → SameTenant x db (write db))
      → IsValid after
      → Apart o base after
  of_no_tenant {db} {after} {u = u} {k = k} h l log same v =
      let c : Change u k none db after = Change-Logged l log λ x known away. (same x, refl) in
      further o base h (c.isolated o h.known refl) v

module _ (o : ℕ) (base : Db) (env : Env) where
  -- The key that such a token authenticates is of another organisation.
  key_row-find_active :
      (token : Text) (db : Db) (k : ApiKey)
      → IsForeign env o base token
      → select (key_row o) db.api_keys ≡ select (key_row o) base.api_keys
      → find_active (hash_key env token) db ≡ some k
      → key_row o k ≡ false
  unfolding find_active
  key_row-find_active token db k away same found =
      let matches : ApiKey → Bool = λ x. text_eq x.key_hash (hash_key env token) in
      let active : ApiKey → Bool = λ x. matches x && is_none x.revoked_at in
      let none_here : any (λ x. key_row o x && matches x) db.api_keys ≡ false =
        sym (any-select (key_row o) matches db.api_keys)
        ∙ ap (any matches) same
        ∙ any-select (key_row o) matches base.api_keys
        ∙ away in
      ground (
        arith,
        any-scalar (λ x. key_row o x && matches x) active db.api_keys k found none_here,
        scalar-holds active db.api_keys k found,
      )

  module _ (settings : AuthSettings) where
    key_used :
        (token : Text) (s t : State) (p : ProjectPrincipal)
        → IsForeign env o base token
        → Apart o base s.session
        → ResolvedKey env token s.session p t.committed
        → Apart o base t.committed
    key_used token s t p away h k =
        further o base h
          (subst (SameTenant o s.session) (sym k.written) (
            SameTenant-put_api_key o s.session k.api_key k.used
              (subst (λ x. All (λ j. (j.id == x) ≡ true → j ≡ k.api_key) s.session.api_keys)
                (sym k.has_id)
                (only_key env settings (hash_key env token) k.api_key s.session h.valid k.found))
              (key_row-find_active token s.session k.api_key away h.same.api_keys k.found)
              k.in_organisation))
          (used env settings token s t p h.valid k)

    principal_kept :
        (token : Text) (s t : State) (p : ProjectPrincipal)
        → IsForeign env o base token
        → IsClean s
        → Apart o base s.committed
        → Principal env settings token s p t
        → Apart o base t.committed
    principal_kept token s t p away c h (Principal.a_user q e r same) =
        subst (λ x. Apart o base x.committed) (sym same) h
    principal_kept token s t p away c h (Principal.a_key k) =
        key_used token s t p away (subst (Apart o base) (sym c) h) k

    entries : Entries env settings (Apart o base) (Apart o base) (IsForeign env o base)
    entries = record {
      register_user = λ email password name.
          Moves-of-Atomic (Apart o base) (Apart o base) (λ db h. h) _
            (register_user-Atomic env settings email password name)
            λ s c h.
              Returns-weaken (register_user-Returns env settings email password name s) λ a t r.
                let g = subst (Apart o base) (sym c) h in
                of_no_tenant o base g r.logged (add_user-log r.user s.session)
                  (λ x. SameTenant-add_user x r.user s.session)
                  (IsValid-Logged r.logged (IsValid-add_user r.user s.session g.valid));
      login_user = λ email password.
          Moves-of-Atomic (Apart o base) (Apart o base) (λ db h. h) _
            (login_user-Atomic env settings email password)
            λ s c h. Returns-weaken (login_user-Returns env settings email password s) λ a t r.
              let g = subst (Apart o base) (sym c) h in
              of_no_tenant o base g r.logged refl (λ x. SameTenant-refl x s.session)
                (IsValid-Logged r.logged g.valid);
      resolve_project_principal = λ token away.
          Stays-of-Atomic (Apart o base) _ (resolve_project_principal-Atomic env settings token)
            λ s c h.
              Returns-weaken (resolve_project_principal-Returns env settings token s)
                λ p t r. principal_kept token s t p away c h r;
    }

-- From a valid database, HTTP requests that name other organisations, or none, and whose tokens on
-- the routes of projects are not keys of this one, leave every row of an organisation that exists,
-- its own and those of its members, projects, keys and events, as it was, whatever they ask for and
-- whatever fails on the way.
pub respond_all-SameTenant :
    (env : Env) (settings : AuthSettings)
    (rs : List (Option HttpAuthorizationCredentials × HttpCall)) (s : State) (o : ℕ)
    → IsValid s.committed
    → any (row o) s.committed.organisations ≡ true
    → All (Permits (λ target. elsewhere target o ≡ true) (IsForeign env o s.committed)) rs
    → SameTenant o s.committed (respond_all env settings rs s).committed
respond_all-SameTenant env settings rs s o v known away =
    (respond_all-Stays env settings (Apart o s.committed) (λ target. elsewhere target o ≡ true)
      (IsForeign env o s.committed)
      (writes env (Apart o s.committed) (Apart o s.committed) (λ target. elsewhere target o ≡ true)
        (follows o s.committed))
      (entries o s.committed env settings) rs s away
      (record { valid = v; same = SameTenant-refl o s.committed; known = known })).same
