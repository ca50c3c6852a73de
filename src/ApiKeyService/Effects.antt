-- ===== src/ApiKeyService/Effects.antt =====
-- What creating and revoking an API key do to the database when they return.
use multi_tenant_saas_api.Base.{
  ℕ, ◌≡◌, ◌≢◌, ◌⊎◌, ◌∙◌, inl, inr, refl, sym, subst, true, none, some, Text, is_none-eq, not_none,
  arith,
}
use multi_tenant_saas_api.Domain.{Permission, AuditAction}
use multi_tenant_saas_api.Database.{Db, ApiKey, api_key_fits}
use multi_tenant_saas_api.Exec.{Env, State, token_urlsafe, ◌>>=◌}
use multi_tenant_saas_api.Exec.Returns.{
  Returns, Returns-pure, Returns-bind, Returns-check, Returns-query, Returns-or_raise,
  Returns-commit, Returns-transaction, Returns-record_metric, Returns-weaken, Returns-if,
}
use multi_tenant_saas_api.Repositories.ApiKeys.{add_api_key, put_api_key, find_api_key}
use multi_tenant_saas_api.Repositories.Outcomes.{create_api_key-Returns, revoke-Returns}
use multi_tenant_saas_api.Rbac.{CurrentPrincipal, TenantContext}
use multi_tenant_saas_api.Rbac.Reads.{get_tenant_context-ReadOnly}
use multi_tenant_saas_api.Rbac.Access.{Authorised, get_tenant_context-Returns}
use multi_tenant_saas_api.Audit.Events.{Logged, Logged-of-Recorded, record_event-Returns}
use multi_tenant_saas_api.ApiKeyService.{
  CreatedApiKey, RevokedApiKey, public_api_key_from_model, key_prefix, hash_key, generate_raw_key,
  insert_api_key, create_api_key, write_revocation, revoke_once, revoke_api_key, revoked_api_key,
}

-- The new row holds the digest and the prefix of the raw key.
pub record Inserted (env : Env) (u o : ℕ) (name raw_key : Text) (before : Db) (k : ApiKey)
    (after : Db) : Type 0 where
  pub logged :
      Logged before after
        (add_api_key k)
        AuditAction.api_key_created
        (some o)
        (some u)
        none
        (some k.id)
  pub fits : api_key_fits before k ≡ true
  pub in_organisation : k.organisation_id ≡ o
  pub has_name : k.name ≡ name
  pub has_prefix : k.key_prefix ≡ key_prefix raw_key
  pub has_hash : k.key_hash ≡ hash_key env raw_key
  pub active : k.revoked_at ≡ none

insert_api_key-Returns :
    (env : Env) (u o : ℕ) (name raw_key : Text) (s : State)
    → Returns
        (insert_api_key env u o name raw_key)
        s
        (λ k t. Inserted env u o name raw_key s.session k t.committed)
unfolding insert_api_key
insert_api_key-Returns env u o name raw_key s =
    Returns-bind _ _ (create_api_key-Returns env s o name _ _ (some u)) λ k t new.
      Returns-bind _ _ (record_event-Returns env t _ _ _ _ _ _ _) λ v w recorded.
        Returns-commit env _ λ c es ec. Returns-record_metric _ _ λ m fs fc.
          Returns-pure k (record {
            logged = Logged-of-Recorded new.wrote.session recorded (fc ∙ ec);
            fits = new.fits;
            in_organisation = new.in_organisation;
            has_name = new.has_name;
            has_prefix = new.has_prefix;
            has_hash = new.has_hash;
            active = new.active;
          })

pub record Created (env : Env) (p : CurrentPrincipal) (o : ℕ) (name : Text) (before : Db)
    (v : CreatedApiKey) (after : Db) : Type 0 where
  pub context : TenantContext
  pub authorised : Authorised p o Permission.manage_api_keys before context
  pub api_key : ApiKey
  pub inserted : Inserted env p.user_id o name v.raw_key before api_key after
  pub answer : v.api_key ≡ public_api_key_from_model api_key

generate_raw_key-Returns :
    (env : Env) (s : State) → Returns (generate_raw_key env) s (λ _ t. t.session ≡ s.session)
unfolding generate_raw_key token_urlsafe ◌>>=◌
generate_raw_key-Returns env s = record { at = λ r t h. ground arith }

-- A returned `create_api_key` was allowed, has committed the key's digest and its event only, and
-- answers with the raw key of that digest.
pub create_api_key-Returns_lem :
    (env : Env) (p : CurrentPrincipal) (o : ℕ) (name : Text) (s : State)
    → Returns (create_api_key env p o name) s (λ v t. Created env p o name s.session v t.committed)
unfolding create_api_key
create_api_key-Returns_lem env p o name s =
    Returns-check _ _ (get_tenant_context-ReadOnly _ _ _) (get_tenant_context-Returns p o _ s)
      λ context authorised. Returns-bind _ _ (generate_raw_key-Returns env s) λ raw_key t same.
        Returns-bind _ _
          (Returns-transaction _ _ (insert_api_key-Returns env p.user_id o name raw_key t))
          λ k w inserted. Returns-pure _ (record {
            context = context;
            authorised = authorised;
            api_key = k;
            inserted =
                subst (λ d. Inserted env p.user_id o name raw_key d k w.committed) same inserted;
            answer = refl;
          })

-- The key was active, and its row was rewritten as revoked.
pub record Written (u o : ℕ) (old : ApiKey) (before : Db) (k : ApiKey) (after : Db) : Type 0 where
  pub active : old.revoked_at ≡ none
  pub logged :
      Logged before after
        (put_api_key k)
        AuditAction.api_key_revoked
        (some o)
        (some u)
        none
        (some k.id)
  pub has_id : k.id ≡ old.id
  pub in_organisation : k.organisation_id ≡ old.organisation_id
  pub has_hash : k.key_hash ≡ old.key_hash

-- The key was revoked before, and nothing was written.
pub record Kept (old : ApiKey) (s : State) (k : ApiKey) (t : State) : Type 0 where
  pub same : k ≡ old
  pub idle : t ≡ s

abbrev pub Outcome : ℕ → ℕ → ApiKey → State → ApiKey → State → Type 0
Outcome u o old s k t =
    (k.revoked_at ≢ none) × (Written u o old s.session k t.committed ⊎ Kept old s k t)

write_revocation-Returns :
    (env : Env) (u o : ℕ) (old : ApiKey) (s : State)
    → old.revoked_at ≡ none
    → Returns
        (write_revocation env u o old)
        s
        (λ k t. (k.revoked_at ≢ none) × Written u o old s.session k t.committed)
unfolding write_revocation
write_revocation-Returns env u o old s active =
    Returns-bind _ _ (revoke-Returns env s old) λ k t gone.
      Returns-bind _ _ (record_event-Returns env t _ _ _ _ _ _ _) λ v w recorded.
        Returns-commit env _ λ c es ec. Returns-record_metric _ _ λ m fs fc. Returns-pure k (
          gone.revoked,
          record {
            active = active;
            logged = Logged-of-Recorded gone.wrote.session recorded (fc ∙ ec);
            has_id = gone.has_id;
            in_organisation = gone.in_organisation;
            has_hash = gone.has_hash;
          },
        )

revoke_once-Returns :
    (env : Env) (u o : ℕ) (old : ApiKey) (s : State)
    → Returns (revoke_once env u o old) s (Outcome u o old s)
unfolding revoke_once
revoke_once-Returns env u o old s =
    Returns-if _ _ _
      (λ active.
        Returns-weaken (write_revocation-Returns env u o old s (is_none-eq active))
          (λ k t w. (w.0, inl w.1)))
      (λ gone. Returns-pure old (not_none gone, inr (record { same = refl; idle = refl })))

pub revoke_once-revoked :
    (env : Env) (u o : ℕ) (old : ApiKey) (s : State)
    → Returns (revoke_once env u o old) s (λ k _. k.revoked_at ≢ none)
revoke_once-revoked env u o old s =
    Returns-weaken (revoke_once-Returns env u o old s) (λ k t w. w.0)

pub record Revoked (p : CurrentPrincipal) (o i : ℕ) (s : State) (v : RevokedApiKey) (t : State)
    : Type 0 where
  pub context : TenantContext
  pub authorised : Authorised p o Permission.manage_api_keys s.session context
  pub old : ApiKey
  pub found : find_api_key o i s.session ≡ some old
  pub api_key : ApiKey
  pub outcome : Outcome p.user_id o old s api_key t
  pub answer : (api_key.revoked_at ≡ some v.revoked_at) × (v.id ≡ api_key.id)

answered :
    (k : ApiKey) (s : State)
    → Returns
        (revoked_api_key k)
        s
        (λ v t. (t ≡ s) × (k.revoked_at ≡ some v.revoked_at) × (v.id ≡ k.id))
answered k s = record { at = λ v t h. ground arith }

-- A returned `revoke_api_key` was allowed; it has revoked an active key, with one event, or found
-- the key revoked and done nothing.
pub revoke_api_key-Returns_lem :
    (env : Env) (p : CurrentPrincipal) (o i : ℕ) (s : State)
    → Returns (revoke_api_key env p o i) s (Revoked p o i s)
unfolding revoke_api_key
revoke_api_key-Returns_lem env p o i s =
    Returns-check _ _ (get_tenant_context-ReadOnly _ _ _) (get_tenant_context-Returns p o _ s)
      λ context authorised. Returns-query _ _ (
        Returns-or_raise _ _ _ λ old found.
          Returns-bind _ _ (Returns-transaction _ _ (revoke_once-Returns env p.user_id o old s))
            λ k t outcome. Returns-weaken (answered k t) λ v w a. record {
              context = context;
              authorised = authorised;
              old = old;
              found = found;
              api_key = k;
              outcome = subst (Outcome p.user_id o old s k) (sym a.0) outcome;
              answer = (a.1, a.2);
            })
