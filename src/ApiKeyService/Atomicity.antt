-- ===== src/ApiKeyService/Atomicity.antt =====
-- Each API key operation is one unit of work.
use multi_tenant_saas_api.Base.{ℕ, ◌≡◌, ◌≢◌, refl, Option-cases, inl, inr, none, Text}
use multi_tenant_saas_api.Database.{ApiKey}
use multi_tenant_saas_api.Exec.{Env, pure, ◌>>=◌, token_urlsafe}
use multi_tenant_saas_api.Exec.Returns.{Returns-transaction}
use multi_tenant_saas_api.Exec.Rules.{
  Commits, Settles, Settles-if, Settles-pure, Settles-of-Commits, ReadOnly-query, ReadOnly-or_raise,
  Atomic-transaction, Idle, Atomic, Atomic-bind, Atomic-bind-Idle, Atomic-then, commit_rules,
  atomic_rules,
}
use multi_tenant_saas_api.Repositories.Pending.{
  create_api_key-KeepsCommitted, revoke-KeepsCommitted,
}
use multi_tenant_saas_api.Rbac.{CurrentPrincipal}
use multi_tenant_saas_api.Rbac.Reads.{get_tenant_context-ReadOnly}
use multi_tenant_saas_api.Audit.Pending.{record_event-KeepsCommitted}
use multi_tenant_saas_api.ApiKeyService.{
  insert_api_key, generate_raw_key, create_api_key, write_revocation, revoke_once, revoke_api_key,
  RevokedApiKey, revoked_api_key, revoked_api_key_at,
}
use multi_tenant_saas_api.ApiKeyService.Effects.{revoke_once-revoked}

module _ (env : Env) where
  insert_api_key-Commits : (u o : ℕ) (n r : Text) → Commits (insert_api_key env u o n r)
  unfolding insert_api_key
  insert_api_key-Commits u o n r =
      search (commit_rules, create_api_key-KeepsCommitted, record_event-KeepsCommitted)

  write_revocation-Commits : (u o : ℕ) (k : ApiKey) → Commits (write_revocation env u o k)
  unfolding write_revocation
  write_revocation-Commits u o k =
      search (commit_rules, revoke-KeepsCommitted, record_event-KeepsCommitted)

  generate_raw_key-Idle : Idle (generate_raw_key env)
  unfolding generate_raw_key token_urlsafe ◌>>=◌
  generate_raw_key-Idle = record { session = λ s. refl; committed = λ s. refl }

  pub create_api_key-Atomic :
      (p : CurrentPrincipal) (o : ℕ) (n : Text) → Atomic (create_api_key env p o n)
  unfolding create_api_key
  create_api_key-Atomic p o n =
      search
        (
          atomic_rules, get_tenant_context-ReadOnly, Atomic-bind-Idle, generate_raw_key-Idle,
          insert_api_key-Commits,
        )
        depth 8

  revoke_once-Settles : (u o : ℕ) (k : ApiKey) → Settles (revoke_once env u o k)
  unfolding revoke_once
  revoke_once-Settles u o k =
      search (Settles-if, Settles-pure, Settles-of-Commits, write_revocation-Commits)

  -- What is answered after the commit cannot fail.
  revoked_answer :
      (k : ApiKey) → k.revoked_at ≢ none → (b : RevokedApiKey) × (revoked_api_key k ≡ pure b)
  revoked_answer k h = elim (Option-cases k.revoked_at) [
    | inl e ↦ absurd (h e)
    | inr (t, e) ↦ (
      record { id = k.id; organisation_id = k.organisation_id; revoked_at = t },
      rw (e, revoked_api_key_at),
    )
  ]

  pub revoke_api_key-Atomic : (p : CurrentPrincipal) (o i : ℕ) → Atomic (revoke_api_key env p o i)
  unfolding revoke_api_key
  revoke_api_key-Atomic p o i = Atomic-bind _ _ (get_tenant_context-ReadOnly p o _) λ c.
      Atomic-bind _ _ (ReadOnly-query _) λ found. Atomic-bind _ _ (ReadOnly-or_raise _ _) λ k.
        Atomic-then _ _ (Atomic-transaction _ _ (revoke_once-Settles p.user_id o k)) λ s j t h.
          revoked_answer j
            ((Returns-transaction _ _ (revoke_once-revoked env p.user_id o k s)).at j t h)
