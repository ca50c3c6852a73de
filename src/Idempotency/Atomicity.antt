-- ===== src/Idempotency/Atomicity.antt =====
-- The storing of a response is a unit of work of its own, after that of the creation.
use multi_tenant_saas_api.Base.{ℕ, ◌≡◌, ◌∙◌, Option, none, some, Text}
use multi_tenant_saas_api.Json.{Fields}
use multi_tenant_saas_api.Database.{IdempotencyRecord}
use multi_tenant_saas_api.Exec.{Env, State}
use multi_tenant_saas_api.Exec.Rules.{
  Commits, Atomic, KeepsCommitted, pending_rules, commit_rules, atomic_rules,
}
use multi_tenant_saas_api.Exec.Returns.{
  Returns, Returns-bind, Returns-raise_if, Returns-transaction, Returns-commit, Returns-pure,
}
use multi_tenant_saas_api.Repositories.IdempotencyRecords
use multi_tenant_saas_api.Repositories.IdempotencyRecords.{add_idempotency_record}
use multi_tenant_saas_api.Idempotency.{IdempotencyContext, insert_record, store_response}
use multi_tenant_saas_api.Idempotency.Replay.{create-Returns}

module _ (env : Env) where
  create-KeepsCommitted :
      (t : Text) (i : ℕ) (k m u h : Text) (code : ℕ) (b : Fields) (o e : Option ℕ)
      → KeepsCommitted (IdempotencyRecords.create env t i k m u h code b o e)
  unfolding IdempotencyRecords.create
  create-KeepsCommitted t i k m u h code b o e = search pending_rules depth 12

  insert_record-Commits :
      (c : IdempotencyContext) (code : ℕ) (b : Fields) → Commits (insert_record env c code b)
  unfolding insert_record
  insert_record-Commits c code b = search (commit_rules, create-KeepsCommitted)

  pub store_response-Atomic :
      (c : Option IdempotencyContext) (code : ℕ) (b : Fields) → Atomic (store_response env c code b)
  unfolding store_response
  store_response-Atomic none code b = search atomic_rules
  store_response-Atomic (some c) code b = search (atomic_rules, insert_record-Commits)

  insert_record-adds :
      (c : IdempotencyContext) (code : ℕ) (b : Fields) (s : State)
      → Returns
          (insert_record env c code b)
          s
          (λ _ t. (r : IdempotencyRecord) × (t.committed ≡ add_idempotency_record r s.session))
  unfolding insert_record
  insert_record-adds c code b s =
      Returns-bind _ _ (create-Returns env c code b s)
        λ r t new. Returns-commit env _ λ u es ec. Returns-pure tt (r, ec ∙ new.written)

  pub store_response-adds :
      (c : IdempotencyContext) (code : ℕ) (b : Fields) (s : State)
      → Returns
          (store_response env (some c) code b)
          s
          (λ _ t. (r : IdempotencyRecord) × (t.committed ≡ add_idempotency_record r s.session))
  unfolding store_response
  store_response-adds c code b s =
      Returns-raise_if _ _ _ λ safe. Returns-transaction _ _ (insert_record-adds c code b s)
