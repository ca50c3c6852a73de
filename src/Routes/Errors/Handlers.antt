-- ===== src/Routes/Errors/Handlers.antt =====
-- What may leave a handler: an HTTP exception, or a failure that none of its clauses is about.
use multi_tenant_saas_api.Base.{
  ℕ, ◌≡◌, Bool, true, not, Option, none, some, List, [], ◌∷◌, Text, arith, is_none, ap,
}
use multi_tenant_saas_api.Json.{Json, Fields}
use multi_tenant_saas_api.Database.{IdempotencyRecord}
use multi_tenant_saas_api.Exec.{
  Env, Error, Action, same_error, validation_error, idempotency_conflict,
  idempotency_secret_snapshot_rejected,
}
use multi_tenant_saas_api.Exec.Raises.{
  Raises, Raises-transaction, Raises-bind, Raises-pure, Raises-raise, Raises-if, raise_rules,
}
use multi_tenant_saas_api.Audit.Errors.{unraised}
use multi_tenant_saas_api.ApiKeyService.{ProjectPrincipal}
use multi_tenant_saas_api.Idempotency.{
  IdempotencyContext, decide, start_request, store_response, find_secret_snapshot_field,
}
use multi_tenant_saas_api.Schemas.Fields.{validated}
use multi_tenant_saas_api.Schemas.Responses.{validate_items}
use multi_tenant_saas_api.Routes.Errors.{is_internal, is_answered}
use multi_tenant_saas_api.Routes.Errors.Bodies.{insert_record-Raises}

module _ (allowed : Error → Bool) (h : allowed validation_error ≡ true) where
  pub validated-Raises : {A : Type 0} (b : Bool) (a : A) → Raises allowed (validated b a)
  validated-Raises b a =
      Raises-if allowed b _ _ (Raises-pure allowed a) (Raises-raise allowed validation_error h)

  pub validate_items-Raises :
      {A B : Type 0} (f : A → Action B) (xs : List A)
      → ((a : A) → Raises allowed (f a))
      → Raises allowed (validate_items f xs)
  unfolding validate_items
  validate_items-Raises f [] r = Raises-pure allowed _
  validate_items-Raises f (x ∷ xs) r =
      Raises-bind allowed _ _ (r x)
        λ b. Raises-bind allowed _ _ (validate_items-Raises f xs r) λ bs. Raises-pure allowed _

decide-Raises :
    (allowed : Error → Bool)
    → allowed idempotency_conflict ≡ true
    → (c : IdempotencyContext) (found : Option IdempotencyRecord) → Raises allowed (decide c found)
decide-Raises allowed h c none = search raise_rules
decide-Raises allowed h c (some r) = search (raise_rules, h) depth 12

pub start_request-Raises :
    (allowed : Error → Bool)
    → allowed idempotency_conflict ≡ true
    → (env : Env) (key : Option Text) (p : ProjectPrincipal) (m u : Text) (b : Fields)
      (o : Option ℕ)
    → Raises allowed (start_request env key p m u b o)
unfolding start_request
start_request-Raises allowed h env none p m u b o = search raise_rules
start_request-Raises allowed h env (some key) p m u b o =
    search (raise_rules, decide-Raises, h) depth 12

-- A snapshot without secrets is not refused.
pub store_response-Raises :
    (env : Env) (c : Option IdempotencyContext) (code : ℕ) (b : Fields)
    → find_secret_snapshot_field (Json.obj b) ≡ none
    → Raises is_answered (store_response env c code b)
unfolding store_response
store_response-Raises env none code b safe = search raise_rules
store_response-Raises env (some c) code b safe =
    Raises-bind is_answered _ _
      (unraised is_answered _ idempotency_secret_snapshot_rejected (ap (λ f. not (is_none f)) safe))
      λ x.
        Raises-transaction is_answered same_error is_internal _ (λ e h. ground arith)
          (insert_record-Raises env c code b)
