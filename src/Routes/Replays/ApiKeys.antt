-- ===== src/Routes/Replays/ApiKeys.antt =====
-- The repeated creation of an API key.
use multi_tenant_saas_api.Base.{
  ℕ, ◌≡◌, refl, sym, subst, none, some, [], ◌∷◌, ◌++◌, Text, codes, text_eq, if◌then◌else◌,
  Bool-cases, inl, inr,
}
use multi_tenant_saas_api.Json.{Fields}
use multi_tenant_saas_api.Exec.{Env, State, Metric, ok, err, ◌>>=◌, catch}
use multi_tenant_saas_api.Exec.Rules.{ReadOnly, read_rules}
use multi_tenant_saas_api.Exec.Returns.{Returns, Returns-bind}
use multi_tenant_saas_api.Rbac.{CurrentPrincipal}
use multi_tenant_saas_api.Rbac.Reads.{get_tenant_context-ReadOnly}
use multi_tenant_saas_api.Auth.{get}
use multi_tenant_saas_api.ApiKeyService.{ProjectPrincipal, ensure_can_create_api_key}
use multi_tenant_saas_api.Idempotency.{
  IdempotencyContext, context_of, request_hash, api_key_idempotency_replay_body,
}
use multi_tenant_saas_api.Idempotency.Replay.{store_response-Returns}
use multi_tenant_saas_api.Schemas.Bodies.{ApiKeyCreateRequest, api_key_create_body}
use multi_tenant_saas_api.Schemas.Responses.{ApiKeyCreateResponse, api_key_create_response_body}
use multi_tenant_saas_api.Routes.{created, replayed, lookup_error, idempotency_conflict_response}
use multi_tenant_saas_api.Routes.ApiKeys.{
  begin_create, create_and_store, reply_or_create, create_api_key,
}
use multi_tenant_saas_api.Routes.Replays.{
  Returns-translated, Returns-any, Stores, Returns-created, handler-Stores, start_request-Opens,
  start_request-repeated, checked,
}

abbrev pub stored_body : Env → ApiKeyCreateResponse → Fields
stored_body env r = api_key_idempotency_replay_body (api_key_create_response_body env r)

ensure_can_create_api_key-ReadOnly :
    (p : CurrentPrincipal) (o : ℕ) → ReadOnly (ensure_can_create_api_key p o)
unfolding ensure_can_create_api_key
ensure_can_create_api_key-ReadOnly p o = search (read_rules, get_tenant_context-ReadOnly)

module _ (env : Env) (p : CurrentPrincipal) (o : ℕ) (b : ApiKeyCreateRequest)
    (c : IdempotencyContext) where
  create_and_store-Stores :
      (s : State) → Returns (create_and_store env p o b (some c)) s (Stores (stored_body env) c)
  unfolding create_and_store
  create_and_store-Stores s = Returns-bind _ _ (Returns-any _) λ k t x.
      Returns-bind _ _ (Returns-any _) λ r u y.
        Returns-bind _ _ (store_response-Returns env c 201 (stored_body env r) u)
          λ z w stored. Returns-created (stored_body env) c r stored.1

module _ (env : Env) (key : Text) (p : CurrentPrincipal) (o : ℕ) (b : ApiKeyCreateRequest)
    (method path : Text) where
  create_api_key-Stores :
      (s : State)
      → Returns (create_api_key env (some key) p o b method path) s (
          Stores (stored_body env) (
            context_of env key
              (ProjectPrincipal.user p)
              method
              path
              (api_key_create_body b)
              (some o)))
  unfolding create_api_key begin_create
  create_api_key-Stores s =
      let c =
        context_of env key (ProjectPrincipal.user p) method path (api_key_create_body b) (some o) in
      handler-Stores (stored_body env) c _ (reply_or_create env p o b) s
        (Returns-translated lookup_error _ (
          Returns-bind _ _ (Returns-any _) λ x t y.
            start_request-Opens env key (ProjectPrincipal.user p) method path
              (api_key_create_body b) (some o) t))
        (λ d t e.
          subst (λ x. Returns (create_and_store env p o b x) t (Stores (stored_body env) c)) (sym e)
            (create_and_store-Stores env p o b c t))
        (λ d r. refl)

  -- After the creation of a key under an idempotency key, a request with that idempotency key,
  -- method and path and with any body, in a session that sees the records then committed, by a
  -- caller who may still create keys, creates nothing: where its body has the hash of the first one
  -- it gets status 201 and the metadata of the first response with a note in place of the raw key,
  -- which is no field of the body, and otherwise status 409; of the state, only the count of replays
  -- or of conflicts changes.
  pub create_api_key-repeats :
      (s u : State) (v : ApiKeyCreateResponse) (next : ApiKeyCreateRequest)
      → (create_api_key env (some key) p o b method path s).0 ≡ ok (created v)
      → u.session.idempotency_records
        ≡ (create_api_key env (some key) p o b method path s).1.committed.idempotency_records
      → (ensure_can_create_api_key p o u).0 ≡ ok tt
      → (create_api_key env (some key) p o next method path u ≡ (
          if text_eq
            (request_hash env (api_key_create_body b))
            (request_hash env (api_key_create_body next))
          then (
            ok (replayed 201 (stored_body env v)),
            record u { metrics = u.metrics ++ Metric.idempotency_replay ∷ [] },
          )
          else (
            err idempotency_conflict_response,
            record u { metrics = u.metrics ++ Metric.idempotency_conflict ∷ [] },
          )))
        × (get (codes "raw_key") (stored_body env v) ≡ none)
        × (get (codes "api_key") (stored_body env v)
            ≡ get (codes "api_key") (api_key_create_response_body env v))
  unfolding create_api_key begin_create catch ◌>>=◌ get text_eq api_key_idempotency_replay_body
  create_api_key-repeats s u v next first same may =
      let t = (create_api_key env (some key) p o b method path s).1 in
      let stored = (create_api_key-Stores s).at (created v) t (λ i. (first i, t)) v refl in
      let allowed =
        checked (ensure_can_create_api_key p o) u (ensure_can_create_api_key-ReadOnly p o) may in
      let repeated =
        start_request-repeated env key (ProjectPrincipal.user p) method path (api_key_create_body b)
          (api_key_create_body next) (some o) stored u same in
      (
        elim (Bool-cases (
            text_eq (request_hash env (api_key_create_body b))
              (request_hash env (api_key_create_body next)))) [
                | inl same_body ↦ rw (allowed, repeated, same_body) refl
                | inr other_body ↦ rw (allowed, repeated, other_body) refl
              ],
        refl,
        refl,
      )
