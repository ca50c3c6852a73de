-- ===== src/Routes/Replays/Projects.antt =====
-- The repeated creation of a project.
use multi_tenant_saas_api.Base.{
  ℕ, ◌≡◌, refl, sym, subst, some, [], ◌∷◌, ◌++◌, Text, text_eq, if◌then◌else◌, Bool-cases, inl, inr,
}
use multi_tenant_saas_api.Exec.{Env, State, Metric, ok, err, ◌>>=◌, catch}
use multi_tenant_saas_api.Exec.Returns.{Returns, Returns-bind}
use multi_tenant_saas_api.ApiKeyService.{ProjectPrincipal}
use multi_tenant_saas_api.ProjectService.{ensure_can_create_project}
use multi_tenant_saas_api.ProjectService.Atomicity.{require_project_permission-ReadOnly}
use multi_tenant_saas_api.Idempotency.{IdempotencyContext, context_of, request_hash}
use multi_tenant_saas_api.Idempotency.Replay.{store_response-Returns}
use multi_tenant_saas_api.Schemas.Bodies.{ProjectCreateRequest, project_create_body}
use multi_tenant_saas_api.Schemas.Responses.{ProjectResponse, project_response_body}
use multi_tenant_saas_api.Routes.{created, replayed, lookup_error, idempotency_conflict_response}
use multi_tenant_saas_api.Routes.Projects.{
  project_response, begin_create, create_and_store, reply_or_create, create_project,
}
use multi_tenant_saas_api.Routes.Replays.{
  Returns-translated, Returns-any, Stores, Returns-created, handler-Stores, start_request-Opens,
  start_request-repeated, checked,
}

module _ (env : Env) (p : ProjectPrincipal) (o : ℕ) (b : ProjectCreateRequest)
    (c : IdempotencyContext) where
  create_and_store-Stores :
      (s : State)
      → Returns (create_and_store env p o b (some c)) s (Stores (project_response_body env) c)
  unfolding create_and_store
  create_and_store-Stores s = Returns-bind _ _ (Returns-any _) λ project t x.
      Returns-bind _ _
        (store_response-Returns env c 201 (project_response_body env (project_response project)) t)
        λ y u stored.
          Returns-created (project_response_body env) c (project_response project) stored.1

module _ (env : Env) (key : Text) (p : ProjectPrincipal) (o : ℕ) (b : ProjectCreateRequest)
    (method path : Text) where
  create_project-Stores :
      (s : State)
      → Returns (create_project env (some key) p o b method path) s (
          Stores
            (project_response_body env)
            (context_of env key p method path (project_create_body b) (some o)))
  unfolding create_project begin_create
  create_project-Stores s =
      let c = context_of env key p method path (project_create_body b) (some o) in
      handler-Stores (project_response_body env) c _ (reply_or_create env p o b) s
        (Returns-translated lookup_error _ (
          Returns-bind _ _ (Returns-any _)
            λ x t y. start_request-Opens env key p method path (project_create_body b) (some o) t))
        (λ d t e.
          subst
            (λ x. Returns (create_and_store env p o b x) t (Stores (project_response_body env) c))
            (sym e) (create_and_store-Stores env p o b c t))
        (λ d r. refl)

  -- After a creation under an idempotency key, a request with that key, method and path and with
  -- any body, in a session that sees the records then committed, by a caller who may still create
  -- projects, creates nothing: where its body has the hash of the first one it gets status 201 and
  -- the body of the first response, and otherwise status 409; of the state, only the count of
  -- replays or of conflicts changes.
  pub create_project-repeats :
      (s u : State) (v : ProjectResponse) (next : ProjectCreateRequest)
      → (create_project env (some key) p o b method path s).0 ≡ ok (created v)
      → u.session.idempotency_records
        ≡ (create_project env (some key) p o b method path s).1.committed.idempotency_records
      → (ensure_can_create_project p o u).0 ≡ ok tt
      → create_project env (some key) p o next method path u ≡ (
          if text_eq
            (request_hash env (project_create_body b))
            (request_hash env (project_create_body next))
          then (
            ok (replayed 201 (project_response_body env v)),
            record u { metrics = u.metrics ++ Metric.idempotency_replay ∷ [] },
          )
          else (
            err idempotency_conflict_response,
            record u { metrics = u.metrics ++ Metric.idempotency_conflict ∷ [] },
          ))
  unfolding create_project begin_create catch ◌>>=◌
  create_project-repeats s u v next first same may =
      let t = (create_project env (some key) p o b method path s).1 in
      let stored = (create_project-Stores s).at (created v) t (λ i. (first i, t)) v refl in
      let allowed =
        checked (ensure_can_create_project p o) u (require_project_permission-ReadOnly p o _) may in
      let repeated =
        start_request-repeated env key p method path (project_create_body b)
          (project_create_body next) (some o) stored u same in
      elim (Bool-cases (
        text_eq (request_hash env (project_create_body b))
          (request_hash env (project_create_body next)))) [
            | inl same_body ↦ rw (allowed, repeated, same_body) refl
            | inr other_body ↦ rw (allowed, repeated, other_body) refl
          ]
