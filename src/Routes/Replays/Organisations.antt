-- ===== src/Routes/Replays/Organisations.antt =====
-- The repeated creation of an organisation, with the same body or another one.
use multi_tenant_saas_api.Base.{
  ◌≡◌, refl, sym, subst, none, some, [], ◌∷◌, ◌++◌, Text, text_eq, if◌then◌else◌, inl, inr,
  Bool-cases,
}
use multi_tenant_saas_api.Exec.{Env, State, Metric, ok, err, ◌>>=◌, catch}
use multi_tenant_saas_api.Exec.Returns.{Returns, Returns-bind}
use multi_tenant_saas_api.Rbac.{CurrentPrincipal}
use multi_tenant_saas_api.ApiKeyService.{ProjectPrincipal}
use multi_tenant_saas_api.Idempotency.{IdempotencyContext, context_of, request_hash}
use multi_tenant_saas_api.Idempotency.Replay.{store_response-Returns}
use multi_tenant_saas_api.Schemas.Bodies.{OrganisationCreateRequest, organisation_create_body}
use multi_tenant_saas_api.Schemas.Responses.{OrganisationResponse, organisation_response_body}
use multi_tenant_saas_api.Routes.{
  created, replayed, idempotency_error, idempotency_conflict_response,
}
use multi_tenant_saas_api.Routes.Organisations.{
  created_organisation_response, begin_create, create_and_store, reply_or_create,
  create_organisation,
}
use multi_tenant_saas_api.Routes.Replays.{
  Returns-translated, Returns-any, Stores, Returns-created, handler-Stores, start_request-Opens,
  start_request-repeated,
}

module _ (env : Env) (key : Text) (p : CurrentPrincipal) (method path : Text)
    (b : OrganisationCreateRequest) where
  abbrev scope : IdempotencyContext
  scope = context_of env key (ProjectPrincipal.user p) method path (organisation_create_body b) none

  create_and_store-Stores :
      (s : State)
      → Returns
          (create_and_store env p b (some scope))
          s
          (Stores (organisation_response_body env) scope)
  unfolding create_and_store
  create_and_store-Stores s = Returns-bind _ _ (Returns-any _) λ c t x.
      Returns-bind _ _
        (store_response-Returns env scope 201
          (organisation_response_body env (created_organisation_response c)) t)
        λ y u stored.
          Returns-created (organisation_response_body env) scope (created_organisation_response c)
            stored.1

  create_organisation-Stores :
      (s : State)
      → Returns
          (create_organisation env (some key) p b method path)
          s
          (Stores (organisation_response_body env) scope)
  unfolding create_organisation begin_create
  create_organisation-Stores s =
      handler-Stores (organisation_response_body env) scope _ (reply_or_create env p b) s
        (Returns-translated idempotency_error _ (
          start_request-Opens env key (ProjectPrincipal.user p) method path
            (organisation_create_body b) none s))
        (λ d t e.
          subst
            (λ x.
              Returns (create_and_store env p b x) t
                (Stores (organisation_response_body env) scope))
            (sym e) (create_and_store-Stores t))
        (λ d r. refl)

  -- After a creation under an idempotency key, a request with that key, method and path and with
  -- any body, in a session that sees the records then committed, creates nothing: where its body
  -- has the hash of the first one it gets status 201 and the body of the first response, and
  -- otherwise status 409; of the state, only the count of replays or of conflicts changes.
  pub create_organisation-repeats :
      (s u : State) (v : OrganisationResponse) (next : OrganisationCreateRequest)
      → (create_organisation env (some key) p b method path s).0 ≡ ok (created v)
      → u.session.idempotency_records
        ≡ (create_organisation env (some key) p b method path s).1.committed.idempotency_records
      → create_organisation env (some key) p next method path u ≡ (
          if text_eq
            (request_hash env (organisation_create_body b))
            (request_hash env (organisation_create_body next))
          then (
            ok (replayed 201 (organisation_response_body env v)),
            record u { metrics = u.metrics ++ Metric.idempotency_replay ∷ [] },
          )
          else (
            err idempotency_conflict_response,
            record u { metrics = u.metrics ++ Metric.idempotency_conflict ∷ [] },
          ))
  unfolding create_organisation begin_create catch ◌>>=◌
  create_organisation-repeats s u v next first same =
      let t = (create_organisation env (some key) p b method path s).1 in
      let stored = (create_organisation-Stores s).at (created v) t (λ i. (first i, t)) v refl in
      let repeated =
        start_request-repeated env key (ProjectPrincipal.user p) method path
          (organisation_create_body b) (organisation_create_body next) none stored u same in
      elim (Bool-cases (
        text_eq (request_hash env (organisation_create_body b))
          (request_hash env (organisation_create_body next)))) [
            | inl same_body ↦ rw (repeated, same_body) refl
            | inr other_body ↦ rw (repeated, other_body) refl
          ]
