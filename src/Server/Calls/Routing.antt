-- ===== src/Server/Calls/Routing.antt =====
-- Every call takes the step of the operation that it calls, at most.
use multi_tenant_saas_api.Base.{ℕ, Option, none, some, Text}
use multi_tenant_saas_api.Database.{Db}
use multi_tenant_saas_api.Exec.{Env, Action}
use multi_tenant_saas_api.Rbac.{CurrentPrincipal}
use multi_tenant_saas_api.ApiKeyService.{ProjectPrincipal}
use multi_tenant_saas_api.Idempotency.{IdempotencyDecision, IdempotencyReplay}
use multi_tenant_saas_api.Reads.{
  list_members-ReadOnly, list_organisations-ReadOnly, get_organisation-ReadOnly,
  list_projects-ReadOnly, get_project-ReadOnly, list_api_keys-ReadOnly,
  list_organisation_events-ReadOnly,
}
use multi_tenant_saas_api.Schemas.Bodies.{
  ProjectCreateRequest, OrganisationCreateRequest, ApiKeyCreateRequest,
}
use multi_tenant_saas_api.Routes.Organisations
use multi_tenant_saas_api.Routes.Memberships
use multi_tenant_saas_api.Routes.Projects
use multi_tenant_saas_api.Routes.ApiKeys
use multi_tenant_saas_api.Routes.AuditEvents
use multi_tenant_saas_api.Routes.Router.{Call, Answer, answered, route}
use multi_tenant_saas_api.Server.Rules.{
  Stays, Stays-pure, Stays-bind, Stays-translated, stay_rules, Moves, Moves-then, Moves-translated,
  Moves-of-Stays, Moves-after,
}
use multi_tenant_saas_api.Server.Calls.{
  Allows, Writes, read, start_request-Stays, check_project-Stays, check_key-Stays,
  membership_response-Stays,
}

module _ (env : Env) (Before After : Db → Type 0) (widens : (db : Db) → Before db → After db)
    (May : Option ℕ → Type 0) (w : Writes env Before After May) where
  ruleset move_rules = (stay_rules, Moves-then, Moves-translated)

  ruleset call_rules = (stay_rules, membership_response-Stays)

  quiet : {A : Type 0} (m : Action A) → Stays Before m → Moves Before After m
  quiet m x = Moves-of-Stays Before After widens m x

  post_projects-Moves :
      (k : Option Text) (p : ProjectPrincipal) (o : ℕ) (b : ProjectCreateRequest) (m u : Text)
      → May (some o)
      → Moves Before After (Projects.create_project env k p o b m u)
  unfolding Projects.create_project Projects.begin_create Projects.create_and_store
  post_projects-Moves k p o b m u may =
      Moves-after Before After widens _ _
        (search (stay_rules, check_project-Stays env Before, start_request-Stays env Before) depth
          12)
        λ d. reply d d.replay
    where
      reply :
          (d : IdempotencyDecision) (r : Option IdempotencyReplay)
          → Moves Before After (Projects.reply_or_create env p o b d r)
      reply d none = search (move_rules, w.create_project, w.store_response) depth 12
      reply d (some r) = quiet _ (search stay_rules)

  post_orgs-Moves :
      (k : Option Text) (p : CurrentPrincipal) (b : OrganisationCreateRequest) (m u : Text)
      → May none
      → Moves Before After (Organisations.create_organisation env k p b m u)
  unfolding Organisations.create_organisation Organisations.begin_create
      Organisations.create_and_store
  post_orgs-Moves k p b m u may =
      Moves-after Before After widens _ _
        (search (stay_rules, start_request-Stays env Before) depth 12) λ d. reply d d.replay
    where
      reply :
          (d : IdempotencyDecision) (r : Option IdempotencyReplay)
          → Moves Before After (Organisations.reply_or_create env p b d r)
      reply d none = search (move_rules, w.create_organisation, w.store_response) depth 12
      reply d (some r) = quiet _ (search stay_rules)

  post_api_keys-Moves :
      (k : Option Text) (p : CurrentPrincipal) (o : ℕ) (b : ApiKeyCreateRequest) (m u : Text)
      → May (some o)
      → Moves Before After (ApiKeys.create_api_key env k p o b m u)
  unfolding ApiKeys.create_api_key ApiKeys.begin_create ApiKeys.create_and_store
      ApiKeys.created_api_key_response
  post_api_keys-Moves k p o b m u may =
      Moves-after Before After widens _ _
        (search (stay_rules, check_key-Stays env Before, start_request-Stays env Before) depth 12)
        λ d. reply d d.replay
    where
      reply :
          (d : IdempotencyDecision) (r : Option IdempotencyReplay)
          → Moves Before After (ApiKeys.reply_or_create env p o b d r)
      reply d none = search (move_rules, w.create_api_key, w.store_response) depth 16
      reply d (some r) = quiet _ (search stay_rules)

  answered-Moves :
      {A : Type 0} (m : Action A) (f : A → Answer)
      → Moves Before After m
      → Moves Before After (answered m f)
  unfolding answered
  answered-Moves m f x = Moves-then Before After _ _ x λ a. Stays-pure After (f a)

  -- So does every call.
  pub route-Moves : (call : Call) → Allows May call → Moves Before After (route env call)
  unfolding route Organisations.list_organisations Organisations.get_organisation
      Organisations.update_organisation Memberships.list_members Memberships.add_member
      Memberships.update_member_role Memberships.remove_member Memberships.membership_list_response
      Projects.list_projects Projects.get_project Projects.update_project Projects.delete_project
      ApiKeys.list_api_keys ApiKeys.api_key_list_response ApiKeys.revoke_api_key
      AuditEvents.list_audit_events AuditEvents.audit_event_list_response
  route-Moves (Call.post_orgs k p b m u) may = answered-Moves _ _ (post_orgs-Moves k p b m u may)
  route-Moves (Call.get_orgs p l i) may = answered-Moves _ _ (
      quiet _ (
        Stays-bind Before _ _ (read env Before _ (list_organisations-ReadOnly env p l i))
          λ v. search call_rules))
  route-Moves (Call.get_org p o) may = answered-Moves _ _ (
      quiet _ (
        Stays-bind Before _ _
          (Stays-translated Before _ _ (read env Before _ (get_organisation-ReadOnly p o)))
          λ v. search call_rules))
  route-Moves (Call.patch_org p o b) may =
      answered-Moves _ _ (search (move_rules, w.update_organisation) depth 12)
  route-Moves (Call.get_members p o l i) may = answered-Moves _ _ (
      quiet _ (
        Stays-bind Before _ _
          (Stays-translated Before _ _ (read env Before _ (list_members-ReadOnly p o l i)))
          λ v. search call_rules depth 12))
  route-Moves (Call.post_members p o b) may =
      answered-Moves _ _ (search (move_rules, membership_response-Stays, w.add_member) depth 12)
  route-Moves (Call.patch_member p o i b) may =
      answered-Moves _ _
        (search (move_rules, membership_response-Stays, w.update_member_role) depth 12)
  route-Moves (Call.delete_member p o i) may =
      answered-Moves _ _ (search (move_rules, w.remove_member) depth 12)
  route-Moves (Call.post_projects k p o b m u) may =
      answered-Moves _ _ (post_projects-Moves k p o b m u may)
  route-Moves (Call.get_projects p o l i st n f d) may = answered-Moves _ _ (
      quiet _ (
        Stays-bind Before _ _
          (Stays-translated Before _ _
            (read env Before _ (list_projects-ReadOnly env p o l i st n f d)))
          λ v. search call_rules))
  route-Moves (Call.get_project p o i) may = answered-Moves _ _ (
      quiet _ (
        Stays-bind Before _ _
          (Stays-translated Before _ _ (read env Before _ (get_project-ReadOnly p o i)))
          λ v. search call_rules))
  route-Moves (Call.patch_project p o i b) may =
      answered-Moves _ _ (search (move_rules, w.update_project) depth 12)
  route-Moves (Call.delete_project p o i) may =
      answered-Moves _ _ (search (move_rules, w.delete_project) depth 12)
  route-Moves (Call.post_api_keys k p o b m u) may =
      answered-Moves _ _ (post_api_keys-Moves k p o b m u may)
  route-Moves (Call.get_api_keys p o l i) may = answered-Moves _ _ (
      quiet _ (
        Stays-bind Before _ _
          (Stays-translated Before _ _ (read env Before _ (list_api_keys-ReadOnly p o l i)))
          λ v. search call_rules depth 12))
  route-Moves (Call.delete_api_key p o i) may =
      answered-Moves _ _ (search (move_rules, w.revoke_api_key) depth 12)
  route-Moves (Call.get_audit_events p o l i) may = answered-Moves _ _ (
      quiet _ (
        Stays-bind Before _ _
          (Stays-translated Before _ _
            (read env Before _ (list_organisation_events-ReadOnly _ p o l i)))
          λ v. search call_rules depth 12))
