-- ===== src/Server/Calls.antt =====
-- The operations that a call may come to, and the parts of a handler that only read.
pub mod Routing
use multi_tenant_saas_api.Base.{◌≡◌, true, false, ℕ, Bool, Option, none, some, Text}
use multi_tenant_saas_api.Json.{Fields}
use multi_tenant_saas_api.Domain.{OrganisationRole, ProjectStatus}
use multi_tenant_saas_api.Database.{Db, IdempotencyRecord}
use multi_tenant_saas_api.Exec.{Env, Action}
use multi_tenant_saas_api.Exec.Rules.{ReadOnly, read_rules}
use multi_tenant_saas_api.Rbac.{CurrentPrincipal}
use multi_tenant_saas_api.Rbac.Reads.{get_tenant_context-ReadOnly}
use multi_tenant_saas_api.ApiKeyService
use multi_tenant_saas_api.ApiKeyService.{ProjectPrincipal}
use multi_tenant_saas_api.ProjectService
use multi_tenant_saas_api.ProjectService.Atomicity.{require_project_permission-ReadOnly}
use multi_tenant_saas_api.OrganisationService
use multi_tenant_saas_api.MembershipService
use multi_tenant_saas_api.MembershipService.{PublicMembership}
use multi_tenant_saas_api.Idempotency.{IdempotencyContext, decide, start_request, store_response}
use multi_tenant_saas_api.Routes.Memberships
use multi_tenant_saas_api.Routes.Projects
use multi_tenant_saas_api.Routes.ApiKeys
use multi_tenant_saas_api.Routes.Router.{Call}
use multi_tenant_saas_api.Server.Rules.{Stays, Stays-of-ReadOnly, stay_rules, Moves}

-- The organisation that a call names.
abbrev pub call_target : Call → Option ℕ
call_target (Call.post_orgs k p b m u) = none
call_target (Call.get_orgs p l i) = none
call_target (Call.get_org p o) = some o
call_target (Call.patch_org p o b) = some o
call_target (Call.get_members p o l i) = some o
call_target (Call.post_members p o b) = some o
call_target (Call.patch_member p o i b) = some o
call_target (Call.delete_member p o i) = some o
call_target (Call.post_projects k p o b m u) = some o
call_target (Call.get_projects p o l i st n f d) = some o
call_target (Call.get_project p o i) = some o
call_target (Call.patch_project p o i b) = some o
call_target (Call.delete_project p o i) = some o
call_target (Call.post_api_keys k p o b m u) = some o
call_target (Call.get_api_keys p o l i) = some o
call_target (Call.delete_api_key p o i) = some o
call_target (Call.get_audit_events p o l i) = some o

-- A call that lists or gets.
abbrev pub reads : Call → Bool
reads (Call.post_orgs k p b m u) = false
reads (Call.get_orgs p l i) = true
reads (Call.get_org p o) = true
reads (Call.patch_org p o b) = false
reads (Call.get_members p o l i) = true
reads (Call.post_members p o b) = false
reads (Call.patch_member p o i b) = false
reads (Call.delete_member p o i) = false
reads (Call.post_projects k p o b m u) = false
reads (Call.get_projects p o l i st n f d) = true
reads (Call.get_project p o i) = true
reads (Call.patch_project p o i b) = false
reads (Call.delete_project p o i) = false
reads (Call.post_api_keys k p o b m u) = false
reads (Call.get_api_keys p o l i) = true
reads (Call.delete_api_key p o i) = false
reads (Call.get_audit_events p o l i) = true

abbrev Unless : Bool → Type 0 → Type 0
Unless true T = Unit
Unless false T = T

-- A call that writes keeps to the organisations that may be touched.
abbrev pub Allows : (Option ℕ → Type 0) → Call → Type 0
Allows May call = Unless (reads call) (May (call_target call))

pub May-Allows : (May : Option ℕ → Type 0) (call : Call) → May (call_target call) → Allows May call
May-Allows May call may = permitted (reads call)
  where
    permitted : (b : Bool) → Unless b (May (call_target call))
    permitted true = tt
    permitted false = may

pub reads-Allows : (May : Option ℕ → Type 0) (call : Call) → reads call ≡ true → Allows May call
reads-Allows May call r = permitted (reads call) r
  where
    permitted : (b : Bool) → b ≡ true → Unless b (May (call_target call))
    permitted true e = tt
    permitted false e = absurd (cc)

-- The operations that write, with the step that each of them takes, at most, where it may touch the
-- organisation that it names, if it names one; the storing of a response keeps to where it ends.
pub record Writes (env : Env) (Before After : Db → Type 0) (May : Option ℕ → Type 0) : Type 0 where
  pub create_organisation :
      (p : CurrentPrincipal) (n : Text) (l : Option Text)
      → May none
      → Moves Before After (OrganisationService.create_organisation env p n l)
  pub update_organisation :
      (p : CurrentPrincipal) (o : ℕ) (n l : Option Text)
      → May (some o)
      → Moves Before After (OrganisationService.update_organisation env p o n l)
  pub add_member :
      (p : CurrentPrincipal) (o u : ℕ) (r : OrganisationRole)
      → May (some o)
      → Moves Before After (MembershipService.add_member env p o u r)
  pub update_member_role :
      (p : CurrentPrincipal) (o u : ℕ) (r : OrganisationRole)
      → May (some o)
      → Moves Before After (MembershipService.update_member_role env p o u r)
  pub remove_member :
      (p : CurrentPrincipal) (o u : ℕ)
      → May (some o)
      → Moves Before After (MembershipService.remove_member env p o u)
  pub create_project :
      (p : ProjectPrincipal) (o : ℕ) (n : Text) (d : Option Text) (st : ProjectStatus)
      → May (some o)
      → Moves Before After (ProjectService.create_project env p o n d st)
  pub update_project :
      (p : ProjectPrincipal) (o i : ℕ) (n d : Option Text) (b : Bool) (st : Option ProjectStatus)
      → May (some o)
      → Moves Before After (ProjectService.update_project env p o i n d b st)
  pub delete_project :
      (p : ProjectPrincipal) (o i : ℕ)
      → May (some o)
      → Moves Before After (ProjectService.delete_project env p o i)
  pub create_api_key :
      (p : CurrentPrincipal) (o : ℕ) (n : Text)
      → May (some o)
      → Moves Before After (ApiKeyService.create_api_key env p o n)
  pub revoke_api_key :
      (p : CurrentPrincipal) (o i : ℕ)
      → May (some o)
      → Moves Before After (ApiKeyService.revoke_api_key env p o i)
  pub store_response :
      (c : Option IdempotencyContext) (code : ℕ) (body : Fields)
      → Stays After (store_response env c code body)

module _ (env : Env) (Holds : Db → Type 0) where
  pub read : {A : Type 0} (m : Action A) → ReadOnly m → Stays Holds m
  read m r = Stays-of-ReadOnly Holds m r

  decide-Stays :
      (c : IdempotencyContext) (found : Option IdempotencyRecord) → Stays Holds (decide c found)
  decide-Stays c none = search stay_rules
  decide-Stays c (some r) = search stay_rules depth 12

  pub start_request-Stays :
      (k : Option Text) (p : ProjectPrincipal) (m u : Text) (b : Fields) (o : Option ℕ)
      → Stays Holds (start_request env k p m u b o)
  unfolding start_request
  start_request-Stays none p m u b o = search stay_rules
  start_request-Stays (some key) p m u b o = search (stay_rules, decide-Stays) depth 12

  pub check_project-Stays :
      (k : Option Text) (p : ProjectPrincipal) (o : ℕ) → Stays Holds (Projects.check_create k p o)
  check_project-Stays none p o = search stay_rules
  check_project-Stays (some key) p o = read _ (require_project_permission-ReadOnly p o _)

  pub check_key-Stays :
      (k : Option Text) (p : CurrentPrincipal) (o : ℕ) → Stays Holds (ApiKeys.check_create k p o)
  unfolding ApiKeyService.ensure_can_create_api_key
  check_key-Stays none p o = search stay_rules
  check_key-Stays (some key) p o = read _ (search (read_rules, get_tenant_context-ReadOnly))

  pub membership_response-Stays :
      (m : PublicMembership) → Stays Holds (Memberships.membership_response env m)
  unfolding Memberships.membership_response Memberships.user_summary
  membership_response-Stays m = search stay_rules depth 12
