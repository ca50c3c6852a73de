-- ===== src/Server/Tracking.antt =====
-- The operations that write take a step that is followed for what they are accounted for: nothing, or
-- one event of the caller and the organisation that they name.
use multi_tenant_saas_api.Base.{ℕ, ◌≡◌, refl, sym, subst, Bool, true, false, Option, none, some}
use multi_tenant_saas_api.Json.{Fields}
use multi_tenant_saas_api.Database.{Db, IdempotencyRecord}
use multi_tenant_saas_api.Exec.{Env, Action}
use multi_tenant_saas_api.Exec.Rules.{Atomic}
use multi_tenant_saas_api.Exec.Returns.{Returns-weaken}
use multi_tenant_saas_api.Repositories.IdempotencyRecords.{add_idempotency_record}
use multi_tenant_saas_api.ApiKeyService.{ProjectPrincipal}
use multi_tenant_saas_api.ApiKeyService.Atomicity.{create_api_key-Atomic, revoke_api_key-Atomic}
use multi_tenant_saas_api.MembershipService.Atomicity.{
  add_member-Atomic, update_member_role-Atomic, remove_member-Atomic,
}
use multi_tenant_saas_api.OrganisationService.Atomicity.{
  create_organisation-Atomic, update_organisation-Atomic,
}
use multi_tenant_saas_api.ProjectService.{actor_user_id, actor_api_key_id}
use multi_tenant_saas_api.ProjectService.Atomicity.{
  create_project-Atomic, update_project-Atomic, delete_project-Atomic,
}
use multi_tenant_saas_api.Idempotency.{IdempotencyContext, store_response}
use multi_tenant_saas_api.Idempotency.Atomicity.{store_response-Atomic, store_response-adds}
use multi_tenant_saas_api.Invariants.{IsValid}
use multi_tenant_saas_api.Invariants.Operations.{
  Keeps, create_organisation-Keeps, update_organisation-Keeps, add_member-Keeps,
  update_member_role-Keeps, remove_member-Keeps, create_project-Keeps, update_project-Keeps,
  delete_project-Keeps, create_api_key-Keeps, revoke_api_key-Keeps,
}
use multi_tenant_saas_api.Tenancy.{Accounted}
use multi_tenant_saas_api.Tenancy.Operations.{
  Accounts, create_organisation-Accounts, update_organisation-Accounts, add_member-Accounts,
  update_member_role-Accounts, remove_member-Accounts,
}
use multi_tenant_saas_api.Tenancy.Operations.Resources.{
  create_project-Accounts, update_project-Accounts, delete_project-Accounts,
  create_api_key-Accounts, revoke_api_key-Accounts,
}
use multi_tenant_saas_api.Server.Rules.{Stays, Stays-of-Atomic, Stays-pure, Moves, Moves-of-Atomic}
use multi_tenant_saas_api.Server.Calls.{Writes}

-- A user or a key, and not both.
abbrev pub is_actor : Option ℕ → Option ℕ → Bool
is_actor none none = false
is_actor none (some k) = true
is_actor (some u) none = true
is_actor (some u) (some k) = false

is_actor-principal : (p : ProjectPrincipal) → is_actor (actor_user_id p) (actor_api_key_id p) ≡ true
is_actor-principal (ProjectPrincipal.user p) = refl
is_actor-principal (ProjectPrincipal.key k) = refl

-- What is accounted for leads from the first property to the second, and a stored response keeps the
-- second.
pub record Follows (Before After : Db → Type 0) (May : Option ℕ → Type 0) : Type 0 where
  pub widens : (db : Db) → Before db → After db
  pub valid : (db : Db) → Before db → IsValid db
  pub follow :
      {user key target : Option ℕ} {db after : Db}
      → Before db
      → is_actor user key ≡ true
      → May target
      → Accounted user key target db after
      → IsValid after
      → After after
  pub store : (r : IdempotencyRecord) (db : Db) → After db → After (add_idempotency_record r db)

module _ (env : Env) (Before After : Db → Type 0) (May : Option ℕ → Type 0)
    (f : Follows Before After May) where
  followed :
      {A : Type 0} (m : Action A) {user key target : Option ℕ}
      → Keeps m
      → Atomic m
      → Accounts user key target m
      → is_actor user key ≡ true
      → May target
      → Moves Before After m
  followed m keeps atomic accounts actor may =
      Moves-of-Atomic Before After f.widens m atomic λ s c h. record {
        at = λ a t e.
            let v = f.valid s.committed h in
            f.follow h actor may ((accounts.at s c v).at a t e) ((keeps.at s c v).at a t e);
      }

  store_response-Stays :
      (c : Option IdempotencyContext) (code : ℕ) (b : Fields)
      → Stays After (store_response env c code b)
  unfolding store_response
  store_response-Stays none code b = Stays-pure After tt
  store_response-Stays (some c) code b =
      Stays-of-Atomic After (store_response env (some c) code b)
        (store_response-Atomic env (some c) code b)
        λ s clean h. Returns-weaken (store_response-adds env c code b s) λ x t added.
          subst After (sym added.1) (f.store added.0 s.session (subst After (sym clean) h))

  pub writes : Writes env Before After May
  writes = record {
    create_organisation = λ p n l may.
        followed _ (create_organisation-Keeps env p n l) (create_organisation-Atomic env p n l)
          (create_organisation-Accounts env p n l) refl may;
    update_organisation = λ p o n l may.
        followed _ (update_organisation-Keeps env p o n l) (update_organisation-Atomic env p o n l)
          (update_organisation-Accounts env p o n l) refl may;
    add_member = λ p o u r may.
        followed _ (add_member-Keeps env p o u r) (add_member-Atomic env p o u r)
          (add_member-Accounts env p o u r) refl may;
    update_member_role = λ p o u r may.
        followed _ (update_member_role-Keeps env p o u r) (update_member_role-Atomic env p o u r)
          (update_member_role-Accounts env p o u r) refl may;
    remove_member = λ p o u may.
        followed _ (remove_member-Keeps env p o u) (remove_member-Atomic env p o u)
          (remove_member-Accounts env p o u) refl may;
    create_project = λ p o n d st may.
        followed _ (create_project-Keeps env p o n d st) (create_project-Atomic env p o n d st)
          (create_project-Accounts env p o n d st) (is_actor-principal p) may;
    update_project = λ p o i n d b st may.
        followed _ (update_project-Keeps env p o i n d b st)
          (update_project-Atomic env p o i n d b st) (update_project-Accounts env p o i n d b st)
          (is_actor-principal p) may;
    delete_project = λ p o i may.
        followed _ (delete_project-Keeps env p o i) (delete_project-Atomic env p o i)
          (delete_project-Accounts env p o i) (is_actor-principal p) may;
    create_api_key = λ p o n may.
        followed _ (create_api_key-Keeps env p o n) (create_api_key-Atomic env p o n)
          (create_api_key-Accounts env p o n) refl may;
    revoke_api_key = λ p o i may.
        followed _ (revoke_api_key-Keeps env p o i) (revoke_api_key-Atomic env p o i)
          (revoke_api_key-Accounts env p o i) refl may;
    store_response = store_response-Stays;
  }
