-- ===== src/MembershipService/Effects/Adding.antt =====
-- What each membership operation does to the database when it returns.
use multi_tenant_saas_api.Base.{
  unnegated, is_none-eq, ℕ, ◌≡◌, refl, true, Option, none, some, scalar, ◌==◌,
}
use multi_tenant_saas_api.Domain.{OrganisationRole, Permission, AuditAction}
use multi_tenant_saas_api.Database.{Db, OrganisationMembership, User, membership_fits}
use multi_tenant_saas_api.Exec.{Env, State}
use multi_tenant_saas_api.Exec.Returns.{
  Returns, Returns-pure, Returns-bind, Returns-check, Returns-query, Returns-or_raise,
  Returns-raise_if, Returns-commit, Returns-transaction,
}
use multi_tenant_saas_api.Repositories.Memberships.{add_membership, find_for_user}
use multi_tenant_saas_api.Repositories.Outcomes.{create_membership-Returns}
use multi_tenant_saas_api.Rbac.{CurrentPrincipal, TenantContext}
use multi_tenant_saas_api.Rbac.Reads.{get_tenant_context-ReadOnly}
use multi_tenant_saas_api.Rbac.Access.{Authorised, get_tenant_context-Returns}
use multi_tenant_saas_api.Audit.Events.{Logged, Logged-of-Recorded, record_event-Returns}
use multi_tenant_saas_api.MembershipService.{
  PublicMembership, public_membership_from_models, role_management_allowed, insert_member,
  add_member,
}

-- A membership that was not there, of an existing user, and the event that tells of it.
pub record Inserted (actor o u : ℕ) (r : OrganisationRole) (before : Db)
    (m : OrganisationMembership) (after : Db) : Type 0 where
  pub logged :
      Logged before after
        (add_membership m)
        AuditAction.member_added
        (some o)
        (some actor)
        none
        (some m.id)
  pub fits : membership_fits before m ≡ true
  pub in_organisation : m.organisation_id ≡ o
  pub of_user : m.user_id ≡ u
  pub has_role : m.role ≡ r

insert_member-Returns :
    (env : Env) (actor o u : ℕ) (r : OrganisationRole) (s : State)
    → Returns
        (insert_member env actor o u r)
        s
        (λ m t. Inserted actor o u r s.session m t.committed)
unfolding insert_member
insert_member-Returns env actor o u r s =
    Returns-bind _ _ (create_membership-Returns env s o u r) λ m t new.
      Returns-bind _ _ (record_event-Returns env t _ _ _ _ _ _ _) λ v w recorded.
        Returns-commit env _ λ c es ec. Returns-pure m (record {
          logged = Logged-of-Recorded new.wrote.session recorded ec;
          fits = new.fits;
          in_organisation = new.in_organisation;
          of_user = new.of_user;
          has_role = new.has_role;
        })

-- The caller may manage members, and may do it to these roles.
pub record Allowed (p : CurrentPrincipal) (o : ℕ) (target requested : Option OrganisationRole)
    (db : Db) : Type 0 where
  pub context : TenantContext
  pub authorised : Authorised p o Permission.manage_members db context
  pub allowed : role_management_allowed context.role target requested ≡ true

pub record Added (p : CurrentPrincipal) (o u : ℕ) (r : OrganisationRole) (before : Db)
    (v : PublicMembership) (after : Db) : Type 0 where
  pub by : Allowed p o none (some r) before
  pub user : User
  pub membership : OrganisationMembership
  pub exists : scalar (λ x. x.id == u) before.users ≡ some user
  pub absent : find_for_user o u before ≡ none
  pub inserted : Inserted p.user_id o u r before membership after
  pub answer : v ≡ public_membership_from_models membership user

-- A returned `add_member` was allowed, and has committed the new membership and its event only.
pub add_member-Returns :
    (env : Env) (p : CurrentPrincipal) (o u : ℕ) (r : OrganisationRole) (s : State)
    → Returns (add_member env p o u r) s (λ v t. Added p o u r s.session v t.committed)
unfolding add_member
add_member-Returns env p o u r s =
    Returns-check _ _ (get_tenant_context-ReadOnly _ _ _) (get_tenant_context-Returns p o _ s)
      λ context authorised. Returns-raise_if _ _ _ λ allowed. Returns-query _ _ (
        Returns-or_raise _ _ _ λ user exists. Returns-query _ _ (
          Returns-raise_if _ _ _ λ absent.
            Returns-bind _ _ (Returns-transaction _ _ (insert_member-Returns env _ o u r s))
              λ m t inserted. Returns-pure _ (record {
                by = record {
                  context = context;
                  authorised = authorised;
                  allowed = unnegated allowed;
                };
                user = user;
                membership = m;
                exists = exists;
                absent = is_none-eq (unnegated absent);
                inserted = inserted;
                answer = refl;
              })))
