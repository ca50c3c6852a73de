-- ===== src/MembershipService/Effects/Changes.antt =====
-- What changing a role and removing a member do to the database when they return.
use multi_tenant_saas_api.Base.{
  unnegated, ℕ, ◌≡◌, ◌⊎◌, inl, inr, refl, ap, Bool, true, false, not, ◌||◌, Option, none, some,
  arith,
}
use multi_tenant_saas_api.Domain.{OrganisationRole, AuditAction, role_eq}
use multi_tenant_saas_api.Database.{Db, OrganisationMembership, User}
use multi_tenant_saas_api.Exec.{Env, State, ◌>>=◌}
use multi_tenant_saas_api.Exec.Returns.{
  Returns, Returns-pure, Returns-bind, Returns-check, Returns-query, Returns-or_raise,
  Returns-raise_if, Returns-commit, Returns-transaction, Returns-weaken,
}
use multi_tenant_saas_api.Repositories.Memberships.{
  put_membership, drop_membership, find_for_user, other_owner, is_last_owner,
}
use multi_tenant_saas_api.Repositories.Outcomes.{
  Wrote, EditedMembership, update_role-Returns, delete_membership-Returns,
}
use multi_tenant_saas_api.Rbac.{CurrentPrincipal, protect_last_owner}
use multi_tenant_saas_api.Rbac.Reads.{get_tenant_context-ReadOnly}
use multi_tenant_saas_api.Rbac.Access.{get_tenant_context-Returns}
use multi_tenant_saas_api.Audit.Events.{Logged, Logged-of-Recorded, record_event-Returns}
use multi_tenant_saas_api.MembershipService.{
  PublicMembership, public_membership_from_models, protect_if_owner_would_be_removed, change_role,
  update_member_role, take_out, remove_member,
}
use multi_tenant_saas_api.MembershipService.Atomicity.{protect_if_owner_would_be_removed-ReadOnly}
use multi_tenant_saas_api.MembershipService.Effects.Adding.{Allowed}

abbrev stays_owner : Option OrganisationRole → Bool
stays_owner none = false
stays_owner (some r) = role_eq r OrganisationRole.owner

-- The member was no owner, or stays one, or another member of the organisation is an owner.
abbrev pub Protected : ℕ → ℕ → OrganisationRole → Option OrganisationRole → Db → Type 0
Protected o u old new db =
    not (role_eq old OrganisationRole.owner) || stays_owner new || other_owner o u db ≡ true

pub Protected-cases :
    (o u : ℕ) (old : OrganisationRole) (new : Option OrganisationRole) (db : Db)
    → Protected o u old new db
    → old ≡ OrganisationRole.owner
    → (new ≡ some OrganisationRole.owner) ⊎ (other_owner o u db ≡ true)
Protected-cases o u old none db h e = inr (ground arith)
Protected-cases o u old (some OrganisationRole.owner) db h e = inl refl
Protected-cases o u old (some OrganisationRole.admin) db h e = inr (ground arith)
Protected-cases o u old (some OrganisationRole.member) db h e = inr (ground arith)
Protected-cases o u old (some OrganisationRole.viewer) db h e = inr (ground arith)

protect_if_owner_would_be_removed-Returns :
    (o u : ℕ) (new : Option OrganisationRole) (s : State) (m : OrganisationMembership)
    → find_for_user o u s.session ≡ some m
    → Returns
        (protect_if_owner_would_be_removed o u m.role new)
        s
        (λ _ _. Protected o u m.role new s.session)
unfolding protect_if_owner_would_be_removed protect_last_owner is_last_owner ◌>>=◌
protect_if_owner_would_be_removed-Returns o u new s m found = record { at = λ x t h. ground arith }

-- The row is as it was or was rewritten under its identifier, and one event tells of it.
pub record Rewritten (actor o : ℕ) (old : OrganisationMembership) (r : OrganisationRole)
    (before : Db) (m : OrganisationMembership) (after : Db) : Type 0 where
  pub middle : Db
  pub change : (middle ≡ before) × (m ≡ old) ⊎ (middle ≡ put_membership m before)
  pub logged :
      Logged middle after
        (λ d. d)
        AuditAction.member_role_changed
        (some o)
        (some actor)
        none
        (some m.id)
  pub has_id : m.id ≡ old.id
  pub in_organisation : m.organisation_id ≡ old.organisation_id
  pub of_user : m.user_id ≡ old.user_id
  pub has_role : m.role ≡ r

middle_of :
    {env : Env} {s t : State} {old m : OrganisationMembership} {r : OrganisationRole}
    → EditedMembership env s old r m t
    → (t.session ≡ s.session) × (m ≡ old) ⊎ (t.session ≡ put_membership m s.session)
middle_of e = cases e.wrote
  where
    cases :
        {s t : State} {old m : OrganisationMembership}
        → (t ≡ s) × (m ≡ old) ⊎ Wrote s t (put_membership m)
        → (t.session ≡ s.session) × (m ≡ old) ⊎ (t.session ≡ put_membership m s.session)
    cases (inl (same, old)) = inl (ap (λ u. u.session) same, old)
    cases (inr w) = inr w.session

change_role-Returns :
    (env : Env) (actor o u : ℕ) (old : OrganisationMembership) (r : OrganisationRole) (s : State)
    → Returns
        (change_role env actor o u old r)
        s
        (λ m t. Rewritten actor o old r s.session m t.committed)
unfolding change_role
change_role-Returns env actor o u old r s =
    Returns-bind _ _ (update_role-Returns env s old r) λ m t edited.
      Returns-bind _ _ (record_event-Returns env t _ _ _ _ _ _ _) λ v w recorded.
        Returns-commit env _ λ c es ec. Returns-pure m (record {
          middle = t.session;
          change = middle_of edited;
          logged = Logged-of-Recorded refl recorded ec;
          has_id = edited.has_id;
          in_organisation = edited.in_organisation;
          of_user = edited.of_user;
          has_role = edited.has_role;
        })

pub record Changed (p : CurrentPrincipal) (o u : ℕ) (r : OrganisationRole) (before : Db)
    (v : PublicMembership) (after : Db) : Type 0 where
  pub old : OrganisationMembership
  pub membership : OrganisationMembership
  pub user : User
  pub found : find_for_user o u before ≡ some old
  pub by : Allowed p o (some old.role) (some r) before
  pub protected : Protected o u old.role (some r) before
  pub rewritten : Rewritten p.user_id o old r before membership after
  pub answer : v ≡ public_membership_from_models membership user

-- A returned `update_member_role` was allowed, kept an owner, and has committed the new role and
-- its event only.
pub update_member_role-Returns :
    (env : Env) (p : CurrentPrincipal) (o u : ℕ) (r : OrganisationRole) (s : State)
    → Returns (update_member_role env p o u r) s (λ v t. Changed p o u r s.session v t.committed)
unfolding update_member_role
update_member_role-Returns env p o u r s =
    Returns-check _ _ (get_tenant_context-ReadOnly _ _ _) (get_tenant_context-Returns p o _ s)
      λ context authorised. Returns-query _ _ (
        Returns-or_raise _ _ _ λ old found. Returns-raise_if _ _ _ λ allowed.
          Returns-check _ _ (protect_if_owner_would_be_removed-ReadOnly _ _ _ _)
            (protect_if_owner_would_be_removed-Returns o u (some r) s old found)
            λ x protected. Returns-query _ _ (
              Returns-or_raise _ _ _ λ user exists.
                Returns-bind _ _ (Returns-transaction _ _ (change_role-Returns env _ o u old r s))
                  λ m t rewritten. Returns-pure _ (record {
                    old = old;
                    membership = m;
                    user = user;
                    found = found;
                    by = record {
                      context = context;
                      authorised = authorised;
                      allowed = unnegated allowed;
                    };
                    protected = protected;
                    rewritten = rewritten;
                    answer = refl;
                  })))

abbrev pub LoggedRemoval : ℕ → ℕ → OrganisationMembership → Db → Db → Type 0
LoggedRemoval actor o m before after =
    Logged before after (drop_membership m) AuditAction.member_removed (some o) (some actor) none
      (some m.id)

take_out-Returns :
    (env : Env) (actor o u : ℕ) (m : OrganisationMembership) (s : State)
    → Returns (take_out env actor o u m) s (λ _ t. LoggedRemoval actor o m s.session t.committed)
unfolding take_out
take_out-Returns env actor o u m s =
    Returns-bind _ _ (delete_membership-Returns env s m) λ x t wrote.
      Returns-bind _ _ (record_event-Returns env t _ _ _ _ _ _ _) λ v w recorded.
        Returns-commit env _
          λ c es ec. Returns-pure tt (Logged-of-Recorded wrote.session recorded ec)

pub record Removed (p : CurrentPrincipal) (o u : ℕ) (before after : Db) : Type 0 where
  pub old : OrganisationMembership
  pub found : find_for_user o u before ≡ some old
  pub by : Allowed p o (some old.role) none before
  pub protected : Protected o u old.role none before
  pub logged : LoggedRemoval p.user_id o old before after

-- A returned `remove_member` was allowed, kept an owner, and has committed the removal and its
-- event only.
pub remove_member-Returns :
    (env : Env) (p : CurrentPrincipal) (o u : ℕ) (s : State)
    → Returns (remove_member env p o u) s (λ _ t. Removed p o u s.session t.committed)
unfolding remove_member
remove_member-Returns env p o u s =
    Returns-check _ _ (get_tenant_context-ReadOnly _ _ _) (get_tenant_context-Returns p o _ s)
      λ context authorised. Returns-query _ _ (
        Returns-or_raise _ _ _ λ old found. Returns-raise_if _ _ _ λ allowed.
          Returns-check _ _ (protect_if_owner_would_be_removed-ReadOnly _ _ _ _)
            (protect_if_owner_would_be_removed-Returns o u none s old found)
            λ x protected.
              Returns-weaken (Returns-transaction _ _ (take_out-Returns env _ o u old s))
                λ y t logged. record {
                  old = old;
                  found = found;
                  by = record {
                    context = context;
                    authorised = authorised;
                    allowed = unnegated allowed;
                  };
                  protected = protected;
                  logged = logged;
                })
