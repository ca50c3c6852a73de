-- ===== src/MembershipService/Boundaries.antt =====
-- The boundary between owners and admins.
use multi_tenant_saas_api.Base.{
  ℕ, ◌≡◌, ◌≢◌, ◌⊎◌, ◌∙◌, inl, inr, refl, sym, ap, subst, true, false, Option, none, some, All, ◌==◌,
  select, arith,
}
use multi_tenant_saas_api.Base.Unique.{Distinct}
use multi_tenant_saas_api.Base.Selecting.{select-add, select-delete, select-update}
use multi_tenant_saas_api.Domain.{OrganisationRole, AuditAction}
use multi_tenant_saas_api.Database.{Db, OrganisationMembership}
use multi_tenant_saas_api.Exec.{Env, State, Action}
use multi_tenant_saas_api.Exec.Returns.{Returns, Returns-weaken, Outcome, outcome, either_way}
use multi_tenant_saas_api.Exec.Rules.{IsClean, Atomic}
use multi_tenant_saas_api.MembershipService.Atomicity.{
  add_member-Atomic, update_member_role-Atomic, remove_member-Atomic,
}
use multi_tenant_saas_api.Repositories.Memberships.{
  find_for_user, is_owner_of, add_membership, put_membership, drop_membership,
}
use multi_tenant_saas_api.Repositories.AuditEvents.{add_audit_event}
use multi_tenant_saas_api.Audit.Events.{Logged}
use multi_tenant_saas_api.Rbac.{CurrentPrincipal}
use multi_tenant_saas_api.MembershipService.{
  role_management_allowed, add_member, update_member_role, remove_member,
}
use multi_tenant_saas_api.MembershipService.Effects.Adding.{Allowed, add_member-Returns}
use multi_tenant_saas_api.MembershipService.Effects.Changes.{
  update_member_role-Returns, remove_member-Returns,
}
use multi_tenant_saas_api.Invariants.Owners.{same_membership_id, only_row}

-- The owners' rows are the same ones.
abbrev pub SameOwners : ℕ → Db → Db → Type 0
SameOwners o before after =
    select (is_owner_of o) after.memberships ≡ select (is_owner_of o) before.memberships

memberships_of :
    {before after : Db} {write : Db → Db} {a : AuditAction} {i u k t : Option ℕ}
    → Logged before after write a i u k t
    → after.memberships ≡ (write before).memberships
unfolding add_audit_event
memberships_of l = ap (λ d. d.memberships) l.written

allowed_to :
    (r : OrganisationRole) (old new : Option OrganisationRole)
    → r ≢ OrganisationRole.owner
    → role_management_allowed r old new ≡ true
    → (old ≢ some OrganisationRole.owner) × (new ≢ some OrganisationRole.owner)
unfolding role_management_allowed
allowed_to OrganisationRole.owner old new h a = absurd (h refl)
allowed_to OrganisationRole.admin old new h a = (λ e. ground arith, λ e. ground arith)
allowed_to OrganisationRole.member old new h a = cc
allowed_to OrganisationRole.viewer old new h a = cc

-- Neither the role of the target nor the requested one is owner.
not_owners :
    (p : CurrentPrincipal) (o : ℕ) (old new : Option OrganisationRole) (db : Db)
    (m : OrganisationMembership)
    → find_for_user o p.user_id db ≡ some m
    → m.role ≢ OrganisationRole.owner
    → Allowed p o old new db
    → (old ≢ some OrganisationRole.owner) × (new ≢ some OrganisationRole.owner)
not_owners p o old new db m own not_owner by =
    allowed_to by.context.role old new
      (λ e. not_owner (ground (arith, by.authorised.has_role, by.authorised.own))) by.allowed

is_plain :
    (o : ℕ) (n : OrganisationMembership) (r : OrganisationRole)
    → n.role ≡ r
    → some r ≢ some OrganisationRole.owner
    → is_owner_of o n ≡ false
is_plain o n OrganisationRole.owner e h = absurd (h refl)
is_plain o n OrganisationRole.admin e h = ground arith
is_plain o n OrganisationRole.member e h = ground arith
is_plain o n OrganisationRole.viewer e h = ground arith

module _ (env : Env) (p : CurrentPrincipal) (o u : ℕ) (s : State) (m : OrganisationMembership)
    (own : find_for_user o p.user_id s.session ≡ some m)
    (not_owner : m.role ≢ OrganisationRole.owner) where
  pub add_member-SameOwners :
      (r : OrganisationRole)
      → Returns (add_member env p o u r) s (λ _ t. SameOwners o s.session t.committed)
  unfolding add_membership
  add_member-SameOwners r = Returns-weaken (add_member-Returns env p o u r s) λ a t e.
      ap (select (is_owner_of o)) (memberships_of e.inserted.logged)
      ∙ select-add (is_owner_of o) s.session.memberships e.membership (
          is_plain o e.membership r e.inserted.has_role
            (not_owners p o none (some r) s.session m own not_owner e.by).1)

  pub update_member_role-SameOwners :
      (r : OrganisationRole)
      → Distinct same_membership_id s.session.memberships
      → Returns (update_member_role env p o u r) s (λ _ t. SameOwners o s.session t.committed)
  unfolding put_membership
  update_member_role-SameOwners r distinct =
      Returns-weaken (update_member_role-Returns env p o u r s) λ a t e.
        let w = e.rewritten in
        let plain = not_owners p o (some e.old.role) (some r) s.session m own not_owner e.by in
        ap (select (is_owner_of o)) (memberships_of w.logged)
        ∙ cases w.change (
            select-update (λ n. n.id == e.membership.id) (is_owner_of o) e.old e.membership
              s.session.memberships
              (subst (λ j. All (λ n. (n.id == j) ≡ true → n ≡ e.old) s.session.memberships)
                (sym w.has_id) (only_row s.session o u e.old distinct e.found))
              (is_plain o e.old e.old.role refl plain.0)
              (is_plain o e.membership r w.has_role plain.1))
    where
      cases :
          {mid put : Db} {B : Type 0}
          → (mid ≡ s.session) × B ⊎ (mid ≡ put)
          → SameOwners o s.session put
          → SameOwners o s.session mid
      cases (inl (e, _)) same = ap (λ d. select (is_owner_of o) d.memberships) e
      cases (inr e) same = ap (λ d. select (is_owner_of o) d.memberships) e ∙ same

  pub remove_member-SameOwners :
      Distinct same_membership_id s.session.memberships
      → Returns (remove_member env p o u) s (λ _ t. SameOwners o s.session t.committed)
  unfolding drop_membership
  remove_member-SameOwners distinct = Returns-weaken (remove_member-Returns env p o u s) λ a t e.
      ap (select (is_owner_of o)) (memberships_of e.logged)
      ∙ select-delete (λ n. n.id == e.old.id) (is_owner_of o) e.old s.session.memberships
          (only_row s.session o u e.old distinct e.found)
          (is_plain o e.old e.old.role refl
            (not_owners p o (some e.old.role) none s.session m own not_owner e.by).0)

module _ (env : Env) (p : CurrentPrincipal) (o u : ℕ) (s : State) (m : OrganisationMembership)
    (clean : IsClean s) (own : find_for_user o p.user_id s.committed ≡ some m)
    (not_owner : m.role ≢ OrganisationRole.owner) where
  here : find_for_user o p.user_id s.session ≡ some m
  here = subst (λ d. find_for_user o p.user_id d ≡ some m) (sym clean) own

  unchanged :
      {A : Type 0} (k : Action A)
      → Atomic k
      → Returns k s (λ _ t. SameOwners o s.session t.committed)
      → SameOwners o s.committed (k s).1.committed
  unchanged k atomic r = either_way (SameOwners o s.committed) s.committed (k s) refl (
      subst (λ d. Outcome (λ _ t. SameOwners o d t.committed) s.committed (k s)) clean
        (outcome k s atomic r clean))

  -- From a session with nothing pending, adding a member, whether it returns or raises, leaves the
  -- owners' rows of the organisation as they were, if the caller is a member of it and no owner.
  pub add_member-owners :
      (r : OrganisationRole) → SameOwners o s.committed (add_member env p o u r s).1.committed
  add_member-owners r =
      unchanged _ (add_member-Atomic env p o u r)
        (add_member-SameOwners env p o u s m here not_owner r)

  -- From a session with nothing pending and a database whose membership identifiers are distinct, a
  -- change of role, whether it returns or raises, leaves the owners' rows of the organisation as
  -- they were, if the caller is a member of it and no owner.
  pub update_member_role-owners :
      (r : OrganisationRole)
      → Distinct same_membership_id s.committed.memberships
      → SameOwners o s.committed (update_member_role env p o u r s).1.committed
  update_member_role-owners r d = unchanged _ (update_member_role-Atomic env p o u r) (
      update_member_role-SameOwners env p o u s m here not_owner r
        (subst (λ e. Distinct same_membership_id e.memberships) (sym clean) d))

  -- From a session with nothing pending and a database whose membership identifiers are distinct, a
  -- removal, whether it returns or raises, leaves the owners' rows of the organisation as they were,
  -- if the caller is a member of it and no owner.
  pub remove_member-owners :
      Distinct same_membership_id s.committed.memberships
      → SameOwners o s.committed (remove_member env p o u s).1.committed
  remove_member-owners d = unchanged _ (remove_member-Atomic env p o u) (
      remove_member-SameOwners env p o u s m here not_owner
        (subst (λ e. Distinct same_membership_id e.memberships) (sym clean) d))
