-- ===== src/Tenancy/Operations.antt =====
-- What each operation of the services may change: its organisation only, with one event.
pub mod Resources
use multi_tenant_saas_api.Base.{
  ℕ, ◌≡◌, ◌⊎◌, ◌∙◌, inl, inr, refl, sym, ap, subst, true, false, not, Option, none, some, Text, All,
  List, [], ◌∷◌, ◌||◌, text_eq, ◌==◌, any, arith, scalar,
}
use multi_tenant_saas_api.Base.Unique.{unique_row, scalar-holds}
use multi_tenant_saas_api.Domain.{OrganisationRole}
use multi_tenant_saas_api.Database.{Db, Organisation, organisation_fits}
use multi_tenant_saas_api.Exec.{Env, State, Action}
use multi_tenant_saas_api.Exec.Rules.{IsClean}
use multi_tenant_saas_api.Exec.Returns.{Returns, Returns-weaken}
use multi_tenant_saas_api.Repositories.Organisations.{add_organisation, put_organisation}
use multi_tenant_saas_api.Repositories.Memberships.{add_membership, put_membership, drop_membership}
use multi_tenant_saas_api.Rbac.{CurrentPrincipal}
use multi_tenant_saas_api.MembershipService.{add_member, update_member_role, remove_member}
use multi_tenant_saas_api.MembershipService.Effects.Adding.{add_member-Returns}
use multi_tenant_saas_api.MembershipService.Effects.Changes.{
  update_member_role-Returns, remove_member-Returns,
}
use multi_tenant_saas_api.OrganisationService.{create_organisation, update_organisation}
use multi_tenant_saas_api.OrganisationService.Effects.{
  create_organisation-Returns_lem, update_organisation-Returns_lem,
}
use multi_tenant_saas_api.Invariants.{IsValid, same_organisation_id}
use multi_tenant_saas_api.Invariants.Owners.{only_row, found_is_of}
use multi_tenant_saas_api.Tenancy.{row, SameTenant, elsewhere, Change, Accounted}
use multi_tenant_saas_api.Tenancy.Writes.{
  SameTenant-refl, SameTenant-then, SameTenant-add_organisation, SameTenant-add_membership,
  SameTenant-put_organisation, SameTenant-put_membership, SameTenant-drop_membership, Change-Logged,
}

-- From a session with nothing pending and a valid database, `m` is accounted for if it returns.
pub record Accounts {A : Type 0} (user key target : Option ℕ) (m : Action A) : Type 0 where
  pub at :
      (s : State)
      → IsClean s
      → IsValid s.committed
      → Returns m s (λ _ t. Accounted user key target s.committed t.committed)

-- A change of the session's view is one of the committed database.
pub Accounts-Change :
    {A : Type 0} {user key target : Option ℕ} {m : Action A} {P : State → A → State → Type 0}
    → ((s : State) → Returns m s (P s))
    → ((s : State) (a : A) (t : State)
        → IsValid s.session
        → P s a t
        → Change user key target s.session t.committed)
    → Accounts user key target m
Accounts-Change {A} {user} {key} {target} r change = record {
  at = λ s c v. Returns-weaken (r s) λ a t e. inr (
      subst (λ d. Change user key target d t.committed) c
        (change s a t (subst IsValid (sym c) v) e));
}

only_organisation :
    (i : ℕ) (old r : Organisation) (db : Db)
    → IsValid db
    → scalar (λ x. x.id == i) db.organisations ≡ some old
    → r.id ≡ old.id
    → All (λ x. (x.id == r.id) ≡ true → x ≡ old) db.organisations × (old.id ≡ i)
only_organisation i old r db v found same = (
  unique_row same_organisation_id (λ x. x.id == i) (λ x. x.id == r.id) db.organisations old
      (λ x y px py. ground arith) v.organisation_ids found (ground arith),
  ground (arith, scalar-holds (λ x. x.id == i) db.organisations old found),
)

pub edited :
    {before middle put : Db} {A : Type 0}
    → (middle ≡ before) × A ⊎ (middle ≡ put)
    → put.audit_events ≡ before.audit_events
    → (middle.audit_events ≡ before.audit_events)
      × ((o : ℕ) → SameTenant o before put → SameTenant o before middle)
edited {before} (inl (e, _)) log = (
  ap (λ d. d.audit_events) e,
  λ o s. subst (SameTenant o before) (sym e) (SameTenant-refl o before),
)
edited {before} (inr e) log =
    (ap (λ d. d.audit_events) e ∙ log, λ o s. subst (SameTenant o before) (sym e) s)

forget : {A B C : Type 0} → A ⊎ B × C → A ⊎ B
forget (inl a) = inl a
forget (inr b) = inr b.0

pub other_than : (i j o : ℕ) → i ≡ j → not (j == o) ≡ true → (i == o) ≡ false
other_than i j o e h = ground arith

fresh :
    (r : Organisation) (db : Db) (o : ℕ)
    → organisation_fits db r ≡ true
    → any (row o) db.organisations ≡ true
    → (r.id == o) ≡ false
unfolding organisation_fits
fresh r db o fits e = absent db.organisations (ground arith) e
  where
    absent :
        (xs : List Organisation)
        → any (λ p. p.id == r.id || text_eq p.slug r.slug) xs ≡ false
        → any (row o) xs ≡ true
        → (r.id == o) ≡ false
    absent [] a b = cc
    absent (x ∷ xs) a b = ground (arith, absent xs)

module _ (env : Env) where
  pub create_organisation-Accounts :
      (p : CurrentPrincipal) (n : Text) (l : Option Text)
      → Accounts (some p.user_id) none none (create_organisation env p n l)
  unfolding add_organisation add_membership
  create_organisation-Accounts p n l =
      Accounts-Change (create_organisation-Returns_lem env p n l) λ s a t v e.
        Change-Logged e.founded.logged refl λ o known away.
          let new = fresh e.organisation s.session o e.founded.fits known in
          (
            SameTenant-then (SameTenant-add_organisation o s.session e.organisation new) (
                SameTenant-add_membership o _ e.membership
                  (other_than _ _ o e.founded.in_organisation (ground arith))),
            ground arith,
          )

  pub add_member-Accounts :
      (p : CurrentPrincipal) (i u : ℕ) (r : OrganisationRole)
      → Accounts (some p.user_id) none (some i) (add_member env p i u r)
  unfolding add_membership
  add_member-Accounts p i u r = Accounts-Change (add_member-Returns env p i u r) λ s a t v e.
      Change-Logged e.inserted.logged refl λ o known away. (
        SameTenant-add_membership o s.session e.membership
            (other_than _ _ o e.inserted.in_organisation away),
        away,
      )

  pub remove_member-Accounts :
      (p : CurrentPrincipal) (i u : ℕ)
      → Accounts (some p.user_id) none (some i) (remove_member env p i u)
  unfolding drop_membership
  remove_member-Accounts p i u = Accounts-Change (remove_member-Returns env p i u) λ s a t v e.
      Change-Logged e.logged refl λ o known away. (
        SameTenant-drop_membership o s.session e.old
            (only_row s.session i u e.old v.membership_ids e.found)
            (other_than _ _ o (found_is_of s.session i u e.old e.found).0 away),
        away,
      )

  pub update_member_role-Accounts :
      (p : CurrentPrincipal) (i u : ℕ) (r : OrganisationRole)
      → Accounts (some p.user_id) none (some i) (update_member_role env p i u r)
  unfolding put_membership
  update_member_role-Accounts p i u r =
      Accounts-Change (update_member_role-Returns env p i u r) λ s a t v e.
        let w = e.rewritten in
        Change-Logged w.logged (edited w.change refl).0 λ o known away. (
          (edited w.change refl).1 o (
              SameTenant-put_membership o s.session e.old e.membership
                (subst (λ j. All (λ x. (x.id == j) ≡ true → x ≡ e.old) s.session.memberships)
                  (sym w.has_id) (only_row s.session i u e.old v.membership_ids e.found))
                (other_than _ _ o (found_is_of s.session i u e.old e.found).0 away)
                w.in_organisation),
          away,
        )

  pub update_organisation-Accounts :
      (p : CurrentPrincipal) (i : ℕ) (n l : Option Text)
      → Accounts (some p.user_id) none (some i) (update_organisation env p i n l)
  unfolding put_organisation
  update_organisation-Accounts p i n l =
      Accounts-Change (update_organisation-Returns_lem env p i n l) λ s a t v e.
        let w = e.rewritten in
        let k = only_organisation i e.old e.organisation s.session v e.found w.has_id in
        let c = forget w.change in
        Change-Logged w.logged (edited c refl).0 λ o known away. (
          (edited c refl).1 o (
              SameTenant-put_organisation o s.session e.old e.organisation k.0
                (other_than _ _ o k.1 away) w.has_id),
          subst (λ j. elsewhere (some j) o ≡ true) (sym (w.has_id ∙ k.1)) away,
        )
