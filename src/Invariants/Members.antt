-- ===== src/Invariants/Members.antt =====
-- Adding, changing and removing a member keep the invariants, under the checks that guard them.
use multi_tenant_saas_api.Base.{
  ℕ, ◌<◌, ◌≡◌, sym, subst, true, false, ◌&&◌, none, some, ◌==◌, any, All, arith,
}
use multi_tenant_saas_api.Base.Unique.{Distinct-add, Distinct-delete, Distinct-update}
use multi_tenant_saas_api.Domain.{OrganisationRole}
use multi_tenant_saas_api.Database.{Db, OrganisationMembership, membership_fits}
use multi_tenant_saas_api.Repositories.Memberships.{
  owners, find_for_user, add_membership, put_membership, drop_membership,
}
use multi_tenant_saas_api.MembershipService.Effects.Changes.{Protected}
use multi_tenant_saas_api.Invariants.{IsValid, same_pair}
use multi_tenant_saas_api.Invariants.Owners.{
  same_membership_id, only_row, owners-add, owners-drop, owners-put,
}
use multi_tenant_saas_api.Invariants.Writes.{any-or, All-map}

pub IsValid-add_membership :
    (m : OrganisationMembership) (db : Db)
    → membership_fits db m ≡ true
    → IsValid db
    → IsValid (add_membership m db)
unfolding add_membership owners membership_fits
IsValid-add_membership m db fits v = record {
  membership_ids =
      Distinct-add same_membership_id (λ x y. ground arith) db.memberships m v.membership_ids own.0;
  membership_pairs =
      Distinct-add same_pair (λ x y. ground arith) db.memberships m v.membership_pairs own.1;
  organisation_ids = v.organisation_ids;
  organisation_slugs = v.organisation_slugs;
  project_ids = v.project_ids;
  key_ids = v.key_ids;
  key_hashes = v.key_hashes;
  safe_events = v.safe_events;
  owned =
      All-map (λ p. 0 < owners p.id db) (λ p. 0 < owners p.id (add_membership m db))
        db.organisations (λ p h. omega (arith, owners-add p.id m db)) v.owned;
}
  where
    own :
        (any (λ n. n.id == m.id) db.memberships ≡ false)
        × (any
              (λ n. n.organisation_id == m.organisation_id && n.user_id == m.user_id)
              db.memberships
            ≡ false)
    own =
        any-or (λ n. n.id == m.id)
          (λ n. n.organisation_id == m.organisation_id && n.user_id == m.user_id) db.memberships
          (ground arith)

module _ (db : Db) (o u : ℕ) (old : OrganisationMembership)
    (found : find_for_user o u db ≡ some old) where
  pub IsValid-drop_membership :
      Protected o u old.role none db → IsValid db → IsValid (drop_membership old db)
  unfolding drop_membership owners
  IsValid-drop_membership protected v = record {
    membership_ids =
        Distinct-delete same_membership_id (λ m. m.id == old.id) db.memberships v.membership_ids;
    membership_pairs =
        Distinct-delete same_pair (λ m. m.id == old.id) db.memberships v.membership_pairs;
    organisation_ids = v.organisation_ids;
    organisation_slugs = v.organisation_slugs;
    project_ids = v.project_ids;
    key_ids = v.key_ids;
    key_hashes = v.key_hashes;
    safe_events = v.safe_events;
    owned =
        All-map (λ p. 0 < owners p.id db) (λ p. 0 < owners p.id (drop_membership old db))
          db.organisations (λ p h. owners-drop db o u old v.membership_ids found protected p.id h)
          v.owned;
  }

  pub IsValid-put_membership :
      (r : OrganisationRole) (m : OrganisationMembership)
      → Protected o u old.role (some r) db
      → m.id ≡ old.id
      → m.organisation_id ≡ old.organisation_id
      → m.user_id ≡ old.user_id
      → m.role ≡ r
      → IsValid db
      → IsValid (put_membership m db)
  unfolding put_membership owners
  IsValid-put_membership r m protected ei eo eu er v = record {
    membership_ids =
        Distinct-update (λ n. n.id == m.id) old m same_membership_id db.memberships
          (λ y. ground arith) (λ y. ground arith) only v.membership_ids;
    membership_pairs =
        Distinct-update (λ n. n.id == m.id) old m same_pair db.memberships (λ y. ground arith)
          (λ y. ground arith) only v.membership_pairs;
    organisation_ids = v.organisation_ids;
    organisation_slugs = v.organisation_slugs;
    project_ids = v.project_ids;
    key_ids = v.key_ids;
    key_hashes = v.key_hashes;
    safe_events = v.safe_events;
    owned =
        All-map (λ p. 0 < owners p.id db) (λ p. 0 < owners p.id (put_membership m db))
          db.organisations
          (λ p h. owners-put db o u old v.membership_ids found r m protected ei eo er p.id h)
          v.owned;
  }
    where
      only : All (λ n. (n.id == m.id) ≡ true → n ≡ old) db.memberships
      only =
          subst (λ j. All (λ n. (n.id == j) ≡ true → n ≡ old) db.memberships) (sym ei)
            (only_row db o u old v.membership_ids found)
