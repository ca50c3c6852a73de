-- ===== src/Invariants/Owners.antt =====
-- Every organisation keeps an owner: what the last-owner protection of services/rbac.py is for.
use multi_tenant_saas_api.Base.{
  ℕ, ◌≤◌, ◌<◌, ◌≡◌, ◌⊎◌, inl, inr, Bool, true, false, not, ◌&&◌, none, some, ◌==◌, count,
  delete_rows, update_rows, subst, sym, All, [], ◌∷◌, arith, Bool-cases,
}
use multi_tenant_saas_api.Base.Unique.{Distinct, unique_row, scalar-holds}
use multi_tenant_saas_api.Base.Counting.{count-append, count-and-le, count-delete, count-update}
use multi_tenant_saas_api.Domain.{OrganisationRole}
use multi_tenant_saas_api.Database.{Db, OrganisationMembership}
use multi_tenant_saas_api.Repositories.Memberships.{
  is_of, is_owner_of, owners, other_owner, find_for_user, add_membership, put_membership,
  drop_membership,
}
use multi_tenant_saas_api.MembershipService.Effects.Changes.{Protected, Protected-cases}

abbrev pub same_membership_id : OrganisationMembership → OrganisationMembership → Bool
same_membership_id m n = m.id == n.id

-- A membership that is found by organisation and user is the only row of its identifier.
pub only_row :
    (db : Db) (o u : ℕ) (old : OrganisationMembership)
    → Distinct same_membership_id db.memberships
    → find_for_user o u db ≡ some old
    → All (λ m. (m.id == old.id) ≡ true → m ≡ old) db.memberships
unfolding find_for_user
only_row db o u old d found =
    unique_row same_membership_id (is_of o u) (λ m. m.id == old.id) db.memberships old
      (λ x y px py. ground arith) d found (ground arith)

pub found_is_of :
    (db : Db) (o u : ℕ) (old : OrganisationMembership)
    → find_for_user o u db ≡ some old
    → (old.organisation_id ≡ o) × (old.user_id ≡ u)
unfolding find_for_user
found_is_of db o u old found =
    let h = scalar-holds (is_of o u) db.memberships old found in (ground arith, ground arith)

pub owners-add :
    (o : ℕ) (m : OrganisationMembership) (db : Db) → owners o db ≤ owners o (add_membership m db)
unfolding owners add_membership
owners-add o m db = omega (arith, count-append (is_owner_of o) db.memberships (m ∷ []))

-- A new owner counts.
pub owners-add_owner :
    (o : ℕ) (m : OrganisationMembership) (db : Db)
    → m.organisation_id ≡ o
    → m.role ≡ OrganisationRole.owner
    → 0 < owners o (add_membership m db)
unfolding owners add_membership
owners-add_owner o m db e r =
    rw (count-append (is_owner_of o) db.memberships (m ∷ [])) (ground arith)

module _ (db : Db) (o u : ℕ) (old : OrganisationMembership)
    (distinct : Distinct same_membership_id db.memberships)
    (found : find_for_user o u db ≡ some old) where
  abbrev other : OrganisationMembership → Bool
  other m = is_owner_of o m && not (m.user_id == u)

  other_old : other old ≡ false
  other_old = ground (arith, found_is_of db o u old found)

  -- Removing a protected member leaves each organisation an owner.
  pub owners-drop :
      Protected o u old.role none db
      → (i : ℕ) → 0 < owners i db
      → 0 < owners i (drop_membership old db)
  unfolding owners drop_membership other_owner
  owners-drop protected i h = elim (Bool-cases (is_owner_of i old)) [
    | inr not_owner ↦ omega (
      arith,
      count-delete (λ m. m.id == old.id) (is_owner_of i) old db.memberships
          (only_row db o u old distinct found) not_owner,
    )
    | inl owns ↦
        owned i (ground (arith, found_is_of db o u old found))
          (ground (arith, Protected-cases o u old.role none db protected (ground arith)))
  ]
    where
      owned :
          (i : ℕ) → i ≡ o → 0 < count other db.memberships → 0 < owners i (drop_membership old db)
      owned i e pos = rw e (
          omega (
            arith,
            count-delete (λ m. m.id == old.id) other old db.memberships
                (only_row db o u old distinct found) other_old,
            count-and-le (is_owner_of o) (λ m. not (m.user_id == u))
                (delete_rows (λ m. m.id == old.id) db.memberships),
          ))

  -- So does a protected change of role.
  pub owners-put :
      (r : OrganisationRole) (m : OrganisationMembership)
      → Protected o u old.role (some r) db
      → m.id ≡ old.id
      → m.organisation_id ≡ old.organisation_id
      → m.role ≡ r
      → (i : ℕ) → 0 < owners i db
      → 0 < owners i (put_membership m db)
  unfolding owners put_membership other_owner
  owners-put r m protected eid eo er i h = elim (Bool-cases (is_owner_of i old)) [
    | inr not_owner ↦ omega (
      arith,
      count-update (λ n. n.id == m.id) (is_owner_of i) old m db.memberships only (λ e. cc),
    )
    | inl owns ↦
        cases (ground (arith, found_is_of db o u old found))
          (ground (arith, Protected-cases o u old.role (some r) db protected (ground arith))) owns
  ]
    where
      only : All (λ n. (n.id == m.id) ≡ true → n ≡ old) db.memberships
      only =
          subst (λ j. All (λ n. (n.id == j) ≡ true → n ≡ old) db.memberships) (sym eid)
            (only_row db o u old distinct found)

      cases :
          i ≡ o
          → (some r ≡ some OrganisationRole.owner) ⊎ (0 < count other db.memberships)
          → is_owner_of i old ≡ true
          → 0 < owners i (put_membership m db)
      cases e (inl stays) owns = omega (
        arith,
        count-update (λ n. n.id == m.id) (is_owner_of i) old m db.memberships only
            (λ t. ground arith),
      )
      cases e (inr pos) owns = rw e (
          omega (
            arith,
            count-update (λ n. n.id == m.id) other old m db.memberships only (λ t. cc other_old),
            count-and-le (is_owner_of o) (λ n. not (n.user_id == u))
                (update_rows (λ n. n.id == m.id) (λ _. m) db.memberships),
          ))
