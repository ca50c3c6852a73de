-- ===== src/Invariants/Writes.antt =====
-- Each write of the repositories keeps the invariants, under the check that guards it.
use multi_tenant_saas_api.Base.{
  ℕ, ◌<◌, ◌≡◌, inl, inr, refl, sym, subst, Bool, true, false, ◌&&◌, ◌||◌, Option, List, [], ◌∷◌,
  ◌++◌, ◌==◌, any, All, Text, update_rows, arith, Bool-cases, text_eq, text_eq_iff,
}
use multi_tenant_saas_api.Base.Unique.{Distinct-add, Distinct-update, Distinct-put, Distinct-rekey}
use multi_tenant_saas_api.Domain.{OrganisationRole, AuditAction}
use multi_tenant_saas_api.Database.{
  Db, Organisation, OrganisationMembership, Project, ApiKey, AuditEvent, organisation_fits,
  organisation_update_fits, membership_fits, project_fits, api_key_fits,
}
use multi_tenant_saas_api.Repositories.Memberships.{owners, add_membership}
use multi_tenant_saas_api.Repositories.Organisations.{add_organisation, put_organisation}
use multi_tenant_saas_api.Repositories.Projects.{add_project, put_project}
use multi_tenant_saas_api.Repositories.ApiKeys.{add_api_key, put_api_key}
use multi_tenant_saas_api.Repositories.AuditEvents.{add_audit_event}
use multi_tenant_saas_api.Audit.Events.{Logged}
use multi_tenant_saas_api.Invariants.{
  IsValid, IsSafe, same_pair, same_slug, same_organisation_id, same_project_id, same_key_id,
  same_hash,
}
use multi_tenant_saas_api.Invariants.Owners.{same_membership_id, owners-add, owners-add_owner}

text_eq_comm : (s t : Text) → text_eq s t ≡ text_eq t s
text_eq_comm s t = ground (arith, text_eq_iff s t, text_eq_iff t s)

pub any-or :
    {A : Type 0} (p q : A → Bool) (xs : List A)
    → any (λ x. p x || q x) xs ≡ false
    → (any p xs ≡ false) × (any q xs ≡ false)
any-or p q [] h = (refl, refl)
any-or p q (x ∷ xs) h = ground (arith, any-or p q xs)

All-add :
    {A : Type 0} (P : A → Type 0) (xs : List A) (x : A) → All P xs → P x → All P (xs ++ x ∷ [])
All-add P [] x a h = (h, tt)
All-add P (y ∷ xs) x a h = (a.0, All-add P xs x a.1 h)

pub All-map :
    {A : Type 0} (P Q : A → Type 0) (xs : List A) → ((x : A) → P x → Q x) → All P xs → All Q xs
All-map P Q [] f a = tt
All-map P Q (x ∷ xs) f a = (f x a.0, All-map P Q xs f a.1)

IsValid-add_audit_event :
    (e : AuditEvent) (db : Db) → IsSafe e → IsValid db → IsValid (add_audit_event e db)
unfolding add_audit_event owners
IsValid-add_audit_event e db safe v = record {
  membership_ids = v.membership_ids;
  membership_pairs = v.membership_pairs;
  organisation_ids = v.organisation_ids;
  organisation_slugs = v.organisation_slugs;
  project_ids = v.project_ids;
  key_ids = v.key_ids;
  key_hashes = v.key_hashes;
  safe_events = All-add IsSafe db.audit_events e v.safe_events safe;
  owned = v.owned;
}

-- One write that keeps the invariants, and its event.
pub IsValid-Logged :
    {before after : Db} {write : Db → Db} {a : AuditAction} {o u k target : Option ℕ}
    → Logged before after write a o u k target
    → IsValid (write before)
    → IsValid after
IsValid-Logged l v = subst IsValid (sym l.written) (IsValid-add_audit_event l.event _ l.safe v)

pub IsValid-add_project :
    (p : Project) (db : Db) → project_fits db p ≡ true → IsValid db → IsValid (add_project p db)
unfolding add_project owners project_fits
IsValid-add_project p db fits v = record {
  membership_ids = v.membership_ids;
  membership_pairs = v.membership_pairs;
  organisation_ids = v.organisation_ids;
  organisation_slugs = v.organisation_slugs;
  project_ids =
      Distinct-add same_project_id (λ x y. ground arith) db.projects p v.project_ids (ground arith);
  key_ids = v.key_ids;
  key_hashes = v.key_hashes;
  safe_events = v.safe_events;
  owned = v.owned;
}

-- The row keeps its identifier.
pub IsValid-put_project : (p : Project) (db : Db) → IsValid db → IsValid (put_project p db)
unfolding put_project owners
IsValid-put_project p db v = record {
  membership_ids = v.membership_ids;
  membership_pairs = v.membership_pairs;
  organisation_ids = v.organisation_ids;
  organisation_slugs = v.organisation_slugs;
  project_ids =
      Distinct-rekey (λ q. q.id == p.id) p same_project_id db.projects (λ x y h. ground arith)
        (λ x y h. ground arith) v.project_ids;
  key_ids = v.key_ids;
  key_hashes = v.key_hashes;
  safe_events = v.safe_events;
  owned = v.owned;
}

pub IsValid-add_api_key :
    (k : ApiKey) (db : Db) → api_key_fits db k ≡ true → IsValid db → IsValid (add_api_key k db)
unfolding add_api_key owners api_key_fits
IsValid-add_api_key k db fits v = record {
  membership_ids = v.membership_ids;
  membership_pairs = v.membership_pairs;
  organisation_ids = v.organisation_ids;
  organisation_slugs = v.organisation_slugs;
  project_ids = v.project_ids;
  key_ids = Distinct-add same_key_id (λ x y. ground arith) db.api_keys k v.key_ids apart.0;
  key_hashes =
      Distinct-add same_hash (λ x y. text_eq_comm x.key_hash y.key_hash) db.api_keys k v.key_hashes
        apart.1;
  safe_events = v.safe_events;
  owned = v.owned;
}
  where
    apart :
        (any (λ j. j.id == k.id) db.api_keys ≡ false)
        × (any (λ j. text_eq j.key_hash k.key_hash) db.api_keys ≡ false)
    apart =
        any-or (λ j. j.id == k.id) (λ j. text_eq j.key_hash k.key_hash) db.api_keys (ground arith)

-- The row keeps its identifier and its hash.
pub IsValid-put_api_key :
    (old k : ApiKey) (db : Db)
    → All (λ j. (j.id == k.id) ≡ true → j ≡ old) db.api_keys
    → k.id ≡ old.id
    → k.key_hash ≡ old.key_hash
    → IsValid db
    → IsValid (put_api_key k db)
unfolding put_api_key owners
IsValid-put_api_key old k db only ei eh v = record {
  membership_ids = v.membership_ids;
  membership_pairs = v.membership_pairs;
  organisation_ids = v.organisation_ids;
  organisation_slugs = v.organisation_slugs;
  project_ids = v.project_ids;
  key_ids =
      Distinct-update (λ j. j.id == k.id) old k same_key_id db.api_keys (λ y. ground arith)
        (λ y. ground arith) only v.key_ids;
  key_hashes =
      Distinct-update (λ j. j.id == k.id) old k same_hash db.api_keys (λ y. cc) (λ y. cc) only
        v.key_hashes;
  safe_events = v.safe_events;
  owned = v.owned;
}

-- A new organisation comes with a membership of an owner.
pub IsValid-found :
    (o : Organisation) (m : OrganisationMembership) (db : Db)
    → organisation_fits db o ≡ true
    → membership_fits (add_organisation o db) m ≡ true
    → m.organisation_id ≡ o.id
    → m.role ≡ OrganisationRole.owner
    → IsValid db
    → IsValid (add_membership m (add_organisation o db))
unfolding add_organisation add_membership owners organisation_fits membership_fits
IsValid-found o m db fits membership_fit eo owns v = record {
  membership_ids =
      Distinct-add same_membership_id (λ x y. ground arith) db.memberships m v.membership_ids own.0;
  membership_pairs =
      Distinct-add same_pair (λ x y. ground arith) db.memberships m v.membership_pairs own.1;
  organisation_ids =
      Distinct-add same_organisation_id (λ x y. ground arith) db.organisations o v.organisation_ids
        apart.0;
  organisation_slugs =
      Distinct-add same_slug (λ x y. text_eq_comm x.slug y.slug) db.organisations o
        v.organisation_slugs apart.1;
  project_ids = v.project_ids;
  key_ids = v.key_ids;
  key_hashes = v.key_hashes;
  safe_events = v.safe_events;
  owned =
      All-add (λ p. 0 < owners p.id (add_membership m db)) db.organisations o
        (All-map (λ p. 0 < owners p.id db) (λ p. 0 < owners p.id (add_membership m db))
          db.organisations (λ p h. omega (arith, owners-add p.id m db)) v.owned)
        (owners-add_owner o.id m db eo owns);
}
  where
    apart :
        (any (λ p. p.id == o.id) db.organisations ≡ false)
        × (any (λ p. text_eq p.slug o.slug) db.organisations ≡ false)
    apart = any-or (λ p. p.id == o.id) (λ p. text_eq p.slug o.slug) db.organisations (ground arith)

    own :
        (any (λ n. n.id == m.id) db.memberships ≡ false)
        × (any
              (λ n. n.organisation_id == m.organisation_id && n.user_id == m.user_id)
              db.memberships
            ≡ false)
    own =
        any-or (λ n. n.id == m.id)
          (λ n. n.organisation_id == m.organisation_id && n.user_id == m.user_id) db.memberships
          (ground arith)

-- The row keeps its identifier, and its slug was free.
pub IsValid-put_organisation :
    (o : Organisation) (db : Db)
    → organisation_update_fits db o ≡ true
    → IsValid db
    → IsValid (put_organisation o db)
unfolding put_organisation owners organisation_update_fits
IsValid-put_organisation o db fits v = record {
  membership_ids = v.membership_ids;
  membership_pairs = v.membership_pairs;
  organisation_ids =
      Distinct-rekey (λ p. p.id == o.id) o same_organisation_id db.organisations
        (λ x y h. ground arith) (λ x y h. ground arith) v.organisation_ids;
  organisation_slugs =
      Distinct-put same_slug o (λ p. p.id == o.id) same_organisation_id db.organisations
        (λ x y. text_eq_comm x.slug y.slug) (λ x y hx hy. ground arith) v.organisation_ids
        (ground arith) v.organisation_slugs;
  project_ids = v.project_ids;
  key_ids = v.key_ids;
  key_hashes = v.key_hashes;
  safe_events = v.safe_events;
  owned = All-put db.organisations v.owned;
}
  where
    All-put :
        (ps : List Organisation)
        → All (λ p. 0 < owners p.id db) ps
        → All (λ p. 0 < owners p.id db) (update_rows (λ p. p.id == o.id) (λ _. o) ps)
    All-put [] a = tt
    All-put (p ∷ ps) a = (
      elim (Bool-cases (p.id == o.id)) [
        | inl hit ↦ rw hit (subst (λ i. 0 < owners i db) (ground arith) a.0)
        | inr miss ↦ rw miss a.0
      ],
      All-put ps a.1,
    )
