-- ===== src/Server/Isolation.antt =====
-- HTTP requests keep to the organisations that they name.
pub mod Requests
use multi_tenant_saas_api.Base.{ℕ, ◌≡◌, ◌∙◌, inl, inr, refl, sym, subst, true, Option, any}
use multi_tenant_saas_api.Database.{Db, IdempotencyRecord}
use multi_tenant_saas_api.Repositories.IdempotencyRecords.{add_idempotency_record}
use multi_tenant_saas_api.Invariants.{IsValid}
use multi_tenant_saas_api.Tenancy.{row, SameTenant, elsewhere, Accounted}
use multi_tenant_saas_api.Tenancy.Writes.{SameTenant-refl, SameTenant-then}
use multi_tenant_saas_api.Base.Selecting.{any-of-select}
use multi_tenant_saas_api.Server.Tracking.{Follows}
use multi_tenant_saas_api.Server.Validity.{IsValid-add_idempotency_record}

-- Since a database `base`, every row of an organisation that it has is as it was.
pub record Apart (o : ℕ) (base db : Db) : Type 0 where
  pub valid : IsValid db
  pub same : SameTenant o base db
  pub known : any (row o) db.organisations ≡ true

SameTenant-add_idempotency_record :
    (o : ℕ) (r : IdempotencyRecord) (db : Db) → SameTenant o db (add_idempotency_record r db)
unfolding add_idempotency_record
SameTenant-add_idempotency_record o r db = record {
  organisations = refl;
  memberships = refl;
  projects = refl;
  api_keys = refl;
  events = refl;
}

module _ (o : ℕ) (base : Db) where
  pub further :
      {db after : Db} → Apart o base db → SameTenant o db after → IsValid after → Apart o base after
  further {db} {after} h step v = record {
    valid = v;
    same = SameTenant-then h.same step;
    known = any-of-select (row o) db.organisations after.organisations step.organisations ∙ h.known;
  }

  SameTenant-Accounted :
      {user key target : Option ℕ} {db after : Db}
      → Apart o base db
      → elsewhere target o ≡ true
      → Accounted user key target db after
      → SameTenant o db after
  SameTenant-Accounted {db = db} h away (inl e) =
      subst (SameTenant o db) (sym e) (SameTenant-refl o db)
  SameTenant-Accounted h away (inr c) = c.isolated o h.known away

  pub follows : Follows (Apart o base) (Apart o base) (λ target. elsewhere target o ≡ true)
  follows = record {
    widens = λ db h. h;
    valid = λ db h. h.valid;
    follow = λ h actor away accounted v. further h (SameTenant-Accounted h away accounted) v;
    store = λ r db h.
        further h (SameTenant-add_idempotency_record o r db)
          (IsValid-add_idempotency_record r db h.valid);
  }
