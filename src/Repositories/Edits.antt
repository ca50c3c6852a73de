-- ===== src/Repositories/Edits.antt =====
-- repositories/projects.py and organisations.py: what `update` leaves in the fields that it may set.
use multi_tenant_saas_api.Base.{
  ℕ, ◌≡◌, refl, sym, ap, subst, true, Option, none, some, Text, text_eq_iff, arith, ==_iff,
}
use multi_tenant_saas_api.Domain.{ProjectStatus, status_eq}
use multi_tenant_saas_api.Database.{Project}
use multi_tenant_saas_api.Repositories.Projects.{
  Update, unset, set_to, given, given_update, given_user, description_eq, user_eq, same_fields,
  edited,
}

-- The value asked for, or the old one where none is.
abbrev pub IsGiven : {A : Type 0} → Option A → A → A → Type 0
IsGiven none old new = new ≡ old
IsGiven (some a) old new = new ≡ a

-- The same for a field that may be set to no value.
abbrev pub IsUpdated : {A : Type 0} → Update A → A → A → Type 0
IsUpdated unset old new = new ≡ old
IsUpdated (set_to a) old new = new ≡ a

-- A known user is the last to have written; without one, the earlier entry stays.
abbrev pub IsWriter : Option ℕ → Option ℕ → Option ℕ → Type 0
IsWriter none old new = new ≡ old
IsWriter (some u) old new = new ≡ some u

-- The row `new` is `old` with the changes asked for.
pub record AsAsked (name : Option Text) (d : Update (Option Text)) (st : Option ProjectStatus)
    (u : Option ℕ) (old new : Project) : Type 0 where
  pub has_name : IsGiven name old.name new.name
  pub has_description : IsUpdated d old.description new.description
  pub has_status : IsGiven st old.status new.status
  pub has_writer : IsWriter u old.updated_by_user_id new.updated_by_user_id

given_lem : {A : Type 0} (a : Option A) (old : A) → IsGiven a old (given a old)
given_lem none old = refl
given_lem (some a) old = refl

given_update_lem : {A : Type 0} (a : Update A) (old : A) → IsUpdated a old (given_update a old)
given_update_lem unset old = refl
given_update_lem (set_to a) old = refl

given_user_lem : (u old : Option ℕ) → IsWriter u old (given_user u old)
given_user_lem none old = refl
given_user_lem (some u) old = refl

description_eq-eq : (a b : Option Text) → description_eq a b ≡ true → a ≡ b
description_eq-eq none none h = refl
description_eq-eq none (some t) h = cc
description_eq-eq (some s) none h = cc
description_eq-eq (some s) (some t) h = ap some ((text_eq_iff s t).0 h)

user_eq-eq : (a b : Option ℕ) → user_eq a b ≡ true → a ≡ b
user_eq-eq none none h = refl
user_eq-eq none (some t) h = cc
user_eq-eq (some s) none h = cc
user_eq-eq (some s) (some t) h = ap some ((==_iff s t).0 h)

status_eq-eq : (a b : ProjectStatus) → status_eq a b ≡ true → a ≡ b
status_eq-eq ProjectStatus.active ProjectStatus.active h = refl
status_eq-eq ProjectStatus.active ProjectStatus.archived h = cc
status_eq-eq ProjectStatus.archived ProjectStatus.active h = cc
status_eq-eq ProjectStatus.archived ProjectStatus.archived h = refl

module _ (name : Option Text) (d : Update (Option Text)) (st : Option ProjectStatus) (u : Option ℕ)
    (old : Project) where
  -- The attributes that `update` assigns.
  pub edited-AsAsked : AsAsked name d st u old (edited old name d st u)
  unfolding edited
  edited-AsAsked = record {
    has_name = given_lem name old.name;
    has_description = given_update_lem d old.description;
    has_status = given_lem st old.status;
    has_writer = given_user_lem u old.updated_by_user_id;
  }

  -- Where they are those that the row has, the row is as asked.
  pub same_fields-AsAsked :
      (new : Project)
      → AsAsked name d st u old new
      → same_fields old new ≡ true
      → AsAsked name d st u old old
  same_fields-AsAsked new a same = record {
    has_name =
        subst (IsGiven name old.name) (sym ((text_eq_iff old.name new.name).0 (ground arith)))
          a.has_name;
    has_description =
        subst (IsUpdated d old.description)
          (sym (description_eq-eq old.description new.description (ground arith)))
          a.has_description;
    has_status =
        subst (IsGiven st old.status) (sym (status_eq-eq old.status new.status (ground arith)))
          a.has_status;
    has_writer =
        subst (IsWriter u old.updated_by_user_id)
          (sym (user_eq-eq old.updated_by_user_id new.updated_by_user_id (ground arith)))
          a.has_writer;
  }
