-- ===== src/Base/Selecting.antt =====
-- A query's rows, after a statement on rows that the query does not select.
use mathlib.Core.Path.{◌≡◌, ◌∙◌, refl, sym, ap}
use mathlib.Core.Bool.{Bool, true, false}
use mathlib.Core.List.{List, [], ◌∷◌, ◌++◌}
use mathlib.Core.Logic.{inl, inr}
use native.Mathlib.Omega.{arith}
use multi_tenant_saas_api.Base.Tests.{Bool-cases}
use multi_tenant_saas_api.Base.Rows.{any, select, update_rows, delete_rows, All}

abbrev nonempty {ℓ} : {A : Type ℓ} → List A → Bool
nonempty [] = false
nonempty (x ∷ xs) = true

module _ {ℓ} {A : Type ℓ} (p : A → Bool) where
  nonempty-select : (xs : List A) → any p xs ≡ nonempty (select p xs)
  nonempty-select [] = refl
  nonempty-select (x ∷ xs) = elim (Bool-cases (p x)) [
    | inl hit ↦ rw hit refl
    | inr miss ↦ rw miss (nonempty-select xs)
  ]

  pub any-of-select : (xs ys : List A) → select p ys ≡ select p xs → any p ys ≡ any p xs
  any-of-select xs ys e = nonempty-select ys ∙ ap nonempty e ∙ sym (nonempty-select xs)

module _ {ℓ} {A : Type ℓ} (r : A → Bool) where
  pub select-add : (xs : List A) (x : A) → r x ≡ false → select r (xs ++ x ∷ []) ≡ select r xs
  select-add [] x e = ground arith
  select-add (y ∷ xs) x e = ground (arith, select-add xs x e)

module _ {ℓ} {A : Type ℓ} (p r : A → Bool) (old : A) where
  pub select-delete :
      (xs : List A)
      → All (λ x. p x ≡ true → x ≡ old) xs
      → r old ≡ false
      → select r (delete_rows p xs) ≡ select r xs
  select-delete [] a e = refl
  select-delete (x ∷ xs) a e = elim (Bool-cases (p x)) [
    | inl hit ↦ rw (hit, a.0 hit, e) (select-delete xs a.1 e)
    | inr miss ↦ rw (miss, select-delete xs a.1 e)
  ]

  pub select-update :
      (m : A) (xs : List A)
      → All (λ x. p x ≡ true → x ≡ old) xs
      → r old ≡ false
      → r m ≡ false
      → select r (update_rows p (λ _. m) xs) ≡ select r xs
  select-update m [] a e f = refl
  select-update m (x ∷ xs) a e f = elim (Bool-cases (p x)) [
    | inl hit ↦ rw (hit, a.0 hit, e, f) (select-update m xs a.1 e f)
    | inr miss ↦ rw (miss, select-update m xs a.1 e f)
  ]
