-- ===== src/Base/Counting.antt =====
-- How many rows satisfy a test, before and after a statement on one row.
use Prim.Native.Nat.{◌+◌, ◌≤◌}
use mathlib.Core.Path.{◌≡◌, refl}
use mathlib.Core.Bool.{Bool, true, false, ◌&&◌}
use mathlib.Core.List.{List, [], ◌∷◌, ◌++◌}
use mathlib.Core.Logic.{inl, inr}
use native.Mathlib.Omega.{arith}
use multi_tenant_saas_api.Base.Tests.{Bool-cases}
use multi_tenant_saas_api.Base.Rows.{count, select, length, update_rows, delete_rows, All}

module _ {ℓ} {A : Type ℓ} where
  pub count-append : (r : A → Bool) (xs ys : List A) → count r (xs ++ ys) ≡ count r xs + count r ys
  count-append r [] ys = omega arith
  count-append r (x ∷ xs) ys = ground (arith, count-append r xs ys)

  pub count-and-le : (r q : A → Bool) (xs : List A) → count (λ x. r x && q x) xs ≤ count r xs
  count-and-le r q [] = omega arith
  count-and-le r q (x ∷ xs) = ground (arith, count-and-le r q xs)

  -- `SELECT count(*)` counts the rows that `SELECT` gives.
  pub count-eq-length-select : (r : A → Bool) (xs : List A) → count r xs ≡ length (select r xs)
  count-eq-length-select r [] = refl
  count-eq-length-select r (x ∷ xs) = ground (arith, count-eq-length-select r xs)

module _ {ℓ} {A : Type ℓ} (p r : A → Bool) (old : A) where
  pub count-delete :
      (xs : List A)
      → All (λ x. p x ≡ true → x ≡ old) xs
      → r old ≡ false
      → count r xs ≤ count r (delete_rows p xs)
  count-delete [] a e = omega arith
  count-delete (x ∷ xs) a e = elim (Bool-cases (p x)) [
    | inl hit ↦ rw (hit, a.0 hit, e) (count-delete xs a.1 e)
    | inr miss ↦ rw miss (ground (arith, count-delete xs a.1 e))
  ]

  pub count-update :
      (m : A) (xs : List A)
      → All (λ x. p x ≡ true → x ≡ old) xs
      → (r old ≡ true → r m ≡ true)
      → count r xs ≤ count r (update_rows p (λ _. m) xs)
  count-update m [] a e = omega arith
  count-update m (x ∷ xs) a e = elim (Bool-cases (p x)) [
    | inl hit ↦ rw (hit, a.0 hit) (ground (arith, count-update m xs a.1 e, e))
    | inr miss ↦ rw miss (ground (arith, count-update m xs a.1 e))
  ]
