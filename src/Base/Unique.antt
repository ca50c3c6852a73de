-- ===== src/Base/Unique.antt =====
-- Unique constraints on a table: no two rows clash. What inserting, updating and deleting keep.
use mathlib.Core.Path.{◌≡◌, refl, ◌∙◌, fun_ext}
use mathlib.Core.Logic.{◌⊎◌, inl, inr}
use mathlib.Core.Bool.{Bool, true, false, not, ◌&&◌, ◌||◌}
use mathlib.Core.List.{List, [], ◌∷◌, ◌++◌}
use mathlib.Core.Option.{some}
use native.Mathlib.Omega.{arith}
use multi_tenant_saas_api.Base.Tests.{if◌then◌else◌, Bool-cases}
use multi_tenant_saas_api.Base.Rows.{any, scalar, update_rows, delete_rows, All}

module _ {ℓ} {A : Type ℓ} where
  pub any-append : (p : A → Bool) (xs ys : List A) → any p (xs ++ ys) ≡ any p xs || any p ys
  any-append p [] ys = refl
  any-append p (x ∷ xs) ys = ground (arith, any-append p xs ys)

  -- A row that a query finds is one of the rows.
  pub any-scalar :
      (p q : A → Bool) (xs : List A) (x : A) → scalar q xs ≡ some x → any p xs ≡ false → p x ≡ false
  any-scalar p q [] x e h = cc
  any-scalar p q (y ∷ xs) x e h = ground (arith, any-scalar p q xs x)

  pub scalar-holds : (q : A → Bool) (xs : List A) (x : A) → scalar q xs ≡ some x → q x ≡ true
  scalar-holds q [] x e = cc
  scalar-holds q (y ∷ xs) x e = ground (arith, scalar-holds q xs x)

  pub any-delete :
      (p q : A → Bool) (xs : List A) → any p xs ≡ false → any p (delete_rows q xs) ≡ false
  any-delete p q [] h = refl
  any-delete p q (x ∷ xs) h = ground (arith, any-delete p q xs)

-- The later rows are held against each row.
abbrev pub Distinct {ℓ} : {A : Type ℓ} → (A → A → Bool) → List A → Type 0
Distinct clash [] = Unit
Distinct clash (x ∷ xs) = (any (λ y. clash y x) xs ≡ false) × Distinct clash xs

module _ {ℓ} {A : Type ℓ} (clash : A → A → Bool) where
  pub Distinct-delete :
      (q : A → Bool) (xs : List A) → Distinct clash xs → Distinct clash (delete_rows q xs)
  Distinct-delete q [] d = tt
  Distinct-delete q (x ∷ xs) d =
      ground (arith, any-delete (λ y. clash y x) q xs d.0, Distinct-delete q xs d.1)

  -- The check of an insertion is enough.
  pub Distinct-add :
      (symmetric : (x y : A) → clash x y ≡ clash y x) (xs : List A) (x : A)
      → Distinct clash xs
      → any (λ y. clash y x) xs ≡ false
      → Distinct clash (xs ++ x ∷ [])
  Distinct-add symmetric [] x d h = (refl, tt)
  Distinct-add symmetric (y ∷ xs) x d h = (
    any-append (λ z. clash z y) xs (x ∷ []) ∙ ground (arith, symmetric x y, d.0),
    Distinct-add symmetric xs x d.1 (ground arith),
  )

  -- Where rows with one identifier clash, the identifier names at most one row.
  pub unique_row :
      (q p : A → Bool) (xs : List A) (old : A)
      → ((x y : A) → p x ≡ true → p y ≡ true → clash x y ≡ true)
      → Distinct clash xs
      → scalar q xs ≡ some old
      → p old ≡ true
      → All (λ x. p x ≡ true → x ≡ old) xs
  unique_row q p [] old same d e h = tt
  unique_row q p (x ∷ xs) old same d e h = elim (Bool-cases (q x)) [
    | inl here ↦ (λ _. ground arith, none_other xs (ground (arith, d.0)))
    | inr later ↦
        (λ px. absurd (clashing px (ground arith)), unique_row q p xs old same d.1 (ground arith) h)
  ]
    where
      none_other :
          (ys : List A) → any (λ y. clash y old) ys ≡ false → All (λ y. p y ≡ true → y ≡ old) ys
      none_other [] n = tt
      none_other (y ∷ ys) n = (λ py. ground (arith, same y old py h), none_other ys (ground arith))

      clashing : p x ≡ true → scalar q xs ≡ some old → ⊥
      clashing px f = ground (arith, same old x h px, any-scalar (λ y. clash y x) q xs old f d.0)

module _ {ℓ} {A : Type ℓ} (p : A → Bool) (old m : A) where
  any-update :
      (r : A → Bool) (xs : List A)
      → All (λ x. p x ≡ true → x ≡ old) xs
      → r m ≡ r old
      → any r (update_rows p (λ _. m) xs) ≡ any r xs
  any-update r [] a e = refl
  any-update r (x ∷ xs) a e = elim (Bool-cases (p x)) [
    | inl hit ↦ rw (hit, a.0 hit, e, any-update r xs a.1 e)
    | inr miss ↦ rw (miss, any-update r xs a.1 e)
  ]

  -- A row that is rewritten with the key that it had clashes with no more than before.
  pub Distinct-update :
      (clash : A → A → Bool) (xs : List A)
      → ((y : A) → clash y m ≡ clash y old)
      → ((y : A) → clash m y ≡ clash old y)
      → All (λ x. p x ≡ true → x ≡ old) xs
      → Distinct clash xs
      → Distinct clash (update_rows p (λ _. m) xs)
  Distinct-update clash [] el er a d = tt
  Distinct-update clash (x ∷ xs) el er a d =
      (head (Bool-cases (p x)), Distinct-update clash xs el er a.1 d.1)
    where
      head :
          (p x ≡ true) ⊎ (p x ≡ false)
          → any (λ y. clash y (if p x then m else x)) (update_rows p (λ _. m) xs) ≡ false
      head (inl hit) =
          rw (hit, fun_ext el, any-update (λ y. clash y old) xs a.1 (er old), ← a.0 hit) d.0
      head (inr miss) = rw (miss, any-update (λ y. clash y x) xs a.1 (er x)) d.0

module _ {ℓ} {A : Type ℓ} (clash : A → A → Bool) (m : A) (p : A → Bool) where
  any-put :
      (r : A → Bool) (xs : List A)
      → r m ≡ false
      → any r xs ≡ false
      → any r (update_rows p (λ _. m) xs) ≡ false
  any-put r [] e h = refl
  any-put r (x ∷ xs) e h = ground (arith, any-put r xs e)

  untouched :
      (xs : List A)
      → any p xs ≡ false
      → any (λ y. not (p y) && clash y m) xs ≡ false
      → any (λ y. clash y m) (update_rows p (λ _. m) xs) ≡ false
  untouched [] n h = refl
  untouched (x ∷ xs) n h = ground (arith, untouched xs)

  -- The check of an update against the rows of other identifiers is enough.
  pub Distinct-put :
      (same : A → A → Bool) (xs : List A)
      → ((x y : A) → clash x y ≡ clash y x)
      → ((x y : A) → p x ≡ true → p y ≡ true → same y x ≡ true)
      → Distinct same xs
      → any (λ y. not (p y) && clash y m) xs ≡ false
      → Distinct clash xs
      → Distinct clash (update_rows p (λ _. m) xs)
  Distinct-put same [] sy ids di h d = tt
  Distinct-put same (x ∷ xs) sy ids di h d =
      (head (Bool-cases (p x)), Distinct-put same xs sy ids di.1 (ground arith) d.1)
    where
      others : p x ≡ true → (ys : List A) → any (λ y. same y x) ys ≡ false → any p ys ≡ false
      others hit [] n = refl
      others hit (y ∷ ys) n = ground (arith, ids x y hit, others hit ys)

      head :
          (p x ≡ true) ⊎ (p x ≡ false)
          → any (λ y. clash y (if p x then m else x)) (update_rows p (λ _. m) xs) ≡ false
      head (inl hit) = rw hit (untouched xs (others hit xs di.0) (ground arith))
      head (inr miss) = rw miss (any-put (λ y. clash y x) xs (ground (arith, sy m x)) d.0)

module _ {ℓ} {A : Type ℓ} (p : A → Bool) (m : A) where
  any-rekey :
      (r : A → Bool) (xs : List A)
      → ((x : A) → p x ≡ true → r m ≡ r x)
      → any r (update_rows p (λ _. m) xs) ≡ any r xs
  any-rekey r [] e = refl
  any-rekey r (x ∷ xs) e = ground (arith, e x, any-rekey r xs e)

  -- Rows that are rewritten with the keys that they had.
  pub Distinct-rekey :
      (clash : A → A → Bool) (xs : List A)
      → ((x y : A) → p x ≡ true → clash y m ≡ clash y x)
      → ((x y : A) → p x ≡ true → clash m y ≡ clash x y)
      → Distinct clash xs
      → Distinct clash (update_rows p (λ _. m) xs)
  Distinct-rekey clash [] el er d = tt
  Distinct-rekey clash (x ∷ xs) el er d =
      (head (Bool-cases (p x)), Distinct-rekey clash xs el er d.1)
    where
      head :
          (p x ≡ true) ⊎ (p x ≡ false)
          → any (λ y. clash y (if p x then m else x)) (update_rows p (λ _. m) xs) ≡ false
      head (inl hit) =
          rw (hit, fun_ext (λ y. el x y hit), any-rekey (λ y. clash y x) xs (λ z hz. er z x hz)) d.0
      head (inr miss) = rw (miss, any-rekey (λ y. clash y x) xs (λ z hz. er z x hz)) d.0
