-- ===== src/OrganisationService/Slug/Shape.antt =====
-- The derived slug has the form that schemas/organisations.py asks of a given one.
use multi_tenant_saas_api.Base.{
  ℕ, suc, zero, ◌≤◌, ◌≡◌, ◌∙◌, inl, inr, refl, sym, ap, Bool, true, false, not, ◌&&◌, [], ◌∷◌, ◌++◌,
  Text, codes, strip, strip_of, strip_left, strip_right, lower, length, take, ltb, if◌then◌else◌,
  arith, Bool-cases,
}
use mathlib.Core.List.{reverse, reverse-cons, reverse-append}
use multi_tenant_saas_api.OrganisationService.Slug.{
  is_slug_char, is_dash, collapse, lengthen, or_default, slug_from_name,
}

-- The pattern `^[a-z0-9]+(?:-[a-z0-9]+)*$`, read from the left: whether a letter or a digit must
-- come next.
abbrev shaped : Bool → Text → Bool
shaped must [] = not must
shaped must (c ∷ s) =
    if is_slug_char c then shaped false s else is_dash c && not must && shaped true s

abbrev pub is_slug : Text → Bool
is_slug s = shaped true s

-- The same without the condition on the end.
abbrev single_dashes : Bool → Text → Bool
single_dashes must [] = true
single_dashes must (c ∷ s) =
    if is_slug_char c then single_dashes false s else is_dash c && not must && single_dashes true s

-- Empty, or of the shape.
abbrev closed : Bool → Text → Bool
closed must [] = true
closed must (c ∷ s) = shaped must (c ∷ s)

single_dashes-collapse : (b : Bool) (s : Text) → single_dashes b (collapse b s) ≡ true
unfolding collapse
single_dashes-collapse b [] = refl
single_dashes-collapse true (c ∷ s) = elim (Bool-cases (is_slug_char c)) [
  | inl h ↦ rw (h, h) (single_dashes-collapse false s)
  | inr h ↦ rw h (single_dashes-collapse true s)
]
single_dashes-collapse false (c ∷ s) = elim (Bool-cases (is_slug_char c)) [
  | inl h ↦ rw (h, h) (single_dashes-collapse false s)
  | inr h ↦ rw h (single_dashes-collapse true s)
]

single_dashes-strip_left :
    (b : Bool) (s : Text)
    → single_dashes b s ≡ true
    → single_dashes true (strip_left is_dash s) ≡ true
unfolding strip_left
single_dashes-strip_left b [] h = refl
single_dashes-strip_left b (c ∷ s) h = elim (Bool-cases (is_dash c)) [
  | inl d ↦ rw d (single_dashes-strip_left true s (ground arith))
  | inr d ↦ rw d (ground arith)
]

single_dashes-take :
    (n : ℕ) (b : Bool) (s : Text) → single_dashes b s ≡ true → single_dashes b (take n s) ≡ true
single_dashes-take zero b s h = refl
single_dashes-take (suc n) b [] h = refl
single_dashes-take (suc n) b (c ∷ s) h =
    ground (arith, single_dashes-take n false s, single_dashes-take n true s)

single_dashes-of-shaped : (b : Bool) (s : Text) → shaped b s ≡ true → single_dashes b s ≡ true
single_dashes-of-shaped b [] h = refl
single_dashes-of-shaped b (c ∷ s) h =
    ground (arith, single_dashes-of-shaped false s, single_dashes-of-shaped true s)

shaped-suffix : (b : Bool) (s : Text) → shaped b s ≡ true → shaped b (s ++ codes "-org") ≡ true
shaped-suffix true [] h = cc
shaped-suffix false [] h = refl
shaped-suffix b (c ∷ s) h = ground (arith, shaped-suffix false s, shaped-suffix true s)

-- What `strip` leaves at the right of a text that a character is put before.
abbrev join : ℕ → Text → Text
join c [] = if is_dash c then [] else c ∷ []
join c (d ∷ t) = c ∷ d ∷ t

join-snoc : (c : ℕ) (s : Text) (d : ℕ) → join c (s ++ d ∷ []) ≡ c ∷ (s ++ d ∷ [])
join-snoc c [] d = refl
join-snoc c (e ∷ s) d = refl

reverse-snoc : (x : ℕ) (xs : Text) (c : ℕ) → reverse (x ∷ xs ++ c ∷ []) ≡ join c (reverse (x ∷ xs))
reverse-snoc x xs c =
    reverse-append (x ∷ xs) (c ∷ [])
    ∙ ap (λ t. c ∷ t) (reverse-cons x xs)
    ∙ sym (ap (join c) (reverse-cons x xs) ∙ join-snoc c (reverse xs) x)

strip_left-snoc :
    (xs : Text) (c : ℕ)
    → reverse (strip_left is_dash (xs ++ c ∷ [])) ≡ join c (reverse (strip_left is_dash xs))
unfolding strip_left
strip_left-snoc [] c = elim (Bool-cases (is_dash c)) [ inl d ↦ rw d refl | inr d ↦ rw d refl ]
strip_left-snoc (x ∷ xs) c = elim (Bool-cases (is_dash x)) [
  | inl d ↦ rw d (strip_left-snoc xs c)
  | inr d ↦ rw d (reverse-snoc x xs c)
]

strip_right-cons : (c : ℕ) (s : Text) → strip_right is_dash (c ∷ s) ≡ join c (strip_right is_dash s)
unfolding strip_right
strip_right-cons c s = rw (reverse-cons c s) (strip_left-snoc (reverse s) c)

closed-join :
    (b : Bool) (c : ℕ) (s t : Text)
    → single_dashes b (c ∷ s) ≡ true
    → (single_dashes false s ≡ true → closed false t ≡ true)
    → (single_dashes true s ≡ true → closed true t ≡ true)
    → closed b (join c t) ≡ true
closed-join b c s [] h f g = ground arith
closed-join b c s (d ∷ t) h f g = ground arith

closed-strip_right :
    (b : Bool) (s : Text) → single_dashes b s ≡ true → closed b (strip_right is_dash s) ≡ true
unfolding strip_right strip_left
closed-strip_right b [] h = refl
closed-strip_right b (c ∷ s) h = rw (strip_right-cons c s) (
    closed-join b c s (strip_right is_dash s) h (closed-strip_right false s)
      (closed-strip_right true s))

-- Stripping makes no text longer.
length-strip_left : (s : Text) → length (strip_left is_dash s) ≤ length s
unfolding strip_left
length-strip_left [] = omega arith
length-strip_left (c ∷ s) = ground (arith, length-strip_left s)

length-strip_right : (s : Text) → length (strip_right is_dash s) ≤ length s
unfolding strip_right strip_left
length-strip_right [] = omega arith
length-strip_right (c ∷ s) =
    rw (strip_right-cons c s) (shorter (strip_right is_dash s) (length-strip_right s))
  where
    shorter : (t : Text) → length t ≤ length s → length (join c t) ≤ suc (length s)
    shorter [] h = ground arith
    shorter (d ∷ t) h = ground arith

length-take : (n : ℕ) (s : Text) → length (take n s) ≤ n
length-take zero s = omega arith
length-take (suc n) [] = omega arith
length-take (suc n) (c ∷ s) = omega (arith, length-take n s)

-- What is kept of any text with single dashes.
kept : Text → Text
kept s = strip_of is_dash (take 80 s)

kept-closed : (s : Text) → single_dashes true s ≡ true → closed true (kept s) ≡ true
unfolding kept strip_of
kept-closed s h =
    closed-strip_right true (strip_left is_dash (take 80 s))
      (single_dashes-strip_left true (take 80 s) (single_dashes-take 80 true s h))

length-kept : (s : Text) → length (kept s) ≤ 80
unfolding kept strip_of
length-kept s = omega (
  arith,
  length-take 80 s,
  length-strip_left (take 80 s),
  length-strip_right (strip_left is_dash (take 80 s)),
)

lengthened : (s : Text) → closed true s ≡ true → single_dashes true (lengthen s) ≡ true
lengthened [] h = refl
lengthened (c ∷ s) h = elim (Bool-cases (ltb (length (c ∷ s)) 3)) [
  | inl short ↦
      rw short (single_dashes-of-shaped true (c ∷ s ++ codes "-org") (shaped-suffix true (c ∷ s) h))
  | inr long ↦ rw long (single_dashes-of-shaped true (c ∷ s) h)
]

defaulted :
    (s : Text)
    → closed true s ≡ true
    → length s ≤ 80
    → (is_slug (or_default s) ≡ true) × (3 ≤ length (or_default s)) × (length (or_default s) ≤ 80)
defaulted [] h n = (refl, omega arith, omega arith)
defaulted (c ∷ s) h n = elim (Bool-cases (ltb (length (c ∷ s)) 3)) [
  | inl short ↦ rw short (refl, omega arith, omega arith)
  | inr long ↦ rw long (h, ground (arith, long), n)
]

-- The slug that is made from any name has the pattern and the length that the API asks of a slug.
pub slug_from_name-is_slug :
    (name : Text)
    → (is_slug (slug_from_name name) ≡ true)
      × (3 ≤ length (slug_from_name name))
      × (length (slug_from_name name) ≤ 80)
unfolding slug_from_name kept strip_of
slug_from_name-is_slug name =
    let s : Text = collapse false (lower (strip name)) in
    let t : Text = lengthen (strip_of is_dash s) in
    defaulted (kept t)
      (kept-closed t (
        lengthened (strip_of is_dash s) (
          closed-strip_right true (strip_left is_dash s) (
            single_dashes-strip_left false s (single_dashes-collapse false (lower (strip name)))))))
      (length-kept t)
