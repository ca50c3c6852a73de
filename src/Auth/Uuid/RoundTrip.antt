-- ===== src/Auth/Uuid/RoundTrip.antt =====
-- `uuid.UUID(str(u))` is `u`.
use Prim.Native.Nat.{◌*◌, ◌/◌, ◌%◌, ◌^◌}
use mathlib.Core.List.{append_assoc, reverse, reverse-cons, reverse-reverse, append-nil}
use multi_tenant_saas_api.Base.{
  ℕ, zero, suc, ◌+◌, ◌<◌, ◌≡◌, ◌∙◌, refl, sym, ap, subst, Bool, true, not, ◌&&◌, some, [], ◌∷◌,
  ◌++◌, Text, codes, length, ltb, ◌==◌, All, hex, uuid_str, strip_of, strip_left, strip_right,
  arith, if◌then◌else◌, Bool-cases, inl, inr,
}
use multi_tenant_saas_api.Base.Paging.{All-page, All-drop}
use multi_tenant_saas_api.Auth.Uuid.{remove_text, remove_char, parse_hex, bare, uuid_of, is_brace}
use multi_tenant_saas_api.Auth.Uuid.Texts.{
  is_hex, AllHex, All-append, hex-AllHex, sixteens, quotient-lt, group, uuid_str-groups,
  groups-join,
}

parse_hex-digit :
    (x d : ℕ) (rest : Text)
    → d < 16
    → parse_hex x ((if ltb d 10 then 48 + d else 87 + d) ∷ rest) ≡ parse_hex (x * 16 + d) rest
unfolding parse_hex
parse_hex-digit x d rest h = elim (Bool-cases (ltb d 10)) [
  | inl low ↦ rw low (ground arith)
  | inr high ↦ rw high (ground arith)
]

regroup : (m n s : ℕ) → (m * s + n / 16) * 16 + n % 16 ≡ m * (16 * s) + n
regroup m n s = grind arith

-- The digits are read back.
parse_hex-hex :
    (k n m : ℕ) (rest : Text)
    → n < sixteens k
    → parse_hex m (hex k n ++ rest) ≡ parse_hex (m * sixteens k + n) rest
unfolding hex sixteens
parse_hex-hex zero n m rest h = ap (λ x. parse_hex x rest) (omega arith)
parse_hex-hex (suc k) n m rest h =
    ap (parse_hex m) (append_assoc (hex k (n / 16)) _ rest)
    ∙ parse_hex-hex k (n / 16) m _ (quotient-lt k n h)
    ∙ parse_hex-digit (m * sixteens k + n / 16) (n % 16) rest (omega arith)
    ∙ ap (λ x. parse_hex x rest) (regroup m n (sixteens k))

-- Characters that take no part in prefixes or braces.
abbrev plain : ℕ → Bool
plain c = not (c == 117) && not (is_brace c)

abbrev AllPlain : Text → Type 0
AllPlain s = All (λ c. plain c ≡ true) s

-- A text without the first character of another does not contain it.
remove_text-plain : (t s : Text) → AllPlain s → remove_text (length s) (117 ∷ t) s ≡ s
unfolding remove_text
remove_text-plain t [] a = refl
remove_text-plain t (c ∷ s) a = ground (arith, a.0, remove_text-plain t s a.1)

strip_left-plain : (s : Text) → AllPlain s → strip_left is_brace s ≡ s
unfolding strip_left
strip_left-plain [] a = refl
strip_left-plain (c ∷ s) a = ground (arith, a.0)

AllPlain-reverse : (s : Text) → AllPlain s → AllPlain (reverse s)
AllPlain-reverse [] a = tt
AllPlain-reverse (c ∷ s) a =
    rw reverse-cons (All-append _ (reverse s) (c ∷ []) (AllPlain-reverse s a.1) (a.0, tt))

strip_of-plain : (s : Text) → AllPlain s → strip_of is_brace s ≡ s
unfolding strip_of strip_right
strip_of-plain s a =
    rw (strip_left-plain s a, strip_left-plain (reverse s) (AllPlain-reverse s a))
      (reverse-reverse s)

remove_char-append :
    (d : ℕ) (s t : Text) → remove_char d (s ++ t) ≡ remove_char d s ++ remove_char d t
unfolding remove_char
remove_char-append d [] t = refl
remove_char-append d (c ∷ s) t = ground (arith, remove_char-append d s t)

remove_dash-hex : (s : Text) → AllHex s → remove_char b'-' s ≡ s
unfolding remove_char
remove_dash-hex [] a = refl
remove_dash-hex (c ∷ s) a = ground (arith, a.0, remove_dash-hex s a.1)

hex_is_plain : (c : ℕ) → is_hex c ≡ true → plain c ≡ true
hex_is_plain c h = ground arith

AllPlain-hex : (s : Text) → AllHex s → AllPlain s
AllPlain-hex [] a = tt
AllPlain-hex (c ∷ s) a = (hex_is_plain c a.0, AllPlain-hex s a.1)

-- The five groups, with their dashes.
module _ (a b c d e : Text) (ha : AllHex a) (hb : AllHex b) (hc : AllHex c) (hd : AllHex d)
    (he : AllHex e) where
  dashed_is_plain : AllPlain (a ++ b'-' ∷ b ++ b'-' ∷ c ++ b'-' ∷ d ++ b'-' ∷ e)
  dashed_is_plain =
      All-append _ (a ++ b'-' ∷ b ++ b'-' ∷ c ++ b'-' ∷ d) (b'-' ∷ e)
        (All-append _ (a ++ b'-' ∷ b ++ b'-' ∷ c) (b'-' ∷ d)
          (All-append _ (a ++ b'-' ∷ b) (b'-' ∷ c)
            (All-append _ a (b'-' ∷ b) (AllPlain-hex a ha) (refl, AllPlain-hex b hb))
            (refl, AllPlain-hex c hc))
          (refl, AllPlain-hex d hd))
        (refl, AllPlain-hex e he)

  undashed :
      remove_char b'-' (a ++ b'-' ∷ b ++ b'-' ∷ c ++ b'-' ∷ d ++ b'-' ∷ e) ≡ a ++ b ++ c ++ d ++ e
  unfolding remove_char
  undashed =
      rw
        (
          remove_char-append b'-' (a ++ b'-' ∷ b ++ b'-' ∷ c ++ b'-' ∷ d) (b'-' ∷ e),
          remove_char-append b'-' (a ++ b'-' ∷ b ++ b'-' ∷ c) (b'-' ∷ d),
          remove_char-append b'-' (a ++ b'-' ∷ b) (b'-' ∷ c),
          remove_char-append b'-' a (b'-' ∷ b),
          remove_dash-hex a ha,
          remove_dash-hex b hb,
          remove_dash-hex c hc,
          remove_dash-hex d hd,
          remove_dash-hex e he,
        )
        refl

zero_add : (n : ℕ) → 0 + n ≡ n
zero_add n = omega arith

module _ (n : ℕ) where
  digits-AllHex : AllHex (hex 32 n)
  digits-AllHex = hex-AllHex 32 n

  group-AllHex : (at size : ℕ) → AllHex (group at size (hex 32 n))
  group-AllHex at size = All-page _ size at (hex 32 n) digits-AllHex

  pub uuid_str-AllPlain : AllPlain (uuid_str n)
  uuid_str-AllPlain = subst AllPlain (sym (uuid_str-groups n)) (
      dashed_is_plain _ _ _ _ _ (group-AllHex 0 8) (group-AllHex 8 4) (group-AllHex 12 4)
        (group-AllHex 16 4) (All-drop _ 20 (hex 32 n) digits-AllHex))

  bare-uuid_str : bare (uuid_str n) ≡ hex 32 n
  unfolding bare
  bare-uuid_str =
      rw
        (
          remove_text-plain (codes "rn:") (uuid_str n) uuid_str-AllPlain,
          remove_text-plain (codes "uid:") (uuid_str n) uuid_str-AllPlain,
          strip_of-plain (uuid_str n) uuid_str-AllPlain,
          uuid_str-groups n,
          undashed _ _ _ _ _ (group-AllHex 0 8) (group-AllHex 8 4) (group-AllHex 12 4)
              (group-AllHex 16 4) (All-drop _ 20 (hex 32 n) digits-AllHex),
        )
        (groups-join n)

  digits_long : (length (hex 32 n) == 32) ≡ true
  unfolding hex
  digits_long = refl

  -- The identifier that a text of a UUID names is the one that the text was made from.
  pub uuid_of-uuid_str : n < 2 ^ 128 → uuid_of (uuid_str n) ≡ some n
  unfolding uuid_of sixteens parse_hex
  uuid_of-uuid_str h =
      rw (bare-uuid_str, digits_long)
        (ap (parse_hex 0) (sym (append-nil (hex 32 n)))
          ∙ parse_hex-hex 32 n 0 [] h
          ∙ ap some (zero_add n))
