-- ===== src/Base/Characters.antt =====
-- Python strings as lists of code points: equality, `strip`, `lower`, `replace`, `endswith`.
use Prim.Native.Nat.{ℕ, zero, suc, ◌+◌, ◌/◌, ◌%◌}
use Prim.Native.Char.{code}
use Prim.Native.String.{String}
use mathlib.Core.Path.{◌≡◌, refl}
use mathlib.Core.Logic.{◌↔◌}
use mathlib.Core.Bool.{Bool, true, false, ◌&&◌, ◌||◌}
use mathlib.Core.List.{List, [], ◌∷◌, ◌++◌, map, reverse}
use native.Mathlib.Omega.{arith}
use multi_tenant_saas_api.Base.Tests.{ltb, leb, ◌==◌, if◌then◌else◌}
use multi_tenant_saas_api.Base.Rows.{take, drop}

abbrev pub Text : Type 0
Text = List ℕ

abbrev pub codes : String → Text
codes String.[] = []
codes (String.◌∷◌ c s) = code c ∷ codes s

unfoldable pub text_eq : Text → Text → Bool
text_eq [] [] = true
text_eq [] (d ∷ t) = false
text_eq (c ∷ s) [] = false
text_eq (c ∷ s) (d ∷ t) = (c == d) && text_eq s t

-- The characters that `str.strip()` removes.
unfoldable pub is_space : ℕ → Bool
is_space c =
    (leb 9 c && leb c 13)
    || (leb 28 c && leb c 32)
    || (c == 133)
    || (c == 160)
    || (c == 5760)
    || (leb 8192 c && leb c 8202)
    || (c == 8232)
    || (c == 8233)
    || (c == 8239)
    || (c == 8287)
    || (c == 12288)

unfoldable pub strip_left : (ℕ → Bool) → Text → Text
strip_left p [] = []
strip_left p (c ∷ s) = if p c then strip_left p s else c ∷ s

unfoldable pub strip_right : (ℕ → Bool) → Text → Text
unfolding strip_left
strip_right p s = reverse (strip_left p (reverse s))

unfoldable pub strip_of : (ℕ → Bool) → Text → Text
unfolding strip_left strip_right
strip_of p s = strip_right p (strip_left p s)

-- `s.strip()`
unfoldable pub strip : Text → Text
unfolding strip_of is_space
strip s = strip_of is_space s

-- One character's lower case: the letters of ASCII, and the two others (U+0130, U+212A) whose lower
-- case has a letter of ASCII. The rest is left as it is.
unfoldable pub lower_char : ℕ → Text
lower_char c =
    if leb 65 c && leb c 90
    then (c + 32) ∷ []
    else if c == 304
    then 105 ∷ 775 ∷ []
    else if c == 8490
    then 107 ∷ []
    else c ∷ []

-- `s.lower()`
unfoldable pub lower : Text → Text
unfolding lower_char
lower [] = []
lower (c ∷ s) = lower_char c ++ lower s

-- `s.replace(a, b)` for two characters.
unfoldable pub replace_char : ℕ → ℕ → Text → Text
replace_char a b s = map (λ c. if c == a then b else c) s

unfoldable pub starts_with : Text → Text → Bool
starts_with s [] = true
starts_with [] (d ∷ t) = false
starts_with (c ∷ s) (d ∷ t) = (c == d) && starts_with s t

-- `s.endswith(t)`
unfoldable pub ends_with : Text → Text → Bool
unfolding starts_with
ends_with s t = starts_with (reverse s) (reverse t)

abbrev hex_digit : ℕ → ℕ
hex_digit d = if ltb d 10 then 48 + d else 87 + d

-- `'%0kx' % n`, the last `k` digits.
unfoldable pub hex : ℕ → ℕ → Text
hex zero n = []
hex (suc k) n = hex k (n / 16) ++ hex_digit (n % 16) ∷ []

abbrev dashed : Text → Text
dashed h =
    take 8 h
    ++ b'-' ∷ take 4 (drop 8 h)
    ++ b'-' ∷ take 4 (drop 12 h)
    ++ b'-' ∷ take 4 (drop 16 h)
    ++ b'-' ∷ drop 20 h

-- `str(uuid)`, for a UUID as its 128-bit number.
unfoldable pub uuid_str : ℕ → Text
unfolding hex
uuid_str n = dashed (hex 32 n)

pub text_eq_refl : (s : Text) → text_eq s s ≡ true
unfolding text_eq
text_eq_refl [] = refl
text_eq_refl (c ∷ s) = ground (arith, text_eq_refl s)

pub text_eq_iff : (s t : Text) → (text_eq s t ≡ true) ↔ (s ≡ t)
unfolding text_eq
text_eq_iff [] [] = (λ h. refl, λ h. refl)
text_eq_iff [] (d ∷ t) = (λ h. cc, λ h. cc)
text_eq_iff (c ∷ s) [] = (λ h. cc, λ h. cc)
text_eq_iff (c ∷ s) (d ∷ t) =
    (λ h. ground (arith, text_eq_iff s t), λ h. ground (arith, text_eq_iff s t))
