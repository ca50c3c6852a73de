-- ===== src/Auth/Uuid.antt =====
-- `uuid.UUID(text)`, as services/auth.py reads the subject of a token: prefixes, braces and dashes
-- are removed, and 32 hexadecimal digits must be left. The signs, the underscores and the prefix
-- that `int(text, 16)` would take among the 32 characters are refused.
pub mod Texts
pub mod RoundTrip
use Prim.Native.Nat.{◌*◌}
use multi_tenant_saas_api.Base.{
  ℕ, suc, zero, ◌+◌, ◌-◌, Bool, ◌&&◌, ◌||◌, Option, none, some, [], ◌∷◌, Text, codes, strip_of,
  starts_with, length, drop, leb, ◌==◌, if◌then◌else◌,
}

-- `s.replace(t, "")`, on fuel for the characters.
unfoldable pub remove_text : ℕ → Text → Text → Text
unfolding starts_with
remove_text zero t s = s
remove_text (suc n) t [] = []
remove_text (suc n) t (c ∷ s) =
    let here = remove_text n t (drop (length t) (c ∷ s)) in
    let later = remove_text n t s in if starts_with (c ∷ s) t then here else c ∷ later

unfoldable pub remove_char : ℕ → Text → Text
remove_char d [] = []
remove_char d (c ∷ s) = if c == d then remove_char d s else c ∷ remove_char d s

abbrev hex_value : ℕ → Option ℕ
hex_value c =
    if leb 48 c && leb c 57
    then some (c - 48)
    else if leb 97 c && leb c 102
    then some (c - 87)
    else if leb 65 c && leb c 70
    then some (c - 55)
    else none

abbrev step : Option ℕ → ℕ → Option ℕ
step none n = none
step (some d) n = some (n * 16 + d)

abbrev then_parse : Option ℕ → (ℕ → Option ℕ) → Option ℕ
then_parse none f = none
then_parse (some n) f = f n

-- `int(s, 16)` on what was read already.
unfoldable pub parse_hex : ℕ → Text → Option ℕ
parse_hex n [] = some n
parse_hex n (c ∷ s) = then_parse (step (hex_value c) n) (λ m. parse_hex m s)

abbrev pub is_brace : ℕ → Bool
is_brace c = (c == b'{') || (c == b'}')

unfoldable pub bare : Text → Text
unfolding remove_text remove_char strip_of
bare s =
    let a = remove_text (length s) (codes "urn:") s in
    let b = remove_text (length a) (codes "uuid:") a in remove_char b'-' (strip_of is_brace b)

unfoldable pub uuid_of : Text → Option ℕ
unfolding bare parse_hex
uuid_of s = let digits = bare s in if length digits == 32 then parse_hex 0 digits else none
