-- ===== src/Auth/Uuid/Texts.antt =====
-- The text of a UUID: 32 lower-case hexadecimal digits in five groups.
use Prim.Native.Nat.{◌*◌, ◌/◌}
use multi_tenant_saas_api.Base.{
  ℕ, zero, suc, ◌<◌, ◌≡◌, refl, Bool, true, ◌&&◌, ◌||◌, List, [], ◌∷◌, ◌++◌, Text, take, drop, leb,
  All, hex, uuid_str, arith,
}

-- A lower-case hexadecimal digit.
abbrev pub is_hex : ℕ → Bool
is_hex c = (leb 48 c && leb c 57) || (leb 97 c && leb c 102)

abbrev pub AllHex : Text → Type 0
AllHex s = All (λ c. is_hex c ≡ true) s

pub All-append {ℓ κ} :
    {A : Type ℓ} (P : A → Type κ) (xs ys : List A) → All P xs → All P ys → All P (xs ++ ys)
All-append P [] ys a b = b
All-append P (x ∷ xs) ys a b = (a.0, All-append P xs ys a.1 b)

pub hex-AllHex : (k n : ℕ) → AllHex (hex k n)
unfolding hex
hex-AllHex zero n = tt
hex-AllHex (suc k) n = All-append _ (hex k (n / 16)) _ (hex-AllHex k (n / 16)) (ground arith, tt)

-- 16 to a power.
unfoldable pub sixteens : ℕ → ℕ
sixteens zero = 1
sixteens (suc k) = 16 * sixteens k

pub quotient-lt : (k n : ℕ) → n < sixteens (suc k) → n / 16 < sixteens k
unfolding sixteens
quotient-lt k n h = omega arith

-- The groups, with dashes between.
abbrev pub group : ℕ → ℕ → Text → Text
group at size s = take size (drop at s)

pub uuid_str-groups :
    (n : ℕ)
    → uuid_str n
      ≡ group 0 8 (hex 32 n)
        ++ b'-' ∷ group 8 4 (hex 32 n)
        ++ b'-' ∷ group 12 4 (hex 32 n)
        ++ b'-' ∷ group 16 4 (hex 32 n)
        ++ b'-' ∷ drop 20 (hex 32 n)
unfolding uuid_str
uuid_str-groups n = refl

pub groups-join :
    (n : ℕ)
    → group 0 8 (hex 32 n)
        ++ group 8 4 (hex 32 n)
        ++ group 12 4 (hex 32 n)
        ++ group 16 4 (hex 32 n)
        ++ drop 20 (hex 32 n)
      ≡ hex 32 n
unfolding hex
groups-join n = refl
