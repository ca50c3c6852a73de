-- ===== src/Json/Dumps.antt =====
-- `json.dumps(body, ensure_ascii=False, separators=(",", ":"), sort_keys=True)`.
pub mod Order
use Prim.Native.Nat.{◌/◌, ◌%◌}
use multi_tenant_saas_api.Base.{
  ℕ, suc, zero, ◌+◌, Bool, true, false, List, [], ◌∷◌, ◌++◌, Text, codes, ltb, ◌==◌, order_by, hex,
  if◌then◌else◌,
}
use multi_tenant_saas_api.Json.{
  Json, null, bool, num, str, arr, obj, Items, nil, item, Fields, end, field,
}

-- The decimal digits, on fuel: a number has fewer digits than its successor.
unfoldable pub decimal : ℕ → ℕ → Text
decimal zero n = []
decimal (suc k) n =
    let rest = decimal k (n / 10) in if ltb n 10 then (48 + n) ∷ [] else rest ++ (48 + n % 10) ∷ []

abbrev escaped : ℕ → Text
escaped c =
    if c == 34
    then 92 ∷ 34 ∷ []
    else if c == 92
    then 92 ∷ 92 ∷ []
    else if c == 10
    then codes "\\n"
    else if c == 13
    then codes "\\r"
    else if c == 9
    then codes "\\t"
    else if c == 12
    then codes "\\f"
    else if c == 8
    then codes "\\b"
    else if ltb c 32
    then codes "\\u" ++ hex 4 c
    else c ∷ []

unfoldable escape : Text → Text
unfolding hex
escape [] = []
escape (c ∷ s) = escaped c ++ escape s

abbrev quoted : Text → Text
quoted s = 34 ∷ escape s ++ 34 ∷ []

-- Python's order of texts, by code points.
unfoldable pub at_most : Text → Text → Bool
at_most [] t = true
at_most (c ∷ s) [] = false
at_most (c ∷ s) (d ∷ t) = if ltb c d then true else if c == d then at_most s t else false

abbrev pub key_at_most : Text × Text → Text × Text → Bool
key_at_most p q = at_most p.0 q.0

unfoldable pub joined : List Text → Text
joined [] = []
joined (t ∷ []) = t
joined (t ∷ u ∷ ts) = t ++ b',' ∷ joined (u ∷ ts)

unfoldable pub members : List (Text × Text) → List Text
unfolding escape
members [] = []
members (p ∷ ps) = (quoted p.0 ++ b':' ∷ p.1) ∷ members ps

unfoldable mutual
  unfolding decimal escape at_most joined members

  pub dumps : Json → Text
  dumps null = codes "null"
  dumps (bool b) = if b then codes "true" else codes "false"
  dumps (num n) = decimal (suc n) n
  dumps (str s) = quoted s
  dumps (arr xs) = b'[' ∷ joined (dump_items xs) ++ b']' ∷ []
  dumps (obj fs) = b'{' ∷ joined (members (order_by key_at_most (dump_fields fs))) ++ b'}' ∷ []

  pub dump_items : Items → List Text
  dump_items nil = []
  dump_items (item x xs) = dumps x ∷ dump_items xs

  pub dump_fields : Fields → List (Text × Text)
  dump_fields end = []
  dump_fields (field k v fs) = (k, dumps v) ∷ dump_fields fs
