-- ===== src/Json/Dumps/Order.antt =====
-- `sort_keys=True`: the order in which a body lists its fields does not show in the dump.
use multi_tenant_saas_api.Base.{
  ◌≡◌, ◌∙◌, ◌⊎◌, inl, inr, refl, sym, ap, true, false, List, [], ◌∷◌, ◌++◌, Text, text_eq,
  insert_sorted, order_by, arith,
}
use multi_tenant_saas_api.Json.{Json, obj, Fields, field}
use multi_tenant_saas_api.Json.Dumps.{at_most, key_at_most, dumps, dump_fields, members, joined}

-- The same fields in another order; no two neighbours that change places have one key.
pub data Reordered : Fields → Fields → Type 0 where
  same : (fs : Fields) → Reordered fs fs
  skip :
      (k : Text) (v : Json) {fs gs : Fields}
      → Reordered fs gs
      → Reordered (field k v fs) (field k v gs)
  swap :
      (k j : Text) (v w : Json) (fs : Fields)
      → text_eq k j ≡ false
      → Reordered (field k v (field j w fs)) (field j w (field k v fs))
  then_reordered : {fs gs hs : Fields} → Reordered fs gs → Reordered gs hs → Reordered fs hs

at_most_trans : (a b c : Text) → at_most a b ≡ true → at_most b c ≡ true → at_most a c ≡ true
unfolding at_most
at_most_trans [] b c p q = refl
at_most_trans (x ∷ a) [] c p q = absurd (cc)
at_most_trans (x ∷ a) (y ∷ b) [] p q = absurd (cc)
at_most_trans (x ∷ a) (y ∷ b) (z ∷ c) p q = ground (arith, at_most_trans a b c)

-- Of two distinct texts just one is at most the other.
at_most_distinct :
    (a b : Text)
    → text_eq a b ≡ false
    → ((at_most a b ≡ true) × (at_most b a ≡ false))
      ⊎ ((at_most a b ≡ false) × (at_most b a ≡ true))
unfolding at_most text_eq
at_most_distinct [] [] d = absurd (cc)
at_most_distinct [] (y ∷ b) d = inl (refl, refl)
at_most_distinct (x ∷ a) [] d = inr (refl, refl)
at_most_distinct (x ∷ a) (y ∷ b) d = ground (arith, at_most_distinct a b)

-- Two insertions commute.
insert_comm :
    (p q : Text × Text) (l : List (Text × Text))
    → at_most p.0 q.0 ≡ true
    → at_most q.0 p.0 ≡ false
    → insert_sorted key_at_most p (insert_sorted key_at_most q l)
      ≡ insert_sorted key_at_most q (insert_sorted key_at_most p l)
insert_comm p q [] h k = ground arith
insert_comm p q (r ∷ l) h k = ground (arith, at_most_trans p.0 q.0 r.0, insert_comm p q l h k)

sorted-Reordered :
    {fs gs : Fields}
    → Reordered fs gs
    → order_by key_at_most (dump_fields fs) ≡ order_by key_at_most (dump_fields gs)
unfolding dumps
sorted-Reordered (same fs) = refl
sorted-Reordered (skip k v r) = ap (insert_sorted key_at_most (k, dumps v)) (sorted-Reordered r)
sorted-Reordered (swap k j v w fs d) =
    let rest = order_by key_at_most (dump_fields fs) in
    elim (at_most_distinct k j d) [
      | inl h ↦ insert_comm (k, dumps v) (j, dumps w) rest h.0 h.1
      | inr h ↦ sym (insert_comm (j, dumps w) (k, dumps v) rest h.1 h.0)
    ]
sorted-Reordered (then_reordered r s) = sorted-Reordered r ∙ sorted-Reordered s

pub dumps-Reordered : {fs gs : Fields} → Reordered fs gs → dumps (obj fs) ≡ dumps (obj gs)
unfolding dumps
dumps-Reordered r = ap (λ ps. b'{' ∷ joined (members ps) ++ b'}' ∷ []) (sorted-Reordered r)
