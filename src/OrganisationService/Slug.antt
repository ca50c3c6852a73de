-- ===== src/OrganisationService/Slug.antt =====
-- services/organisations.py: the slug that is made from an organisation's name.
pub mod Shape
use multi_tenant_saas_api.Base.{
  ℕ, ◌+◌, Bool, true, false, not, ◌&&◌, ◌||◌, List, [], ◌∷◌, ◌++◌, Text, codes, strip, strip_of,
  lower, length, take, leb, ltb, ◌==◌, if◌then◌else◌,
}

abbrev pub is_slug_char : ℕ → Bool
is_slug_char c = (leb b'a' c && leb c b'z') || (leb b'0' c && leb c b'9')

abbrev pub is_dash : ℕ → Bool
is_dash c = c == b'-'

-- One character of `re.sub(r"[^a-z0-9]+", "-", ...)`, before what the rest gives: a run of other
-- characters gives one dash, at its first.
abbrev pub substitute : Bool → ℕ → Text → Text
substitute in_run c rest = if is_slug_char c then c ∷ rest else if in_run then rest else b'-' ∷ rest

unfoldable pub collapse : Bool → Text → Text
collapse in_run [] = []
collapse in_run (c ∷ s) = substitute in_run c (collapse (not (is_slug_char c)) s)

abbrev pub pad : Text → Text
pad [] = codes "org"
pad (c ∷ s) = (c ∷ s) ++ codes "-org"

abbrev pub lengthen : Text → Text
lengthen s = if ltb (length s) 3 then pad s else s

abbrev pub or_default : Text → Text
or_default s = if ltb (length s) 3 then codes "org" else s

unfoldable pub slug_from_name : Text → Text
unfolding collapse
slug_from_name name =
    or_default (
      strip_of is_dash
        (take 80 (lengthen (strip_of is_dash (collapse false (lower (strip name)))))))
