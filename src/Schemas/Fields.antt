-- ===== src/Schemas/Fields.antt =====
-- schemas/common.py, and what the bounds of the fields ask for.
use multi_tenant_saas_api.Base.{
  ℕ, Bool, true, ◌&&◌, Option, none, some, List, Text, length, leb, if◌then◌else◌,
}
use multi_tenant_saas_api.Exec.{Action, pure, raise, validation_error}

-- `Field(min_length=..., max_length=...)`
abbrev pub has_length : ℕ → ℕ → Text → Bool
has_length min_length max_length s = leb min_length (length s) && leb (length s) max_length

abbrev pub if_some {ℓ} : {A : Type ℓ} → (A → Bool) → Option A → Bool
if_some p none = true
if_some p (some a) = p a

-- `Model(...)`: a `ValidationError` where a field is out of bounds.
abbrev pub validated : {A : Type 0} → Bool → A → Action A
validated valid a = if valid then pure a else raise validation_error

pub record PaginationMeta : Type 0 where
  pub limit : ℕ
  pub offset : ℕ
  pub total : ℕ
  pub count : ℕ

-- The bounds of the fields (those from below by 0 hold of every natural number), and
-- `validate_count_bounds`.
unfoldable pub pagination_meta_valid : PaginationMeta → Bool
pagination_meta_valid m =
    leb 1 m.limit && leb m.limit 100 && leb m.count m.limit && leb m.count m.total

-- A list response: `items` and `pagination`.
pub record Page (A : Type 0) : Type 0 where
  pub items : List A
  pub pagination : PaginationMeta

-- How each list route makes its response from the service's page.
abbrev pub page_response : {A : Type 0} → List A → ℕ → ℕ → ℕ → Action (Page A)
page_response items limit offset total =
    let meta : PaginationMeta = record {
      limit = limit;
      offset = offset;
      total = total;
      count = length items;
    } in
    validated (pagination_meta_valid meta) (record { items = items; pagination = meta })
