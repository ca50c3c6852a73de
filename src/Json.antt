-- ===== src/Json.antt =====
-- JSON values: audit metadata and response snapshots. An object is its fields in order.
pub mod Dumps
use multi_tenant_saas_api.Base.{ℕ, Bool, Text}

mutual
  pub data Json : Type 0 where
    null : Json
    bool : Bool → Json
    num : ℕ → Json
    str : Text → Json
    arr : Items → Json
    obj : Fields → Json

  pub data Items : Type 0 where
    nil : Items
    item : Json → Items → Items

  pub data Fields : Type 0 where
    end : Fields
    field : Text → Json → Fields → Fields
