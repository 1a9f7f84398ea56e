-- ===== src/Kube/Json.antt =====
-- The content of an unstructured object: map[string]interface{} and what may stand in it.
use smeltry_operator.Base.{ℕ, String, Bool}

mutual
  pub data Value : Type 0 where
    text : String → Value
    int64 : ℕ → Value
    boolean : Bool → Value
    slice : Items → Value
    object : Fields → Value

  pub data Items : Type 0 where
    nil : Items
    cons : Value → Items → Items

  pub data Fields : Type 0 where
    end : Fields
    field : String → Value → Fields → Fields
