-- ===== src/Base/Json.antt =====
-- The values that `encoding/json` marshals, as far as the operator builds them.
use magma_operator.Base.{String, Bool, ℕ}

mutual
  pub data Json : Type 0 where
    text : String → Json
    number : ℕ → Json
    boolean : Bool → Json
    array : Items → Json
    object : Fields → Json

  pub data Items : Type 0 where
    nil : Items
    item : Json → Items → Items

  pub data Fields : Type 0 where
    end : Fields
    field : String → Json → Fields → Fields
