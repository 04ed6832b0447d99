-- ===== src/Values.antt =====
-- The dynamic values (`any`) of message properties, as JSON gives them.
use xmc.Prelude.{ℕ, Bool, Text}

mutual
  pub data Value : Type 0 where
    null : Value
    boolean : Bool → Value
    number : ℕ → Value
    string : Text → Value
    array : Items → Value
    object : Fields → Value

  pub data Items : Type 0 where
    no_items : Items
    item : Value → Items → Items

  pub data Fields : Type 0 where
    no_fields : Fields
    field : Text → Value → Fields → Fields
