-- ===== src/Protocol/Json.antt =====
-- JSON values of packages/protocol/src/types.ts.
use spectro.Prelude.{Bool, Text}

-- A number is kept as the text that `JSON.stringify` prints: the code passes numbers on.
mutual
  pub data Json : Type 0 where
    null : Json
    bool : Bool → Json
    num : Text → Json
    str : Text → Json
    arr : Items → Json
    obj : Fields → Json

  pub data Items : Type 0 where
    nil : Items
    cons : Json → Items → Items

  pub data Fields : Type 0 where
    end : Fields
    field : Text → Json → Fields → Fields
