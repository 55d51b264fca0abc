-- ===== src/Protocol/Tree.antt =====
-- What the agent asks of cJSON (agent/third_party/cjson), a vendored library.
use leo_one.Prelude.{Bytes, ℕ, Bool, Option, List}
use leo_one.Prelude.Int.{ℤ}
use leo_one.Prelude.Double.{Double}

-- A value as the builders of protocol.c put it together, call by call.
mutual
  pub data Json : Type 0 where
    number : Double → Json
    string : Bytes → Json
    array : Items → Json
    object : Fields → Json

  pub data Items : Type 0 where
    nil : Items
    cons : Json → Items → Items

  pub data Fields : Type 0 where
    end : Fields
    field : Bytes → Json → Fields → Fields

-- The library, over its type of parsed nodes. A NULL pointer is `none`; `number` stands for
-- cJSON_IsNumber with valuedouble, and so on for the other kinds. `overflow_int` and `overflow_u64`
-- are what the compiled program makes of casts that C leaves undefined.
pub record Cjson (Node : Type 0) : Type 0 where
  pub parse : Bytes → Option Node
  pub get_item : Node → Bytes → Option Node
  pub number : Node → Option Double
  pub string : Node → Option Bytes
  pub bool : Node → Option Bool
  pub items : Node → Option (List Node)
  pub is_object : Node → Bool
  pub print : Json → Option Bytes
  pub overflow_int : Double → ℤ
  pub overflow_u64 : Double → ℕ
