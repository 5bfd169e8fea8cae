-- ===== src/Mcp/Json.antt =====
-- The values of encoding/json that internal/mcp reads as arguments and writes as results.
use agentpeek.Common.{ℤ, Bool, Option, List, [], ◌∷◌, Bytes}

-- A value of type `any`. `float64` has the text of the JSON number, which is what the decoder reads
-- it from; `integer` is an int or an int64.
mutual
  pub data Json : Type 0 where
    null : Json
    boolean : Bool → Json
    float64 : Bytes → Json
    integer : ℤ → Json
    json_number : Bytes → Json
    text : Bytes → Json
    array : Items → Json
    object : Fields → Json

  pub data Items : Type 0 where
    end_items : Items
    item : Json → Items → Items

  pub data Fields : Type 0 where
    end_fields : Fields
    field : Bytes → Json → Fields → Fields

abbrev pub items : List Json → Items
items [] = end_items
items (v ∷ vs) = item v (items vs)

abbrev pub fields : List (Bytes × Json) → Fields
fields [] = end_fields
fields ((k, v) ∷ m) = field k v (fields m)

-- map[string]any{...} and a slice, as results.
abbrev pub map_of : List (Bytes × Json) → Json
map_of m = object (fields m)

abbrev pub slice_of : List Json → Json
slice_of vs = array (items vs)

-- map[string]any, as the arguments of a tool: each key once.
abbrev pub Arguments : Type 0
Arguments = List (Bytes × Json)

-- What the handler relies on: of encoding/json, int(f) for the float64 of a number's text, Int64() of
-- a json.Number, the name and arguments of tools/call's params (`none` for an error, and for nil
-- arguments), and Marshal (`none` for an error); of the SQLite driver, the texts of the errors for a
-- constraint and for a sum that is no int64.
pub record Runtime : Type 0 where
  pub int_of_float : Bytes → ℤ
  pub int64_of_number : Bytes → Option ℤ
  pub unmarshal_params : Bytes → Option (Bytes × Option Arguments)
  pub marshal : Json → Option Bytes
  pub constraint_text : Bytes
  pub overflow_text : Bytes
