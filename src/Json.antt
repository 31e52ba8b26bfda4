-- ===== src/Json.antt =====
-- JSON values, as `serde_json::Value` holds them. The crate is built without `preserve_order`, so
-- an object is an ordered map: `Fields` keeps its keys in the byte order of the texts when it is
-- built by `insert`, and iterates in that order.
pub mod Object
pub mod Float
use Prim.Native.String.{String}
use mathlib.Core.Bool.{Bool, true, false, ◌&&◌}
use mathlib.Core.Option.{Option, none, some}
use mathlib.Core.List.{List, [], ◌∷◌}
use ugoite.Common.{ℕ, ◌==◌, nat_eq, if◌then◌else◌}

-- A finite f64 of `serde_json`, by its bit pattern.
abbrev pub F64 : Type 0
F64 = ℕ

-- `serde_json::Number`: an integer from 0, a negative integer -(n + 1), or a float.
pub data Number : Type 0 where
  pos_int : ℕ → Number
  neg_int : ℕ → Number
  float : F64 → Number

mutual
  pub data Value : Type 0 where
    null : Value
    bool : Bool → Value
    number : Number → Value
    string : String → Value
    array : Values → Value
    object : Fields → Value

  pub data Values : Type 0 where
    nil : Values
    cons : Value → Values → Values

  pub data Fields : Type 0 where
    end : Fields
    field : String → Value → Fields → Fields

-- The items of an array, as a list.
unfoldable pub items : Values → List Value
items nil = []
items (cons v vs) = v ∷ items vs

-- The entries of an object, in the order of iteration.
unfoldable pub entries : Fields → List (String × Value)
entries end = []
entries (field k v fs) = (k, v) ∷ entries fs

-- `Value::as_object`
abbrev pub as_object : Value → Option Fields
as_object (object fs) = some fs
as_object _ = none

-- `Value::as_array`
abbrev pub as_array : Value → Option (List Value)
as_array (array vs) = some (items vs)
as_array _ = none

-- `Value::as_str`
abbrev pub as_str : Value → Option String
as_str (string s) = some s
as_str _ = none

-- `Value::as_bool`
abbrev pub as_bool : Value → Option Bool
as_bool (bool b) = some b
as_bool _ = none

-- `Value::is_null`
abbrev pub is_null : Value → Bool
is_null null = true
is_null _ = false

-- `Value::is_object`
abbrev pub is_object : Value → Bool
is_object (object _) = true
is_object _ = false
