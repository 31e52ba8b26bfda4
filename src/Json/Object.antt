-- ===== src/Json/Object.antt =====
-- `serde_json::Map`: lookup, insertion and removal, and the map laws.
use Prim.Native.String.{String, compare}
use Prim.Native.Nat.{Ordering}
use mathlib.Core.Option.{Option, none, some}
use ugoite.Common.{◌≡◌, refl, arith, ◌==◌, str_eq_iff, if◌then◌else◌, List, [], ◌∷◌}
use ugoite.Json.{Value, object, Fields, end, field, as_str}

-- `Map::get`
unfoldable pub get : String → Fields → Option Value
get k end = none
get k (field j v fs) = if j == k then some v else get k fs

-- `Map::insert`: replaces the value of a key that is there, else keeps the order of the keys.
unfoldable pub insert : String → Value → Fields → Fields
insert k v end = field k v end
insert k v (field j w fs) = if j == k then field k v fs else elim (compare k j) [
  | Ordering.lt ↦ field k v (field j w fs)
  | _ ↦ field j w (insert k v fs)
]

-- `Map::remove`
unfoldable pub remove : String → Fields → Fields
remove k end = end
remove k (field j v fs) = if j == k then remove k fs else field j v (remove k fs)

-- `Value::get` with a text: `none` for what is no object.
unfoldable pub value_get : String → Value → Option Value
unfolding get
value_get k (object fs) = get k fs
value_get k _ = none

-- `.get(key).and_then(Value::as_str)`
unfoldable pub get_str : String → Fields → Option String
get_str k fs = elim (get k fs) [ none ↦ none | some v ↦ as_str v ]

-- An object built by inserting each entry, as the `json!` macro does.
unfoldable pub from_list : List (String × Value) → Fields
from_list [] = end
from_list ((k, v) ∷ l) = insert k v (from_list l)

pub get-insert :
    (k j : String) (v : Value) (fs : Fields)
    → get j (insert k v fs) ≡ (if k == j then some v else get j fs)
unfolding get insert
get-insert k j v end = refl
get-insert k j v (field i w fs) =
    ground (arith, get-insert k j v fs, str_eq_iff k j, str_eq_iff i k, str_eq_iff i j)

pub get-remove :
    (k j : String) (fs : Fields) → get j (remove k fs) ≡ (if k == j then none else get j fs)
unfolding get remove
get-remove k j end = ground arith
get-remove k j (field i v fs) =
    ground (arith, get-remove k j fs, str_eq_iff k j, str_eq_iff i k, str_eq_iff i j)

-- Removing a key right after it was inserted leaves what removing it first would.
pub remove-insert : (k : String) (v : Value) (fs : Fields) → remove k (insert k v fs) ≡ remove k fs
unfolding remove insert
remove-insert k v end = ground (arith, str_eq_iff k k)
remove-insert k v (field i w fs) =
    ground (arith, remove-insert k v fs, str_eq_iff k k, str_eq_iff i k)

pub remove-remove : (k : String) (fs : Fields) → remove k (remove k fs) ≡ remove k fs
unfolding remove
remove-remove k end = refl
remove-remove k (field i w fs) = ground (arith, remove-remove k fs)

pub get_str-insert :
    (k j : String) (v : Value) (fs : Fields)
    → get_str j (insert k v fs) ≡ (if k == j then as_str v else get_str j fs)
unfolding get_str
get_str-insert k j v fs = ground (arith, get-insert k j v fs)

pub get_str-remove :
    (k j : String) (fs : Fields) → get_str j (remove k fs) ≡ (if k == j then none else get_str j fs)
unfolding get_str
get_str-remove k j fs = ground (arith, get-remove k j fs)

pub ruleset object_laws =
    (get-insert, get-remove, remove-insert, remove-remove, get_str-insert, get_str-remove)

-- What holds no such key is left as it is.
pub remove_of_none : (k : String) (fs : Fields) → get k fs ≡ none → remove k fs ≡ fs
unfolding get remove
remove_of_none k end h = refl
remove_of_none k (field i w fs) h = ground (arith, remove_of_none k fs)
