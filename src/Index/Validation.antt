-- ===== src/Index/Validation.antt =====
-- Checking an entry against its form (`validate_properties`, ugoite-core/src/index.rs). The loop
-- runs over a `HashMap` of the fields, here in the order in which the form names them.
use ugoite.Common.{
  String, Bool, true, false, ◌&&◌, Option, none, some, List, [], ◌∷◌, ◌++◌, Result, ok, ◌>>=◌,
  if◌then◌else◌,
}
use ugoite.Common.Text.{◌⧺◌, is_empty}
use ugoite.Common.Maps.{HashMap, put}
use ugoite.Json.{Value, bool, string, array, object, Values, nil, cons, entries}
use ugoite.Json.Object.{insert, value_get, from_list}
use ugoite.Entry.Render.{type_of}
use ugoite.Entry.Cells.{field_type_named}
use ugoite.Index.Properties.{PropertyCrates, cast_value}

put_all : List (String × Value) → HashMap Value → HashMap Value
unfolding put
put_all [] defs = defs
put_all ((name, field_def) ∷ rest) defs = put_all rest (put name field_def defs)

put_items : Values → HashMap Value → HashMap Value
unfolding put value_get
put_items nil defs = defs
put_items (cons item items) defs = elim (value_get "name" item) [
  | some (string name) ↦ put_items items (put name item defs)
  | _ ↦ put_items items defs
]

unfoldable pub field_defs : Value → HashMap Value
unfolding value_get put_all put_items entries
field_defs entry_form = elim (value_get "fields" entry_form) [
  | some (object fs) ↦ put_all (entries fs) []
  | some (array items) ↦ put_items items []
  | _ ↦ []
]

unfoldable pub is_required : Value → Bool
unfolding value_get
is_required field_def = elim (value_get "required" field_def) [ some (bool b) ↦ b | _ ↦ false ]

-- `value.is_none() || value == Some(Value::String(String::new()))`
unfoldable pub is_missing : Option Value → Bool
is_missing none = true
is_missing (some (string s)) = is_empty s
is_missing (some _) = false

unfoldable pub warning : String → String → String → Value
warning code field_name message = object (
    from_list
      (("code", string code) ∷ ("field", string field_name) ∷ ("message", string message) ∷ []))

unfoldable pub missing_field : String → Value
unfolding warning
missing_field name = warning "missing_field" name ("Missing required field: " ⧺ name)

unfoldable pub invalid_type : String → Value
unfolding warning
invalid_type name = warning "invalid_type" name ("Field '" ⧺ name ⧺ "' has invalid type")

-- `if let Some(obj) = casted.as_object_mut()`
unfoldable pub set_field : String → Value → Value → Value
unfolding insert
set_field name value (object fs) = object (insert name value fs)
set_field name value casted = casted

-- A cast value is stored; an invalid one is a warning.
unfoldable pub store_cast : String → Option Value → Value × List Value → Value × List Value
unfolding set_field invalid_type
store_cast name none (casted, warnings) = (casted, warnings ++ invalid_type name ∷ [])
store_cast name (some value) (casted, warnings) = (set_field name value casted, warnings)

module _ (crates : PropertyCrates) where
  -- One round of the loop, for one field.
  unfoldable pub validate_field :
      Value → String → Value → Value × List Value → Result String (Value × List Value)
  unfolding value_get is_required is_missing missing_field type_of field_type_named cast_value
      store_cast
  validate_field properties name field_def (casted, warnings) =
      let value = value_get name properties in
      if is_required field_def && is_missing value
      then ok (casted, warnings ++ missing_field name ∷ [])
      else elim value [
        | none ↦ ok (casted, warnings)
        | some raw_value ↦
            cast_value crates (field_type_named (type_of field_def)) raw_value >>= λ cast.
            ok (store_cast name cast (casted, warnings))
      ]

  unfoldable pub validate_fields :
      Value → HashMap Value → Value × List Value → Result String (Value × List Value)
  unfolding validate_field
  validate_fields properties [] done = ok done
  validate_fields properties ((name, field_def) ∷ defs) done =
      validate_field properties name field_def done >>= validate_fields properties defs

  unfoldable pub validate_properties : Value → Value → Result String (Value × List Value)
  unfolding validate_fields field_defs
  validate_properties properties entry_form =
      validate_fields properties (field_defs entry_form) (properties, [])
