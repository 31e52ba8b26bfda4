-- ===== src/Entry/Cells.antt =====
-- The typed columns that hold the fields of an entry (`form_field_type_map` to
-- `binary_to_base64`, `list_array_from_values`, `object_list_array_from_values`,
-- `struct_array_from_fields` and `value_from_struct_array` of ugoite-core/src/entry.rs). The columns
-- of a table have the types of its form, so a cell has the type of its field.
mod Kinds
unfoldable pub use Kinds.*
use ugoite.Common.{
  ℕ, ◌+◌, ◌-◌, ◌*◌, ◌/◌, ◌%◌, String, Bool, Option, none, some, List, [], ◌∷◌, ltb, leb, nat_eq,
  if◌then◌else◌, Result, ok, err,
}
use ugoite.Common.Text.{◌⧺◌, trim, strip_prefix}
use ugoite.Common.Maps.{HashMap, lookup, put}
use ugoite.External.{External}
use ugoite.Json.{
  F64, pos_int, neg_int, float, Value, bool, number, string, array, object, Values, nil, cons,
  Fields, end,
}
use ugoite.Json.Object.{insert, value_get, from_list}
use ugoite.Entry.Render.{form_field_defs, show_bool}

module _ (crates : ColumnCrates) where
  open crates use {
    json, struct_error, f64_of_pos, f64_of_neg, narrow, widen, days_of_date, date_of_days,
    parse_time, show_time, pad_six, rfc3339_micros, show_micros, rfc3339_seconds, show_nanos,
    parse_uuid, show_uuid, decode_base64, encode_base64, decode_hex,
  }

  -- `Value::as_f64`
  unfoldable pub value_as_f64 : Value → Option F64
  value_as_f64 (number (pos_int n)) = some (f64_of_pos n)
  value_as_f64 (number (neg_int n)) = some (f64_of_neg n)
  value_as_f64 (number (float f)) = some f
  value_as_f64 _ = none

  unfoldable pub date_to_days : String → Option ℤ
  unfolding to_i32
  date_to_days value = days_of_date value >=> to_i32

  -- The first of the three formats that reads the text.
  unfoldable pub first_time : List String → String → Option (ℕ × ℕ)
  first_time [] text = none
  first_time (format ∷ formats) text = elim (parse_time format text) [
    | none ↦ first_time formats text
    | some time ↦ some time
  ]

  unfoldable pub parse_time_to_micros : String → Option ℤ
  unfolding first_time trim
  parse_time_to_micros value =
      first_time ("%H:%M:%S%.f" ∷ "%H:%M:%S" ∷ "%H:%M" ∷ []) (trim value) >=> λ time.
      some (pos (time.0 * 1000000 + time.1 / 1000))

  -- The seconds are cast to u32.
  unfoldable pub time_micros_to_string : ℤ → Option String
  time_micros_to_string (negsuc n) = none
  time_micros_to_string (pos micros) =
      let sub_micros = micros % 1000000 in
      show_time (micros / 1000000 % 4294967296) (sub_micros * 1000) >=> λ shown.
      some (if nat_eq sub_micros 0 then shown else shown ⧺ "." ⧺ pad_six sub_micros)

  unfoldable pub parse_timestamp_to_nanos : String → Option ℤ
  unfolding billion_times add_nanos
  parse_timestamp_to_nanos value =
      rfc3339_seconds value >=> λ time. some (add_nanos (billion_times time.0) time.1)

  unfoldable pub timestamp_nanos_to_string : ℤ → Option String
  unfolding split_nanos
  timestamp_nanos_to_string nanos = let parts = split_nanos nanos in show_nanos parts.0 parts.1

  unfoldable pub parse_binary_string : String → Option Bytes
  unfolding strip_prefix trim
  parse_binary_string value =
      let trimmed = trim value in
      elim (strip_prefix "base64:" trimmed) [
        | some rest ↦ decode_base64 (trim rest)
        | none ↦ elim (strip_prefix "hex:" trimmed) [
          | some rest ↦ decode_hex (trim rest)
          | none ↦ elim (strip_prefix "0x" trimmed) [
            | some rest ↦ decode_hex (trim rest)
            | none ↦ decode_base64 trimmed
          ]
        ]
      ]

  unfoldable pub binary_to_base64 : Bytes → String
  binary_to_base64 value = "base64:" ⧺ encode_base64 value

  rendered_item : Value → String
  rendered_item (string s) = s
  rendered_item (bool b) = show_bool b
  rendered_item item = json.to_string item

  rendered_items : Values → List String
  unfolding rendered_item
  rendered_items nil = []
  rendered_items (cons item items) = rendered_item item ∷ rendered_items items

  unfoldable pub list_array_from_values : Option Value → Cell
  unfolding rendered_items
  list_array_from_values (some (array items)) = utf8_list (rendered_items items)
  list_array_from_values _ = absent

  -- `.get(name).and_then(|v| v.as_str()).unwrap_or("")`
  member_text : String → Value → String
  unfolding value_get
  member_text name item = elim (value_get name item) [ some (string s) ↦ s | _ ↦ "" ]

  object_items : Values → List (String × String × String)
  unfolding member_text
  object_items nil = []
  object_items (cons item items) =
      (member_text "type" item, member_text "name" item, member_text "description" item)
      ∷ object_items items

  unfoldable pub object_list_array_from_values : Option Value → Cell
  unfolding object_items
  object_list_array_from_values (some (array items)) = struct_list (object_items items)
  object_list_array_from_values _ = absent

  -- The cell of a value, by the type of its column.
  unfoldable pub cell_of : FieldType → Option Value → Cell
  unfolding value_as_f64 as_i64 to_i32 date_to_days parse_time_to_micros parse_timestamp_to_nanos
      parse_binary_string list_array_from_values object_list_array_from_values
  cell_of double_type value = to_cell float64 (value >=> value_as_f64)
  cell_of float_type value = to_cell float32 (value >=> value_as_f64 >=> λ n. some (narrow n))
  cell_of integer_type value = to_cell int32 (value >=> as_i64 >=> to_i32)
  cell_of long_type value = to_cell int64 (value >=> as_i64)
  cell_of boolean_type (some (bool b)) = boolean b
  cell_of boolean_type _ = absent
  cell_of date_type value = to_cell date32 (as_text value >=> date_to_days)
  cell_of time_type value = to_cell time64 (as_text value >=> parse_time_to_micros)
  cell_of timestamp_type value = to_cell timestamp_micros (as_text value >=> rfc3339_micros)
  cell_of timestamp_ns_type value =
      to_cell timestamp_nanos (as_text value >=> parse_timestamp_to_nanos)
  cell_of uuid_type value = to_cell fixed_binary (as_text value >=> parse_uuid)
  cell_of binary_type value = to_cell large_binary (as_text value >=> parse_binary_string)
  cell_of list_type value = list_array_from_values value
  cell_of object_list_type value = object_list_array_from_values value
  cell_of text_type value = to_cell utf8 (as_text value)

  -- The arrays of a row, for the field names of the schema.
  unfoldable pub arrays_of : Value → Value → List String → List (String × Cell)
  unfolding value_get column_type cell_of
  arrays_of form_def fields_value [] = []
  arrays_of form_def fields_value (name ∷ names) =
      (name, cell_of (column_type form_def name) (value_get name fields_value))
      ∷ arrays_of form_def fields_value names

  unfoldable pub struct_array_from_fields :
      Table → Value → Value → List String → Result String (List (String × Cell))
  unfolding arrays_of declared_types
  struct_array_from_fields table form_def fields_value names =
      elim (struct_error table (declared_types form_def names)) [
        | none ↦ ok (arrays_of form_def fields_value names)
        | some e ↦ err ("Failed to build fields struct array: " ⧺ e)
      ]

  text_values : List String → Values
  text_values [] = nil
  text_values (s ∷ rest) = cons (string s) (text_values rest)

  object_values : List (String × String × String) → Values
  object_values [] = nil
  object_values ((var_type, name, description) ∷ rest) =
      cons
        (object (
          from_list (
            ("type", string var_type)
            ∷ ("name", string name)
            ∷ ("description", string description)
            ∷ [])))
        (object_values rest)

  -- What is read from a cell: nothing from an absent one, or from one of another type.
  unfoldable pub value_of_cell : FieldType → Cell → Option Value
  unfolding integer_value time_micros_to_string timestamp_nanos_to_string binary_to_base64
      text_values object_values
  value_of_cell double_type (float64 f) = some (number (float f))
  value_of_cell float_type (float32 f) = widen f >=> λ wide. some (number (float wide))
  value_of_cell integer_type (int32 i) = some (integer_value i)
  value_of_cell long_type (int64 i) = some (integer_value i)
  value_of_cell boolean_type (boolean b) = some (bool b)
  value_of_cell date_type (date32 days) = date_of_days days >=> λ s. some (string s)
  value_of_cell time_type (time64 micros) = time_micros_to_string micros >=> λ s. some (string s)
  value_of_cell timestamp_type (timestamp_micros micros) =
      show_micros micros >=> λ s. some (string s)
  value_of_cell timestamp_ns_type (timestamp_nanos nanos) =
      timestamp_nanos_to_string nanos >=> λ s. some (string s)
  value_of_cell uuid_type (fixed_binary bytes) = show_uuid bytes >=> λ s. some (string s)
  value_of_cell binary_type (large_binary bytes) = some (string (binary_to_base64 bytes))
  value_of_cell list_type (utf8_list items) = some (array (text_values items))
  value_of_cell object_list_type (struct_list items) = some (array (object_values items))
  value_of_cell text_type (utf8 s) = some (string s)
  value_of_cell _ _ = none

  unfoldable pub fields_of_cells : Value → List (String × Cell) → Fields → Fields
  unfolding insert column_type value_of_cell
  fields_of_cells form_def [] map = map
  fields_of_cells form_def ((name, cell) ∷ cells) map =
      elim (value_of_cell (column_type form_def name) cell) [
        | none ↦ fields_of_cells form_def cells map
        | some value ↦ fields_of_cells form_def cells (insert name value map)
      ]

  unfoldable pub value_from_struct_array : Value → List (String × Cell) → Value
  unfolding fields_of_cells
  value_from_struct_array form_def cells = object (fields_of_cells form_def cells end)
