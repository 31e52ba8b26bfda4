-- ===== src/Entry/Cells/Kinds.antt =====
-- The types of columns with their cells, and the numbers and times in them (ugoite-core/src/entry.rs).
use ugoite.Common.{
  ℕ, ◌+◌, ◌-◌, ◌*◌, ◌/◌, ◌%◌, String, Bool, Option, none, some, List, [], ◌∷◌, ltb, leb,
  if◌then◌else◌,
}
use ugoite.Common.Maps.{HashMap, lookup, put}
use ugoite.External.{External}
use ugoite.Json.{F64, pos_int, neg_int, Value, number, string}
use ugoite.Entry.Render.{form_field_defs}

-- A signed machine integer: `pos n` is n, `negsuc n` is -(n + 1).
pub data ℤ : Type 0 where
  pos : ℕ → ℤ
  negsuc : ℕ → ℤ

abbrev pub Bytes : Type 0
Bytes = List ℕ

-- One cell of a column of the Arrow types that the sources build.
pub data Cell : Type 0 where
  absent : Cell
  float64 : F64 → Cell
  float32 : ℕ → Cell
  int32 : ℤ → Cell
  int64 : ℤ → Cell
  boolean : Bool → Cell
  date32 : ℤ → Cell
  time64 : ℤ → Cell
  timestamp_micros : ℤ → Cell
  timestamp_nanos : ℤ → Cell
  fixed_binary : Bytes → Cell
  large_binary : Bytes → Cell
  utf8 : String → Cell
  utf8_list : List String → Cell
  struct_list : List (String × String × String) → Cell

-- The field types that the columns tell apart; a name that is not known is a text.
pub data FieldType : Type 0 where
  double_type : FieldType
  float_type : FieldType
  integer_type : FieldType
  long_type : FieldType
  boolean_type : FieldType
  date_type : FieldType
  time_type : FieldType
  timestamp_type : FieldType
  timestamp_ns_type : FieldType
  uuid_type : FieldType
  binary_type : FieldType
  list_type : FieldType
  object_list_type : FieldType
  text_type : FieldType

abbrev type_names : HashMap FieldType
type_names =
    ("number", double_type)
    ∷ ("double", double_type)
    ∷ ("float", float_type)
    ∷ ("integer", integer_type)
    ∷ ("long", long_type)
    ∷ ("boolean", boolean_type)
    ∷ ("date", date_type)
    ∷ ("time", time_type)
    ∷ ("timestamp", timestamp_type)
    ∷ ("timestamp_tz", timestamp_type)
    ∷ ("timestamp_ns", timestamp_ns_type)
    ∷ ("timestamp_tz_ns", timestamp_ns_type)
    ∷ ("uuid", uuid_type)
    ∷ ("binary", binary_type)
    ∷ ("list", list_type)
    ∷ ("object_list", object_list_type)
    ∷ []

unfoldable pub field_type_named : String → FieldType
unfolding lookup
field_type_named name = elim (lookup name type_names) [ none ↦ text_type | some t ↦ t ]

-- `collect` into a `HashMap`: a later definition of a name replaces an earlier one.
type_map_of : List (String × String) → HashMap String → HashMap String
unfolding put
type_map_of [] types = types
type_map_of ((name, type_name) ∷ defs) types = type_map_of defs (put name type_name types)

unfoldable pub form_field_type_map : Value → HashMap String
unfolding type_map_of form_field_defs
form_field_type_map form_def = type_map_of (form_field_defs form_def) []

unfoldable pub column_type : Value → String → FieldType
unfolding lookup field_type_named form_field_type_map
column_type form_def name = elim (lookup name (form_field_type_map form_def)) [
  | none ↦ text_type
  | some type_name ↦ field_type_named type_name
]

-- The field names of a table, each with the type that its form declares.
unfoldable pub declared_types : Value → List String → List (String × String)
unfolding lookup form_field_type_map
declared_types form_def [] = []
declared_types form_def (name ∷ names) =
    (name, elim (lookup name (form_field_type_map form_def)) [ none ↦ "string" | some t ↦ t ])
    ∷ declared_types form_def names

-- The two tables of a form.
pub data Table : Type 0 where
  entries_table : Table
  revisions_table : Table

-- The crates `arrow`, `chrono`, `uuid`, `base64` and `hex`, and the conversions between number types.
pub record ColumnCrates : Type 0 where
  pub json : External
  -- `StructArray::try_new`: its error where the array that the code builds for a declared type is
  -- not what the field of the table has, as for the types with a time zone
  pub struct_error : Table → List (String × String) → Option String
  -- `RecordBatch::try_new`: its error for the row of a table whose fields have the declared types
  pub batch_error : Table → List (String × String) → Option String
  -- `as f64` of the integers n and -(n + 1), `as f32`, and `f64::from` where it is finite
  pub f64_of_pos : ℕ → F64
  pub f64_of_neg : ℕ → F64
  pub narrow : F64 → ℕ
  pub widen : ℕ → Option F64
  -- `NaiveDate` from and to its days since 1970
  pub days_of_date : String → Option ℤ
  pub date_of_days : ℤ → Option String
  -- `NaiveTime::parse_from_str`, to the second of the day and its nanoseconds, and the reverse
  pub parse_time : (format : String) → String → Option (ℕ × ℕ)
  pub show_time : (seconds : ℕ) → (nanos : ℕ) → Option String
  pub pad_six : ℕ → String
  -- `DateTime::parse_from_rfc3339`, to microseconds, and to seconds and nanoseconds, and back
  pub rfc3339_micros : String → Option ℤ
  pub show_micros : ℤ → Option String
  pub rfc3339_seconds : String → Option (ℤ × ℕ)
  pub show_nanos : ℤ → ℕ → Option String
  pub parse_uuid : String → Option Bytes
  pub show_uuid : Bytes → Option String
  pub decode_base64 : String → Option Bytes
  pub encode_base64 : Bytes → String
  pub decode_hex : String → Option Bytes

-- `i32::try_from`
unfoldable pub to_i32 : ℤ → Option ℤ
to_i32 (pos n) = if ltb n 2147483648 then some (pos n) else none
to_i32 (negsuc n) = if ltb n 2147483648 then some (negsuc n) else none

-- `Value::as_i64`
unfoldable pub as_i64 : Value → Option ℤ
as_i64 (number (pos_int n)) = if ltb n 9223372036854775808 then some (pos n) else none
as_i64 (number (neg_int n)) = some (negsuc n)
as_i64 _ = none

unfoldable pub integer_value : ℤ → Value
integer_value (pos n) = number (pos_int n)
integer_value (negsuc n) = number (neg_int n)

-- `and_then`
infixl 5 ◌>=>◌
abbrev pub ◌>=>◌ {ℓ κ} : {A : Type ℓ} {B : Type κ} → Option A → (A → Option B) → Option B
none >=> f = none
some a >=> f = f a

abbrev pub as_text : Option Value → Option String
as_text (some (string s)) = some s
as_text _ = none

abbrev pub to_cell {ℓ} : {A : Type ℓ} → (A → Cell) → Option A → Cell
to_cell make none = absent
to_cell make (some a) = make a

-- `secs.saturating_mul(1_000_000_000)`
unfoldable pub billion_times : ℤ → ℤ
billion_times (pos n) =
    pos (let m = n * 1000000000 in if ltb m 9223372036854775808 then m else 9223372036854775807)
billion_times (negsuc n) = negsuc (
    let m = n * 1000000000 + 999999999 in
    if ltb m 9223372036854775808 then m else 9223372036854775807)

-- `+`, which wraps in a release build
unfoldable pub add_nanos : ℤ → ℕ → ℤ
add_nanos (pos n) nanos =
    let m = n + nanos in
    if ltb m 9223372036854775808 then pos m else negsuc (18446744073709551616 - m - 1)
add_nanos (negsuc n) nanos = if leb nanos n then negsuc (n - nanos) else pos (nanos - n - 1)

-- `div_euclid` and `rem_euclid` by 1_000_000_000
unfoldable pub split_nanos : ℤ → ℤ × ℕ
split_nanos (pos n) = (pos (n / 1000000000), n % 1000000000)
split_nanos (negsuc n) = (negsuc (n / 1000000000), 999999999 - n % 1000000000)
