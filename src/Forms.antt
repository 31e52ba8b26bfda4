-- ===== src/Forms.antt =====
-- The definitions of forms: their normal form, its checks, and what a reader gets
-- (ugoite-core/src/form.rs).
pub mod Definitions
mod Tests
use ugoite.Common.{
  String, Bool, true, false, ◌||◌, not, Option, none, some, List, [], ◌∷◌, ◌++◌, map, any, ◌==◌,
  Result, ok, err, guard, ok_or, ◌>>=◌, ◌>>◌, sort_texts,
}
use ugoite.Common.Text.{◌⧺◌, trim, is_empty}
use ugoite.Json.{
  Value, Number, pos_int, neg_int, number, string, array, object, Values, nil, cons, Fields, end,
  entries,
}
use ugoite.Json.Object.{insert, remove, value_get, from_list}
use ugoite.Entry.Cells.{ℤ, pos, negsuc, as_i64}
use ugoite.Entry.Render.{type_of}
use ugoite.Entry.Store.{Store, FormTables, load_form, list_form_names}
use ugoite.Metadata.{Registry, is_reserved_metadata_column, is_reserved_metadata_form}

-- `.get(key).and_then(|v| v.as_str())`
unfoldable pub value_str : String → Value → Option String
unfolding value_get
value_str key value = elim (value_get key value) [ some (string s) ↦ some s | _ ↦ none ]

abbrev pub or_else {ℓ} : {A : Type ℓ} → Option A → A → A
or_else none default = default
or_else (some a) default = a

unfoldable list_column_types : List String
list_column_types =
    "string" ∷ "sql" ∷ "markdown" ∷ "number" ∷ "double" ∷ "float" ∷ "integer" ∷ "long" ∷ "boolean"
    ∷ "date" ∷ "time" ∷ "timestamp" ∷ "timestamp_tz" ∷ "timestamp_ns" ∷ "timestamp_tz_ns" ∷ "uuid"
    ∷ "row_reference" ∷ "binary" ∷ "list" ∷ "object_list" ∷ []

-- `Map::insert`, for each entry in turn.
insert_fields : List (String × Value) → Fields → Fields
unfolding insert
insert_fields [] normalized = normalized
insert_fields ((name, def) ∷ rest) normalized = insert_fields rest (insert name def normalized)

-- `if let Some(obj) = def.as_object_mut() { obj.remove("name"); }`
without_name : Value → Value
unfolding remove
without_name (object fs) = object (remove "name" fs)
without_name item = item

insert_items : Values → Fields → Fields
unfolding value_str insert without_name
insert_items nil normalized = normalized
insert_items (cons item items) normalized = elim (value_str "name" item) [
  | none ↦ insert_items items normalized
  | some name ↦ insert_items items (insert name (without_name item) normalized)
]

unfoldable pub normalize_form_fields : Option Value → Fields
unfolding insert_fields insert_items entries
normalize_form_fields (some (object fs)) = insert_fields (entries fs) end
normalize_form_fields (some (array items)) = insert_items items end
normalize_form_fields _ = end

-- The target of a row reference, if it is not blank.
unfoldable pub target_form : Value → Option String
unfolding value_str trim
target_form def = elim (value_str "target_form" def) [
  | none ↦ none
  | some target ↦ elim (is_empty (trim target)) [ true ↦ none | false ↦ some (trim target) ]
]

unfoldable pub is_row_reference : Value → Bool
unfolding type_of ◌==◌
is_row_reference def = type_of def == "row_reference"

unfoldable pub is_extra_policy : String → Bool
unfolding ◌==◌
is_extra_policy policy = policy == "deny" || policy == "allow_json" || policy == "allow_columns"

-- `json!` of an i64.
unfoldable pub version_number : ℤ → Value
version_number (pos n) = number (pos_int n)
version_number (negsuc n) = number (neg_int n)

unfoldable pub version_of : Value → ℤ
unfolding value_get as_i64
version_of form_def = elim (value_get "version" form_def) [
  | none ↦ pos 1
  | some v ↦ or_else (as_i64 v) (pos 1)
]

unfoldable pub form_json : String → ℤ → Fields → String → Value
unfolding from_list insert version_number
form_json name version fields policy = object (
    from_list (
      ("name", string name)
      ∷ ("version", version_number version)
      ∷ ("fields", object fields)
      ∷ ("allow_extra_attributes", string policy)
      ∷ []))

module _ (registry : Registry) where
  unfoldable pub check_field_names : List (String × Value) → Result String (Unit {0})
  unfolding is_reserved_metadata_column
  check_field_names [] = ok tt
  check_field_names ((name, def) ∷ rest) =
      guard (not (is_reserved_metadata_column registry name))
        ("Field name '" ⧺ name ⧺ "' is reserved for metadata columns")
      >> check_field_names rest

  unfoldable pub check_target : String → Value → Result String (Unit {0})
  unfolding target_form is_reserved_metadata_form
  check_target name def = do
    target ← ok_or (target_form def) ("row_reference field '" ⧺ name ⧺ "' requires target_form")
    guard (not (is_reserved_metadata_form registry target))
        ("row_reference field '" ⧺ name ⧺ "' target_form '" ⧺ target ⧺ "' is reserved")

  unfoldable pub validate_row_reference_field_defs :
      List (String × Value) → Result String (Unit {0})
  unfolding is_row_reference check_target
  validate_row_reference_field_defs [] = ok tt
  validate_row_reference_field_defs ((name, def) ∷ rest) = elim (is_row_reference def) [
    | false ↦ validate_row_reference_field_defs rest
    | true ↦ check_target name def >> validate_row_reference_field_defs rest
  ]

  unfoldable pub normalize_form_definition_with_options : Value → Bool → Result String Value
  unfolding value_get value_str normalize_form_fields check_field_names is_extra_policy form_json
      validate_row_reference_field_defs is_reserved_metadata_form version_of entries
  normalize_form_definition_with_options form_def allow_reserved_metadata_form = do
    name ← ok_or (value_str "name" form_def) "Form definition missing 'name' field"
    guard (allow_reserved_metadata_form || not (is_reserved_metadata_form registry name))
        ("Form name '" ⧺ name ⧺ "' is reserved for metadata forms")
    check_field_names (entries (normalize_form_fields (value_get "fields" form_def)))
    validate_row_reference_field_defs
        (entries (normalize_form_fields (value_get "fields" form_def)))
    guard (is_extra_policy (or_else (value_str "allow_extra_attributes" form_def) "deny")) (
        "Invalid allow_extra_attributes value: "
        ⧺ or_else (value_str "allow_extra_attributes" form_def) "deny")
    ok (
        form_json name (version_of form_def) (normalize_form_fields (value_get "fields" form_def))
          (or_else (value_str "allow_extra_attributes" form_def) "deny"))

  unfoldable pub normalize_form_definition : Value → Result String Value
  unfolding normalize_form_definition_with_options
  normalize_form_definition form_def = normalize_form_definition_with_options form_def false

-- The loop of `validate_row_reference_targets`, with the available forms.
targets_exist : List String → List (String × Value) → Result String (Unit {0})
unfolding is_row_reference target_form any ◌==◌
targets_exist available [] = ok tt
targets_exist available ((name, def) ∷ rest) = elim (is_row_reference def) [
  | false ↦ targets_exist available rest
  | true ↦ do
    target ← ok_or (target_form def) ("row_reference field '" ⧺ name ⧺ "' requires target_form")
    guard (any (λ form. form == target) available)
        ("row_reference field '" ⧺ name ⧺ "' target_form '" ⧺ target ⧺ "' not found")
    targets_exist available rest
]

unfoldable validate_row_reference_targets : Store → String → Value → Result String (Unit {0})
unfolding value_get targets_exist entries list_form_names
validate_row_reference_targets store form_name form_def = elim (value_get "fields" form_def) [
  | some (object fs) ↦ targets_exist (form_name ∷ list_form_names store) (entries fs)
  | _ ↦ ok tt
]

heading_lines : List String → String
heading_lines [] = ""
heading_lines (name ∷ names) = "## " ⧺ name ⧺ "\n\n" ⧺ heading_lines names

unfoldable pub form_template_from_fields : String → Option Value → String
unfolding heading_lines sort_texts entries
form_template_from_fields form_name (some (object fs)) =
    "# " ⧺ form_name ⧺ "\n\n" ⧺ heading_lines (sort_texts (map (λ e. e.0) (entries fs)))
form_template_from_fields form_name _ = "# " ⧺ form_name ⧺ "\n\n"

-- `if let Some(obj) = enriched.as_object_mut()`
with_template : String → Value → Value
unfolding insert
with_template template (object fs) = object (insert "template" (string template) fs)
with_template template value = value

unfoldable pub enrich_form_definition : Value → Result String Value
unfolding value_str value_get form_template_from_fields with_template
enrich_form_definition form_def = do
  name ← ok_or (value_str "name" form_def) "Form definition missing 'name' field"
  ok (with_template (form_template_from_fields name (value_get "fields" form_def)) form_def)

unfoldable pub get_form : Store → String → Result String Value
unfolding load_form enrich_form_definition
get_form store form_name = do
  form ← load_form store form_name
  enrich_form_definition form.definition

-- The loop of `list_forms`.
list_named : Store → List String → Result String (List Value)
unfolding load_form enrich_form_definition
list_named store [] = ok []
list_named store (name ∷ names) =
    let rest = list_named store names in
    elim (load_form store name) [
      | err _ ↦ rest
      | ok form ↦
          enrich_form_definition form.definition >>= λ first. rest >>= λ forms. ok (first ∷ forms)
    ]

unfoldable list_forms : Store → Result String (List Value)
unfolding list_named list_form_names
list_forms store = list_named store (list_form_names store)
