-- ===== src/Entry/Render.antt =====
-- The fields of an entry and its Markdown (`extra_attributes_policy` to `form_field_defs`, and
-- `normalize_extra_attributes` to `extra_attributes_from_string`, of ugoite-core/src/entry.rs).
use Prim.Native.String.{compare}
use ugoite.Common.{
  Ordering, String, Bool, true, false, ◌||◌, not, Option, none, some, List, [], ◌∷◌, ◌++◌, map,
  ◌==◌, if◌then◌else◌, any, retain, sort_by, sort_texts,
}
use ugoite.Common.Text.{◌⧺◌, trim, trim_end, is_empty, join}
use ugoite.External.{External}
use ugoite.Json.{
  Value, null, bool, number, string, array, object, Values, nil, cons, Fields, end, entries,
}
use ugoite.Json.Object.{get, insert, value_get}

pub data ExtraAttributesPolicy : Type 0 where
  deny : ExtraAttributesPolicy
  allow_json : ExtraAttributesPolicy
  allow_columns : ExtraAttributesPolicy

unfoldable pub policy_named : String → ExtraAttributesPolicy
policy_named name =
    if name == "allow_json"
    then allow_json
    else (if name == "allow_columns" then allow_columns else deny)

unfoldable pub extra_attributes_policy : Value → ExtraAttributesPolicy
unfolding value_get policy_named
extra_attributes_policy form_def = elim (value_get "allow_extra_attributes" form_def) [
  | some (string name) ↦ policy_named name
  | _ ↦ deny
]

-- `HashSet::contains`
unfoldable pub contains_name : List String → String → Bool
unfolding any
contains_name names name = any (λ n. n == name) names

-- `entries.sort_by(|a, b| a.0.cmp(&b.0))`
abbrev pub key_order : String × Value → String × Value → Ordering
key_order a b = compare a.0 b.0

-- A loop of `map.insert(key, value)`.
unfoldable pub insert_all : List (String × Value) → Fields → Fields
unfolding insert
insert_all [] fs = fs
insert_all ((key, value) ∷ rest) fs = insert_all rest (insert key value fs)

-- The entries of an object; a value of another kind has none.
unfoldable pub entries_of : Value → List (String × Value)
unfolding entries
entries_of (object fs) = entries fs
entries_of _ = []

unfoldable pub collect_extra_attributes : Value → List String → List String × Value
unfolding entries_of contains_name retain sort_texts sort_by insert_all
collect_extra_attributes sections form_set =
    let extras = retain (λ e. not (contains_name form_set e.0)) (entries_of sections) in
    (sort_texts (map (λ e. e.0) extras), object (insert_all (sort_by key_order extras) end))

unfoldable pub merge_entry_fields : Value → Value → Value
unfolding entries_of insert_all
merge_entry_fields fields extra_attributes =
    object (insert_all (entries_of extra_attributes) (insert_all (entries_of fields) end))

-- The names of the items of an array of field definitions.
unfoldable pub names_of : Values → List String
unfolding value_get
names_of nil = []
names_of (cons item items) = elim (value_get "name" item) [
  | some (string name) ↦ name ∷ names_of items
  | _ ↦ names_of items
]

unfoldable pub form_field_names : Value → List String
unfolding value_get entries names_of
form_field_names form_def = elim (value_get "fields" form_def) [
  | some (object fs) ↦ map (λ e. e.0) (entries fs)
  | some (array items) ↦ names_of items
  | _ ↦ []
]

-- `def.get("type").and_then(|v| v.as_str()).unwrap_or("string")`
unfoldable pub type_of : Value → String
unfolding value_get
type_of field_def = elim (value_get "type" field_def) [ some (string name) ↦ name | _ ↦ "string" ]

unfoldable pub defs_of : Values → List (String × String)
unfolding value_get type_of
defs_of nil = []
defs_of (cons item items) = elim (value_get "name" item) [
  | some (string name) ↦ (name, type_of item) ∷ defs_of items
  | _ ↦ defs_of items
]

unfoldable pub form_field_defs : Value → List (String × String)
unfolding value_get entries type_of defs_of
form_field_defs form_def = elim (value_get "fields" form_def) [
  | some (object fs) ↦ map (λ e. (e.0, type_of e.1)) (entries fs)
  | some (array items) ↦ defs_of items
  | _ ↦ []
]

tag_lines : List String → String
tag_lines [] = ""
tag_lines (tag ∷ tags) = "  - " ⧺ tag ⧺ "\n" ⧺ tag_lines tags

unfoldable pub render_frontmatter : String → List String → String
unfolding tag_lines
render_frontmatter form_name [] = "---\n" ⧺ "form: " ⧺ form_name ⧺ "\n" ⧺ "---\n"
render_frontmatter form_name (tag ∷ tags) =
    "---\n" ⧺ "form: " ⧺ form_name ⧺ "\n" ⧺ "tags:\n" ⧺ tag_lines (tag ∷ tags) ⧺ "---\n"

abbrev pub show_bool : Bool → String
show_bool true = "true"
show_bool false = "false"

-- `Value::Object(_) | Value::Array(_)`
abbrev pub is_complex : Value → Bool
is_complex (object _) = true
is_complex (array _) = true
is_complex _ = false

unfoldable pub has_complex : Values → Bool
has_complex nil = false
has_complex (cons item items) = is_complex item || has_complex items

-- The fields in the order of the form, then the others by name.
unfoldable pub fields_in_order : List String → Fields → List (String × Value)
unfolding get
fields_in_order [] fs = []
fields_in_order (name ∷ names) fs = elim (get name fs) [
  | none ↦ fields_in_order names fs
  | some value ↦ (name, value) ∷ fields_in_order names fs
]

unfoldable pub ordered_fields : Value → List String → List (String × Value)
unfolding fields_in_order contains_name retain sort_by entries
ordered_fields (object fs) field_order =
    fields_in_order field_order fs
    ++ sort_by key_order (retain (λ e. not (contains_name field_order e.0)) (entries fs))
ordered_fields _ field_order = []

unfoldable pub normalize_extra_attributes : Value → Value
unfolding entries sort_by insert_all
normalize_extra_attributes (object fs) = object (insert_all (sort_by key_order (entries fs)) end)
normalize_extra_attributes value = value

module _ (x : External) where
  open x use {to_string, from_str}

  -- An item of a list: a number is displayed as it is serialized.
  list_item : Value → String
  list_item (string s) = "- " ⧺ s
  list_item (number n) = "- " ⧺ to_string (number n)
  list_item (bool b) = "- " ⧺ show_bool b
  list_item _ = "-"

  list_items : Values → List String
  unfolding list_item
  list_items nil = []
  list_items (cons item items) = list_item item ∷ list_items items

  unfoldable pub section_value_to_string : Value → String
  unfolding has_complex list_items join
  section_value_to_string null = ""
  section_value_to_string (string s) = s
  section_value_to_string (number n) = to_string (number n)
  section_value_to_string (bool b) = show_bool b
  section_value_to_string (array items) =
      if has_complex items then to_string (array items) else join "\n" (list_items items)
  section_value_to_string (object fs) = to_string (object fs)

  unfoldable pub render_sections : List (String × Value) → String
  unfolding section_value_to_string
  render_sections [] = ""
  render_sections ((name, value) ∷ rest) =
      let rendered = section_value_to_string value in
      "## "
      ⧺ name
      ⧺ "\n"
      ⧺ (if is_empty rendered then "" else rendered ⧺ "\n")
      ⧺ "\n"
      ⧺ render_sections rest

  unfoldable pub render_markdown : String → String → List String → Value → List String → String
  unfolding render_frontmatter ordered_fields render_sections trim_end
  render_markdown title form_name tags fields field_order = trim_end (
      render_frontmatter form_name tags
      ⧺ "# "
      ⧺ title
      ⧺ "\n\n"
      ⧺ render_sections (ordered_fields fields field_order))

  unfoldable pub sections_from_fields : Value → Value
  unfolding entries_of insert_all section_value_to_string
  sections_from_fields fields =
      object (
        insert_all (map (λ e. (e.0, string (section_value_to_string e.1))) (entries_of fields)) end)

  unfoldable pub render_markdown_for_form :
      String → String → List String → Value → Value → Value → String
  unfolding form_field_names merge_entry_fields render_markdown
  render_markdown_for_form title form_name tags fields extra_attributes form_def =
      render_markdown title form_name tags (merge_entry_fields fields extra_attributes)
        (form_field_names form_def)

  unfoldable pub extra_attributes_to_string : Value → Option String
  unfolding normalize_extra_attributes
  extra_attributes_to_string null = none
  extra_attributes_to_string (object end) = none
  extra_attributes_to_string value = some (to_string (normalize_extra_attributes value))

  unfoldable pub extra_attributes_from_string : Option String → Value
  unfolding trim
  extra_attributes_from_string none = object end
  extra_attributes_from_string (some raw) =
      if is_empty (trim raw)
      then object end
      else elim (from_str raw) [ none ↦ object end | some value ↦ value ]
