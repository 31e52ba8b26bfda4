-- ===== src/Index/Properties.antt =====
-- The properties of an entry and their types (`extract_properties` to `validate_properties` of
-- ugoite-core/src/index.rs). The field types fall into the same groups as those of the columns.
use Prim.Native.Char.{code}
use Prim.Native.String as Native
use ugoite.Common.{
  ℕ, ◌+◌, ◌*◌, ◌-◌, ◌/◌, String, Bool, true, false, ◌&&◌, ◌||◌, Option, none, some, List, [], ◌∷◌,
  Result, ok, err, ◌==◌, ltb, leb, nat_eq, if◌then◌else◌,
}
use ugoite.Common.Text.{◌⧺◌, trim, is_empty, lines, strip_prefix}
use ugoite.Json.{
  F64, Value, bool, number, string, array, object, Values, nil, cons, Fields, end, float, as_str,
}
use ugoite.Json.Object.{insert, value_get, from_list}
use ugoite.Entry.Sections.{MarkdownCrates, scan_sections}
use ugoite.Entry.Render.{entries_of, insert_all}
use ugoite.Entry.Cells.{
  ℤ, pos, negsuc, ColumnCrates, FieldType, double_type, float_type, integer_type, long_type,
  boolean_type, date_type, time_type, timestamp_type, timestamp_ns_type, uuid_type, binary_type,
  list_type, object_list_type, text_type, to_i32, as_i64, integer_value, ◌>=>◌, parse_binary_string,
  binary_to_base64, first_time,
}

-- The crates that the casts call, and the conversions of the standard library.
pub record PropertyCrates : Type 0 where
  pub markdown : MarkdownCrates
  pub columns : ColumnCrates
  -- `str::parse::<f64>`: `some none` for a text such as `NaN` or `inf`
  pub parse_f64 : String → Option (Option F64)
  -- `str::parse::<f32>`, then `Number::from_f64(f64::from(n))`
  pub parse_f32 : String → Option F64
  -- `DateTime::parse_from_rfc3339`, then UTC and `to_rfc3339`, or with nanoseconds
  pub rfc3339_utc : String → Option String
  pub rfc3339_utc_nanos : String → Option String

digits : ℕ → String → Option ℕ
digits n Native.[] = some n
digits n (Native.◌∷◌ c s) =
    let k = code c in
    let rest = digits (10 * n + (k - 48)) s in if leb 48 k && leb k 57 then rest else none

number_text : String → Option ℕ
unfolding digits
number_text Native.[] = none
number_text (Native.◌∷◌ c s) = digits 0 (Native.◌∷◌ c s)

negated : ℕ → ℤ
negated n = if nat_eq n 0 then pos 0 else negsuc (n - 1)

-- The integer of a text: an optional sign and at least one digit.
unfoldable pub integer_of_text : String → Option ℤ
unfolding number_text negated strip_prefix
integer_of_text s = elim (strip_prefix "-" s) [
  | some rest ↦ number_text rest >=> λ n. some (negated n)
  | none ↦ elim (strip_prefix "+" s) [
    | some rest ↦ number_text rest >=> λ n. some (pos n)
    | none ↦ number_text s >=> λ n. some (pos n)
  ]
]

to_i64 : ℤ → Option ℤ
to_i64 (pos n) = if ltb n 9223372036854775808 then some (pos n) else none
to_i64 (negsuc n) = if ltb n 9223372036854775808 then some (negsuc n) else none

-- A loop of `properties.insert`, for the sections that are not empty.
unfoldable pub insert_sections : List (String × String) → Fields → Fields
unfolding insert
insert_sections [] fs = fs
insert_sections ((key, text) ∷ rest) fs =
    insert_sections rest (if is_empty text then fs else insert key (string text) fs)

unfoldable pub front_matter : MarkdownCrates → String → Option Value × String
front_matter crates content = elim (crates.match_frontmatter content) [
  | none ↦ (none, content)
  | some (yaml, body) ↦ (crates.yaml_to_json yaml, body)
]

unfoldable pub entries_or_none : Option Value → List (String × Value)
unfolding entries_of
entries_or_none none = []
entries_or_none (some frontmatter) = entries_of frontmatter

unfoldable pub section_texts : String → List (String × String)
unfolding scan_sections lines
section_texts body = scan_sections none [] (lines body)

unfoldable pub extract_properties : MarkdownCrates → String → Value
unfolding front_matter entries_or_none insert_all insert_sections section_texts
extract_properties crates markdown =
    let parts = front_matter crates markdown in
    object (insert_sections (section_texts parts.1) (insert_all (entries_or_none parts.0) end))

-- The first of the prefixes that the line has is taken off it.
unfoldable pub strip_first : List String → String → String
unfolding strip_prefix
strip_first [] line = line
strip_first (prefix ∷ prefixes) line = elim (strip_prefix prefix line) [
  | none ↦ strip_first prefixes line
  | some rest ↦ rest
]

unfoldable pub list_item_of : String → String
unfolding strip_first
list_item_of trimmed =
    strip_first ("- [ ] " ∷ "- [x] " ∷ "- [X] " ∷ "- " ∷ "* " ∷ "+ " ∷ []) trimmed

unfoldable pub list_of_lines : List String → Values
unfolding list_item_of trim
list_of_lines [] = nil
list_of_lines (line ∷ rest) =
    let items = list_of_lines rest in
    let trimmed = trim line in
    let item = list_item_of trimmed in
    if is_empty trimmed || is_empty item then items else cons (string item) items

unfoldable pub parse_markdown_list : String → Values
unfolding list_of_lines lines
parse_markdown_list value = list_of_lines (lines value)

str_member : String → Value → Option String
unfolding value_get
str_member name item = value_get name item >=> as_str

-- Every item must be an object with the three texts.
unfoldable pub normalize_items : Values → Option Values
unfolding str_member
normalize_items nil = some nil
normalize_items (cons item items) =
    let rest = normalize_items items in
    str_member "type" item >=> λ var_type. str_member "name" item >=> λ name.
    str_member "description" item >=> λ description. rest >=> λ normalized. some (
      cons
        (object (
          from_list (
            ("type", string var_type)
            ∷ ("name", string name)
            ∷ ("description", string description)
            ∷ [])))
        normalized)

module _ (crates : PropertyCrates) where
  open crates use {markdown, columns, parse_f64, parse_f32, rfc3339_utc, rfc3339_utc_nanos}

  unfoldable pub parse_boolean : String → Option Bool
  unfolding trim
  parse_boolean value =
      let word = markdown.lowercase (trim value) in
      if word == "true" || word == "yes" || word == "on" || word == "1"
      then some true
      else (if word == "false" || word == "no" || word == "off" || word == "0"
          then some false
          else none)

  unfoldable pub normalize_time : String → Option String
  unfolding first_time trim
  normalize_time value =
      first_time columns ("%H:%M:%S%.f" ∷ "%H:%M:%S" ∷ "%H:%M" ∷ []) (trim value) >=> λ time.
      columns.show_time time.0 time.1 >=> λ shown.
      let micros = time.1 / 1000 in
      some (if nat_eq micros 0 then shown else shown ⧺ "." ⧺ columns.pad_six micros)

  unfoldable pub normalize_binary : String → Option String
  unfolding parse_binary_string binary_to_base64
  normalize_binary value =
      parse_binary_string columns value >=> λ bytes. some (binary_to_base64 columns bytes)

  unfoldable pub parse_object_list : Value → Option Value
  unfolding normalize_items
  parse_object_list (array items) = normalize_items items >=> λ vs. some (array vs)
  parse_object_list (string raw) = elim (columns.json.from_str raw) [
    | some (array items) ↦ normalize_items items >=> λ vs. some (array vs)
    | _ ↦ none
  ]
  parse_object_list _ = none

  -- A text of a number: what is not finite has no JSON number, and the `unwrap` panics.
  unfoldable pub cast_double : String → Result String (Option Value)
  cast_double s = elim (parse_f64 s) [
    | none ↦ ok none
    | some none ↦ err "called `Option::unwrap()` on a `None` value"
    | some (some f) ↦ ok (some (number (float f)))
  ]

  abbrev pub text_value : Option String → Option Value
  text_value s = s >=> λ t. some (string t)

  abbrev pub cast_text : (String → Option Value) → Value → Option Value
  cast_text f (string s) = f s
  cast_text f _ = none

  cast_integer : (ℤ → Option ℤ) → Value → Option Value
  unfolding as_i64 integer_of_text integer_value to_i64
  cast_integer fits (string s) = integer_of_text s >=> fits >=> λ i. some (integer_value i)
  cast_integer fits value = as_i64 value >=> fits >=> λ i. some (integer_value i)

  -- The value that a field of a type holds, from what the entry says; `none` is an invalid one.
  unfoldable pub cast_value : FieldType → Value → Result String (Option Value)
  unfolding cast_double cast_integer to_i32 to_i64 normalize_time normalize_binary
      parse_markdown_list parse_object_list parse_boolean
  cast_value double_type (number n) = ok (some (number n))
  cast_value double_type (string s) = cast_double s
  cast_value double_type _ = ok none
  cast_value float_type (number n) = ok (some (number n))
  cast_value float_type (string s) = ok (parse_f32 s >=> λ f. some (number (float f)))
  cast_value float_type _ = ok none
  cast_value integer_type value = ok (cast_integer to_i32 value)
  cast_value long_type value = ok (cast_integer to_i64 value)
  cast_value date_type value =
      ok (cast_text (λ s. text_value (columns.days_of_date s >=> columns.date_of_days)) value)
  cast_value time_type value = ok (cast_text (λ s. text_value (normalize_time s)) value)
  cast_value timestamp_type value = ok (cast_text (λ s. text_value (rfc3339_utc s)) value)
  cast_value timestamp_ns_type value = ok (cast_text (λ s. text_value (rfc3339_utc_nanos s)) value)
  cast_value uuid_type value =
      ok (cast_text (λ s. text_value (columns.parse_uuid s >=> columns.show_uuid)) value)
  cast_value binary_type value = ok (cast_text (λ s. text_value (normalize_binary s)) value)
  cast_value list_type (array items) = ok (some (array items))
  cast_value list_type (string s) = ok (some (array (parse_markdown_list s)))
  cast_value list_type _ = ok none
  cast_value object_list_type value = ok (parse_object_list value)
  cast_value boolean_type (bool b) = ok (some (bool b))
  cast_value boolean_type (string s) = ok (parse_boolean s >=> λ b. some (bool b))
  cast_value boolean_type _ = ok none
  cast_value text_type value = ok (some value)
