-- ===== src/Index/Stats.antt =====
-- The counts of a space by form, by field and by tag (`aggregate_stats`, ugoite-core/src/index.rs).
use ugoite.Common.{ℕ, zero, suc, ◌+◌, String, Option, none, some, List, [], ◌∷◌, length}
use ugoite.Common.Maps.{HashMap, lookup, put}
use ugoite.Json.{
  Value, pos_int, number, string, array, object, Values, nil, cons, Fields, end, entries,
}
use ugoite.Json.Object.{get, insert, value_get, from_list}

-- `.and_then(|v| v.as_u64()).unwrap_or(0)`
unfoldable pub count_of : Option Value → ℕ
count_of (some (number (pos_int n))) = n
count_of _ = zero

unfoldable pub count_value : ℕ → Value
count_value n = number (pos_int n)

-- A field counts once more, for each entry of the properties.
count_fields : List (String × Value) → Fields → Fields
unfolding get insert count_of count_value
count_fields [] field_map = field_map
count_fields ((key, _) ∷ rest) field_map =
    count_fields rest (insert key (count_value (count_of (get key field_map) + 1)) field_map)

property_entries : Value → List (String × Value)
unfolding value_get entries
property_entries record_value = elim (value_get "properties" record_value) [
  | some (object props) ↦ entries props
  | _ ↦ []
]

-- `entry("fields").or_insert_with(..)`, counted where it is an object.
with_fields : Value → Fields → Fields
unfolding get insert count_fields property_entries
with_fields record_value entry = elim (get "fields" entry) [
  | none ↦ insert "fields" (object (count_fields (property_entries record_value) end)) entry
  | some (object field_map) ↦
      insert "fields" (object (count_fields (property_entries record_value) field_map)) entry
  | some _ ↦ entry
]

-- The counts of a form, for one more record.
unfoldable pub count_form : Value → Fields → Fields
unfolding get insert count_of count_value with_fields
count_form record_value entry =
    with_fields record_value (insert "count" (count_value (count_of (get "count" entry) + 1)) entry)

record Counts : Type 0 where
  pub form_stats : HashMap Fields
  pub tag_counts : HashMap ℕ
  pub uncategorized : ℕ

abbrev or_default : Option Fields → Fields
or_default none = end
or_default (some fs) = fs

abbrev or_zero : Option ℕ → ℕ
or_zero none = zero
or_zero (some n) = n

count_tags : Values → HashMap ℕ → HashMap ℕ
unfolding lookup put
count_tags nil counts = counts
count_tags (cons (string tag) tags) counts =
    count_tags tags (put tag (or_zero (lookup tag counts) + 1) counts)
count_tags (cons _ tags) counts = count_tags tags counts

-- `record.get("form").or_else(|| record.get("properties").and_then(|v| v.get("form")))`
entry_form : Value → Option Value
unfolding value_get
entry_form record_value = elim (value_get "form" record_value) [
  | some form ↦ some form
  | none ↦ elim (value_get "properties" record_value) [
    | none ↦ none
    | some properties ↦ value_get "form" properties
  ]
]

count_record : Value → Counts → Counts
unfolding entry_form value_get lookup put count_form count_tags
count_record record_value counts =
    let tag_counts : HashMap ℕ = elim (value_get "tags" record_value) [
      | some (array tags) ↦ count_tags tags counts.tag_counts
      | _ ↦ counts.tag_counts
    ] in
    elim (entry_form record_value) [
      | some (string form_name) ↦ record {
        form_stats =
            put form_name
              (count_form record_value (or_default (lookup form_name counts.form_stats)))
              counts.form_stats;
        tag_counts = tag_counts;
        uncategorized = counts.uncategorized;
      }
      | _ ↦ record {
        form_stats = counts.form_stats;
        tag_counts = tag_counts;
        uncategorized = suc counts.uncategorized;
      }
    ]

count_records : List (String × Value) → Counts → Counts
unfolding count_record
count_records [] counts = counts
count_records ((_, record_value) ∷ rest) counts =
    count_records rest (count_record record_value counts)

-- `.collect()` into a `Map`
form_objects : HashMap Fields → Fields → Fields
unfolding insert
form_objects [] fs = fs
form_objects ((k, v) ∷ rest) fs = form_objects rest (insert k (object v) fs)

tag_numbers : HashMap ℕ → Fields → Fields
unfolding insert count_value
tag_numbers [] fs = fs
tag_numbers ((k, v) ∷ rest) fs = tag_numbers rest (insert k (count_value v) fs)

unfoldable pub aggregate_stats : Fields → Value
unfolding count_records form_objects tag_numbers count_value insert from_list entries
aggregate_stats records =
    let counts =
      count_records (entries records)
        (record { form_stats = []; tag_counts = []; uncategorized = zero }) in
    object (
      from_list (
        ("entry_count", count_value (length (entries records)))
        ∷ (
          "form_stats",
          object (
              insert "_uncategorized"
                (object (insert "count" (count_value counts.uncategorized) end))
                (form_objects counts.form_stats end)),
        )
        ∷ ("tag_counts", object (tag_numbers counts.tag_counts end))
        ∷ []))
