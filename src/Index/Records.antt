-- ===== src/Index/Records.antt =====
-- The records of a space that a query reads (`load_forms`, `collect_entries`, `build_record` and
-- `get_space_stats` of ugoite-core/src/index.rs), and the count of words (ugoite-minimum/src/text.rs).
use Prim.Native.Char.{code}
use Prim.Native.String as Native
use ugoite.Common.{
  ℕ, zero, suc, String, Bool, true, false, Option, none, some, List, [], ◌∷◌, last?, ok, err,
  if◌then◌else◌,
}
use ugoite.Common.Text.{split, is_whitespace}
use ugoite.Common.Maps.{HashMap, lookup, put}
use ugoite.Json.{Value, string, array, object, Fields, end}
use ugoite.Json.Object.{insert, from_list}
use ugoite.Entry.Types.{EntryRow}
use ugoite.Entry.Render.{merge_entry_fields}
use ugoite.Entry.Rows.{FloatOps}
use ugoite.Entry.Store.{Store, list_entry_rows, list_form_names}
use ugoite.Entry.Read.{array_of, json_texts, json_links, json_f64}
use ugoite.Forms.{get_form}
use ugoite.Index.Properties.{PropertyCrates}
use ugoite.Index.Validation.{validate_properties}
use ugoite.Index.Stats.{count_value, aggregate_stats}

-- `content.split_whitespace().count()`: a word is counted where it begins.
words_from : Bool → String → ℕ
words_from inside Native.[] = zero
words_from inside (Native.◌∷◌ c s) =
    let after_space = words_from false s in
    let after_letter = words_from true s in
    if is_whitespace (code c)
    then after_space
    else if inside
    then after_letter
    else suc after_letter

unfoldable pub compute_word_count : String → ℕ
unfolding words_from
compute_word_count content = words_from false content

load_named : Store → List String → HashMap Value → HashMap Value
unfolding get_form put
load_named store [] forms = forms
load_named store (form_name ∷ names) forms = elim (get_form store form_name) [
  | ok value ↦ load_named store names (put form_name value forms)
  | err _ ↦ load_named store names forms
]

unfoldable pub load_forms : Store → HashMap Value
unfolding load_named list_form_names
load_forms store = load_named store (list_form_names store) []

-- `ws_path.split('/').next_back().unwrap_or("")`
last_segment : String → String
unfolding last? split
last_segment ws_path = elim (last? (split b'/' ws_path)) [ none ↦ "" | some id ↦ id ]

module _ (crates : PropertyCrates) (floats : FloatOps) where
  open crates use {columns}
  open columns use {json}
  open json use {to_string}

  -- The properties of a record with the warnings of their validation.
  unfoldable pub checked_properties : String → EntryRow → HashMap Value → Value × List Value
  unfolding lookup merge_entry_fields validate_properties
  checked_properties form_name row forms =
      let properties = merge_entry_fields row.fields row.extra_attributes in
      elim (lookup form_name forms) [
        | none ↦ (properties, [])
        | some form_def ↦ elim (validate_properties crates properties form_def) [
          | ok checked ↦ checked
          | err _ ↦ (properties, [])
        ]
      ]

  unfoldable pub build_record : String → String → EntryRow → HashMap Value → Option Value
  unfolding checked_properties compute_word_count last_segment json_texts json_links array_of
      count_value from_list
  build_record ws_path form_name row forms =
      let (properties, warnings) = checked_properties form_name row forms in
      if row.deleted
      then none
      else some (
          object (
            from_list (
              ("id", string row.entry_id)
              ∷ ("title", string row.title)
              ∷ ("form", string form_name)
              ∷ ("updated_at", json_f64 row.updated_at)
              ∷ ("space_id", string (last_segment ws_path))
              ∷ ("properties", properties)
              ∷ ("word_count", count_value (compute_word_count (to_string properties)))
              ∷ ("tags", json_texts row.tags)
              ∷ ("links", json_links row.links)
              ∷ ("assets", array (array_of row.assets))
              ∷ ("checksum", string row.integrity.checksum)
              ∷ ("validation_warnings", array (array_of warnings))
              ∷ [])))

  collect_from : String → HashMap Value → List (String × EntryRow) → Fields → Fields
  unfolding build_record insert
  collect_from ws_path forms [] records = records
  collect_from ws_path forms ((form_name, row) ∷ rows) records =
      elim (build_record ws_path form_name row forms) [
        | none ↦ collect_from ws_path forms rows records
        | some value ↦ collect_from ws_path forms rows (insert row.entry_id value records)
      ]

  unfoldable pub collect_entries : String → Store → HashMap Value → Fields
  unfolding collect_from list_entry_rows
  collect_entries ws_path store forms =
      collect_from ws_path forms (list_entry_rows columns floats store) end

  unfoldable get_space_stats : String → Store → Value
  unfolding aggregate_stats collect_entries load_forms
  get_space_stats ws_path store = aggregate_stats (collect_entries ws_path store (load_forms store))
