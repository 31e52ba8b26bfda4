-- ===== src/Index/Query.antt =====
-- A query of the index, in SQL or by filters (`query_index`, `extract_sql_query` and
-- `matches_filters`, ugoite-core/src/index.rs).
use ugoite.Common.{
  String, Bool, true, false, Option, none, some, List, [], ◌∷◌, Result, ok, err, ◌>>=◌,
  if◌then◌else◌, ◌==◌, any,
}
use ugoite.Common.Text.{trim, is_empty}
use ugoite.Json.{
  Value, null, string, object, array, Fields, end, field, as_object, as_array, as_str, is_object,
  items,
}
use ugoite.Json.Object.{get, value_get}
use ugoite.Sql.Syntax.{Statement}
use ugoite.Sql.Values.{Library, value_eq}
use ugoite.Entry.Types.{EntryRow}
use ugoite.Index.Tables.{entry_values, execute_sql_query}

-- The text under "$sql", or else under "sql".
unfoldable pub sql_entry : Fields → Option Value
sql_entry map = elim (get "$sql" map) [ some v ↦ some v | none ↦ get "sql" map ]

unfoldable pub extract_sql_query : Value → Option String
unfolding sql_entry trim
extract_sql_query (string text) = if is_empty (trim text) then none else some text
extract_sql_query (object map) = elim (sql_entry map) [ none ↦ none | some v ↦ as_str v ]
extract_sql_query _ = none

-- The value that a filter is compared with: of the entry, or else of its properties.
unfoldable pub entry_value : String → Value → Option Value
unfolding value_get
entry_value key entry = elim (value_get key entry) [
  | some v ↦ some v
  | none ↦ elim (value_get "properties" entry) [
    | none ↦ none
    | some (object props) ↦ get key props
    | some _ ↦ none
  ]
]

unfoldable pub holds_value : Value → Option Value → Bool
unfolding value_eq
holds_value expected (some (array list)) = any (λ v. value_eq v expected) (items list)
holds_value expected (some v) = value_eq v expected
holds_value expected none = false

unfoldable pub tags_of : Value → Option (List Value)
unfolding value_get
tags_of entry = elim (value_get "tags" entry) [ none ↦ none | some v ↦ as_array v ]

-- One round of the loop of `matches_filters`, once the filter is known to be no object.
unfoldable pub holds_filter : Value → String → Value → Bool
unfolding entry_value holds_value tags_of
holds_filter entry key expected =
    if key == "tag"
    then elim (tags_of entry) [
      | some tags ↦ any (λ v. value_eq v expected) tags
      | none ↦ holds_value expected (entry_value key entry)
    ]
    else holds_value expected (entry_value key entry)

abbrev pub structured : String
structured = "Structured operators (e.g., $gt) are not implemented for the local query helper yet."

unfoldable pub matches_filters : Value → Fields → Result String Bool
unfolding holds_filter
matches_filters entry end = ok true
matches_filters entry (field key expected filters) =
    let rest = matches_filters entry filters in
    if is_object expected
    then err structured
    else if holds_filter entry key expected
    then rest
    else ok false

-- The loop of `query_index` over the entries.
unfoldable pub filter_entries : Option Fields → List Value → Result String (List Value)
unfolding matches_filters
filter_entries none entries = ok entries
filter_entries (some filters) [] = ok []
filter_entries (some filters) (entry ∷ entries) =
    let later = filter_entries (some filters) entries in
    matches_filters entry filters >>= λ kept.
    later >>= λ rest. ok (if kept then entry ∷ rest else rest)

-- The value of the text of a query, by `serde_json::from_str`.
unfoldable pub query_value : (from_str : String → Option Value) → String → Value
unfolding trim
query_value from_str query =
    if is_empty (trim query) then null else elim (from_str query) [ none ↦ null | some v ↦ v ]

-- The calls after the forms and the entries are loaded.
unfoldable pub query_index :
    Library
    → (parser : String → Result String (List Statement)) → (from_str : String → Option Value)
    → (form_names : List String) → (entries : Fields) → (rows : List EntryRow) → (query : String)
    → Result String (List Value)
unfolding extract_sql_query filter_entries query_value execute_sql_query entry_values
query_index lib parser from_str form_names entries rows query =
    let parsed = query_value from_str query in
    elim (extract_sql_query parsed) [
      | some sql_query ↦ execute_sql_query lib parser form_names entries rows sql_query
      | none ↦ filter_entries (as_object parsed) (entry_values entries)
    ]
