-- ===== src/Index/Tables.antt =====
-- The tables of a SQL query and the scope of its reader (`build_sql_tables`,
-- `filter_entries_for_sql_scope` and `execute_sql_query_scoped`, ugoite-core/src/index.rs).
use ugoite.Common.{
  String, Bool, true, false, ◌&&◌, ◌||◌, not, Option, none, some, List, [], ◌∷◌, ◌++◌, Result,
  ◌>>=◌, if◌then◌else◌, ◌==◌,
}
use ugoite.Common.Text.{eq_ignore_ascii_case}
use ugoite.Common.Maps.{put}
use ugoite.Json.{Value, null, string, object, Fields, end, field, as_str}
use ugoite.Json.Object.{get, value_get, from_list}
use ugoite.Entry.Types.{Link, EntryRow}
use ugoite.Sql.Syntax.{Statement}
use ugoite.Sql.Parse.{parse_sql}
use ugoite.Sql.Values.{Library}
use ugoite.Sql.Run.{Tables, filter_entries_by_sql}

-- `.get("form").and_then(|v| v.as_str())`
unfoldable pub form_of : Value → Option String
unfolding value_get
form_of entry = elim (value_get "form" entry) [ none ↦ none | some v ↦ as_str v ]

-- The values of a map of entries.
unfoldable pub entry_values : Fields → List Value
entry_values end = []
entry_values (field entry_id entry fs) = entry ∷ entry_values fs

-- `HashSet::contains` on the keys of a map of entries.
unfoldable pub is_visible : Fields → String → Bool
unfolding get
is_visible entries entry_id = elim (get entry_id entries) [ none ↦ false | some _ ↦ true ]

-- `entry_form_map.get(id).cloned()`
unfoldable pub form_or_null : Fields → String → Value
unfolding form_of
form_or_null entries entry_id = elim (get entry_id entries) [
  | none ↦ null
  | some entry ↦ elim (form_of entry) [ none ↦ null | some form ↦ string form ]
]

unfoldable pub has_form : String → Value → Bool
unfolding form_of eq_ignore_ascii_case
has_form form_name entry = elim (form_of entry) [
  | none ↦ false
  | some form ↦ eq_ignore_ascii_case form form_name
]

unfoldable pub form_rows : String → List Value → List Value
unfolding has_form
form_rows form_name [] = []
form_rows form_name (entry ∷ entries) =
    let rest = form_rows form_name entries in
    if has_form form_name entry then entry ∷ rest else rest

unfoldable pub link_row : Fields → Link → Value
unfolding form_or_null
link_row entries link = object (
    from_list (
      ("id", string link.id)
      ∷ ("source", string link.source)
      ∷ ("target", string link.target)
      ∷ ("kind", string link.kind)
      ∷ ("source_form", form_or_null entries link.source)
      ∷ ("target_form", form_or_null entries link.target)
      ∷ []))

-- The rows of the links of an entry: only those whose two ends are visible.
unfoldable pub link_rows : Fields → List Link → List Value
unfolding is_visible link_row
link_rows entries [] = []
link_rows entries (link ∷ links) =
    let rest = link_rows entries links in
    if is_visible entries link.source && is_visible entries link.target
    then link_row entries link ∷ rest
    else rest

abbrev pub value_or_null : Option Value → Value
value_or_null none = null
value_or_null (some v) = v

unfoldable pub asset_row : String → Fields → Value
asset_row entry_id obj = object (
    from_list (
      ("id", value_or_null (get "id" obj))
      ∷ ("entry_id", string entry_id)
      ∷ ("name", value_or_null (get "name" obj))
      ∷ ("path", value_or_null (get "path" obj))
      ∷ []))

unfoldable pub asset_rows : String → List Value → List Value
unfolding asset_row
asset_rows entry_id [] = []
asset_rows entry_id (object obj ∷ assets) = asset_row entry_id obj ∷ asset_rows entry_id assets
asset_rows entry_id (_ ∷ assets) = asset_rows entry_id assets

-- The rows of the tables `links` and `assets`, from the rows of the entries that are not deleted
-- and visible.
unfoldable pub related_rows : Fields → List EntryRow → List Value × List Value
unfolding link_rows asset_rows
related_rows entries [] = ([], [])
related_rows entries (row ∷ rows) =
    let rest = related_rows entries rows in
    if row.deleted || not (is_visible entries row.entry_id)
    then rest
    else (link_rows entries row.links ++ rest.0, asset_rows row.entry_id row.assets ++ rest.1)

module _ (lib : Library) where
  open lib use {to_lowercase}

  -- A table for each form, of the entries whose form has that name up to ASCII case.
  unfoldable pub form_tables : List String → List Value → Tables → Tables
  unfolding form_rows put
  form_tables [] entries tables = tables
  form_tables (form_name ∷ names) entries tables =
      form_tables names entries (put (to_lowercase form_name) (form_rows form_name entries) tables)

  -- `rows` is what `entry::list_entry_rows` returns to this call.
  unfoldable pub build_sql_tables : List EntryRow → List String → Fields → Tables
  unfolding form_tables entry_values related_rows
  build_sql_tables rows form_names entries =
      let related = related_rows entries rows in
      put "assets" related.1 (
        put "links" related.0
          (form_tables form_names (entry_values entries) (put "entries" (entry_values entries) [])))

  -- `readable_form_set.contains(name)`
  unfoldable pub in_forms : List String → String → Bool
  in_forms [] name = false
  in_forms (form ∷ forms) name = (to_lowercase form == name) || in_forms forms name

  unfoldable pub is_readable : List String → Bool → Value → Bool
  unfolding form_of in_forms
  is_readable readable_forms include_untyped entry = elim (form_of entry) [
    | none ↦ include_untyped
    | some form_name ↦ in_forms readable_forms (to_lowercase form_name)
  ]

  unfoldable pub filter_entries_for_sql_scope : Fields → List String → Bool → Fields
  unfolding is_readable
  filter_entries_for_sql_scope end readable_forms include_untyped = end
  filter_entries_for_sql_scope (field entry_id entry fs) readable_forms include_untyped =
      let rest = filter_entries_for_sql_scope fs readable_forms include_untyped in
      if is_readable readable_forms include_untyped entry then field entry_id entry rest else rest

  -- `execute_sql_query`, after the forms and the entries are loaded
  unfoldable pub execute_sql_query :
      (parser : String → Result String (List Statement))
      → (form_names : List String) → (entries : Fields) → (rows : List EntryRow)
      → (sql_query : String) → Result String (List Value)
  unfolding build_sql_tables parse_sql filter_entries_by_sql
  execute_sql_query parser form_names entries rows sql_query = do
    parsed ← parse_sql parser sql_query
    filter_entries_by_sql lib (build_sql_tables rows form_names entries) parsed

  -- The calls after the forms and the entries are loaded; `parser` is that of `parse_sql`.
  unfoldable pub execute_sql_query_scoped :
      (parser : String → Result String (List Statement))
      → (form_names : List String) → (entries : Fields) → (rows : List EntryRow)
      → (sql_query : String) → (readable_forms : List String) → (include_untyped : Bool)
      → Result String (List Value)
  unfolding build_sql_tables filter_entries_for_sql_scope parse_sql filter_entries_by_sql
  execute_sql_query_scoped parser form_names entries rows sql_query readable_forms include_untyped =
      do
        let scoped = filter_entries_for_sql_scope entries readable_forms include_untyped
        parsed ← parse_sql parser sql_query
        filter_entries_by_sql lib (build_sql_tables rows form_names scoped) parsed
