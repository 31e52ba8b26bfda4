-- ===== src/Entry/Read.antt =====
-- Reading entries, their content and their history (`list_entries` to `get_entry_revision_content`,
-- `get_entry_history` and `get_entry_revision` of ugoite-core/src/entry.rs).
mod Rendered
unfoldable pub use Rendered.*
use Prim.Native.String.{compare}
use ugoite.Common.{
  ℕ, Ordering, String, Bool, true, ◌&&◌, not, Option, none, some, List, [], ◌∷◌, map, Result, ok,
  guard, ok_or, ◌>>=◌, ◌>>◌, ◌==◌, if◌then◌else◌, take, retain, sort_by,
}
use ugoite.Common.Text.{◌⧺◌, trim, is_empty, contains}
use ugoite.Json.{F64, Value, null, number, string, array, object, Values, nil, cons, end, float}
use ugoite.Json.Float.{f64_cmp}
use ugoite.Json.Object.{from_list, value_get}
use ugoite.Entry.Types.{Link, IntegrityPayload, EntryRow, RevisionRow, EntrySummary}
use ugoite.Entry.Render.{
  form_field_names, merge_entry_fields, render_markdown, sections_from_fields,
}
use ugoite.Entry.Cells.{ColumnCrates, value_as_f64, ◌>=>◌}
use ugoite.Entry.Rows.{FloatOps}
use ugoite.Entry.Store.{
  Store, FormTables, load_form, list_form_revision_rows, read_entry_row, list_entry_rows,
  find_entry_form,
}

module _ (crates : ColumnCrates) (floats : FloatOps) where
  open crates use {json}

  unfoldable pub list_entries : Store → List Value
  unfolding list_entry_rows json_entry retain
  list_entries store =
      map (λ e. json_entry e.0 e.1) (retain is_live (list_entry_rows crates floats store))

  -- `search_text.contains(expected_query)`, both in lower case.
  unfoldable pub in_query : Option String → EntryRow → Bool
  unfolding contains
  in_query none row = true
  in_query (some expected) row =
      contains (json.to_lowercase expected) (json.to_lowercase (row.title ⧺ "\n" ⧺ row.entry_id))

  unfoldable pub list_entry_summaries :
      Store → (form_filter query : Option String) → ℕ → List EntrySummary
  unfolding list_entry_rows normalized in_form in_query summary_order retain sort_by
  list_entry_summaries store form_filter query limit =
      let rows =
        retain
          (λ e.
            is_live e && in_form (normalized form_filter) e.0 && in_query (normalized query) e.1)
          (list_entry_rows crates floats store) in
      take limit (
        sort_by summary_order
          (map (λ e. record { id = e.1.entry_id; title = e.1.title; form = e.0 }) rows))

  -- `render_markdown` of a row's title and tags and of some fields.
  unfoldable pub markdown_of : String → EntryRow → Value → FormTables → String
  unfolding form_field_names render_markdown
  markdown_of form_name row merged_fields form =
      render_markdown json row.title form_name row.tags merged_fields
        (form_field_names form.definition)

  unfoldable pub json_full : String → String → EntryRow → FormTables → Value
  unfolding merge_entry_fields markdown_of frontmatter_of sections_from_fields json_texts json_links
      json_integrity array_of
  json_full entry_id form_name row form =
      let merged_fields = merge_entry_fields row.fields row.extra_attributes in
      object (
        from_list (
          ("id", string entry_id)
          ∷ ("revision_id", string row.revision_id)
          ∷ ("content", string (markdown_of form_name row merged_fields form))
          ∷ ("frontmatter", frontmatter_of form_name row.tags)
          ∷ ("sections", sections_from_fields json merged_fields)
          ∷ ("assets", array (array_of row.assets))
          ∷ ("computed", object end)
          ∷ ("title", string row.title)
          ∷ ("form", string row.form)
          ∷ ("tags", json_texts row.tags)
          ∷ ("links", json_links row.links)
          ∷ ("created_at", json_f64 row.created_at)
          ∷ ("updated_at", json_f64 row.updated_at)
          ∷ ("integrity", json_integrity row.integrity)
          ∷ []))

  unfoldable pub get_entry : Store → String → Result String Value
  unfolding find_entry_form read_entry_row load_form json_full
  get_entry store entry_id = do
    let missing = "Entry not found: " ⧺ entry_id
    form_name ← ok_or (find_entry_form crates floats store entry_id) missing
    row ← read_entry_row crates floats store form_name entry_id
    guard (not row.deleted) missing
    form ← load_form store form_name
    ok (json_full entry_id form_name row form)

  unfoldable pub get_entry_content : Store → String → Result String EntryContent
  unfolding find_entry_form read_entry_row load_form merge_entry_fields markdown_of frontmatter_of
      sections_from_fields
  get_entry_content store entry_id = do
    form_name ←
        ok_or (find_entry_form crates floats store entry_id)
          ("Entry content not found: " ⧺ entry_id)
    row ← read_entry_row crates floats store form_name entry_id
    form ← load_form store form_name
    let merged_fields = merge_entry_fields row.fields row.extra_attributes
    ok (record {
      revision_id = row.revision_id;
      parent_revision_id = row.parent_revision_id;
      author = row.author;
      markdown = markdown_of form_name row merged_fields form;
      frontmatter = frontmatter_of form_name row.tags;
      sections = sections_from_fields json merged_fields;
      assets = row.assets;
      computed = object end;
    })

  unfoldable pub get_entry_revision_content : Store → String → String → Result String EntryContent
  unfolding find_entry_form read_entry_row load_form list_form_revision_rows find_revision
      revision_not_found merge_entry_fields markdown_of frontmatter_of sections_from_fields
  get_entry_revision_content store entry_id revision_id = do
    let missing = "Entry content not found: " ⧺ entry_id
    form_name ← ok_or (find_entry_form crates floats store entry_id) missing
    row ← read_entry_row crates floats store form_name entry_id
    guard (not row.deleted) missing
    form ← load_form store form_name
    revision ←
        ok_or (find_revision entry_id revision_id (list_form_revision_rows crates floats form))
          (revision_not_found revision_id entry_id)
    let merged_fields = merge_entry_fields revision.fields revision.extra_attributes
    ok (record {
      revision_id = revision.revision_id;
      parent_revision_id = revision.parent_revision_id;
      author = revision.author;
      markdown = markdown_of form_name row merged_fields form;
      frontmatter = frontmatter_of form_name row.tags;
      sections = sections_from_fields json merged_fields;
      assets = [];
      computed = object end;
    })

  -- `.get("timestamp").and_then(|v| v.as_f64()).unwrap_or(0.0)`
  unfoldable pub timestamp_key : Value → F64
  unfolding value_get value_as_f64
  timestamp_key item = elim (value_get "timestamp" item >=> value_as_f64 crates) [
    | none ↦ 0
    | some f ↦ f
  ]

  unfoldable pub history_of : String → FormTables → List Value
  unfolding sort_by f64_cmp timestamp_key history_item retain list_form_revision_rows
  history_of entry_id form =
      sort_by (λ a b. f64_cmp (timestamp_key a) (timestamp_key b))
        (map history_item
          (retain (λ rev. rev.entry_id == entry_id) (list_form_revision_rows crates floats form)))

  unfoldable pub get_entry_history : Store → String → Result String Value
  unfolding find_entry_form load_form history_of array_of
  get_entry_history store entry_id = do
    form_name ←
        ok_or (find_entry_form crates floats store entry_id) ("Entry not found: " ⧺ entry_id)
    form ← load_form store form_name
    ok (
        object (
          from_list (
            ("entry_id", string entry_id)
            ∷ ("revisions", array (array_of (history_of entry_id form)))
            ∷ [])))

  -- The form of an entry, and one of its revisions.
  unfoldable pub revision_of : Store → String → String → Result String (String × RevisionRow)
  unfolding find_entry_form load_form list_form_revision_rows find_revision revision_not_found
  revision_of store entry_id revision_id = do
    form_name ←
        ok_or (find_entry_form crates floats store entry_id) ("Entry not found: " ⧺ entry_id)
    form ← load_form store form_name
    revision ←
        ok_or (find_revision entry_id revision_id (list_form_revision_rows crates floats form))
          (revision_not_found revision_id entry_id)
    ok (form_name, revision)

  unfoldable pub get_entry_revision : Store → String → String → Result String Value
  unfolding revision_of json_revision
  get_entry_revision store entry_id revision_id =
      revision_of store entry_id revision_id >>= λ found. ok (json_revision found.1)
