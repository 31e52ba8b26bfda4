-- ===== src/Entry/Rows.antt =====
-- The rows of the tables of a form: how an entry and a revision are laid out in columns, and read
-- back (`now_ts` to `from_timestamp_micros`, `list_links_array_from_links` to
-- `integrity_from_struct_array`, and `entry_rows_from_batches` to `revision_row_to_record_batch` of
-- ugoite-core/src/entry.rs). An entry's row keeps neither its revision nor its author.
use ugoite.Common.{
  String, Bool, Option, none, some, List, [], ◌∷◌, map, if◌then◌else◌, Result, ok, err, ◌>>=◌,
}
use ugoite.Common.Text.{◌⧺◌, is_empty}
use ugoite.Json.{F64, Value, string, object}
use ugoite.Json.Object.{value_get, from_list}
use ugoite.Entry.Types.{Link, IntegrityPayload, EntryRow, RevisionRow}
use ugoite.Entry.Render.{extra_attributes_to_string, extra_attributes_from_string}
use ugoite.Entry.Cells.{
  ℤ, Cell, ColumnCrates, Table, declared_types, entries_table, revisions_table,
  struct_array_from_fields, value_from_struct_array,
}

-- The operations of f64 that the timestamps need.
pub record FloatOps : Type 0 where
  pub mul : F64 → F64 → F64
  pub div : F64 → F64 → F64
  pub add : F64 → F64 → F64
  -- `.round() as i64`, and `as f64`
  pub round_i64 : F64 → ℤ
  pub of_i64 : ℤ → F64

-- 1_000_000.0, 1000.0 and 0.001
abbrev million : F64
million = 4696837146684686336

abbrev thousand : F64
thousand = 4652007308841189376

abbrev pub millisecond : F64
millisecond = 4562254508917369340

module _ (floats : FloatOps) where
  open floats use {mul, div, round_i64, of_i64}

  -- `Utc::now().timestamp_millis()` is an argument.
  unfoldable pub now_ts : ℤ → F64
  now_ts millis = div (of_i64 millis) thousand

  unfoldable pub to_timestamp_micros : F64 → ℤ
  to_timestamp_micros ts = round_i64 (mul ts million)

  unfoldable pub from_timestamp_micros : ℤ → F64
  from_timestamp_micros micros = div (of_i64 micros) million

-- A row of the table of the entries.
pub record StoredEntry : Type 0 where
  pub entry_id : String
  pub title : String
  pub tags : List String
  -- id, target and kind
  pub links : List (String × String × String)
  pub created_at : ℤ
  pub updated_at : ℤ
  pub fields : List (String × Cell)
  pub extra_attributes : Option String
  -- id, name and path
  pub assets : List (String × String × String)
  pub integrity : IntegrityPayload
  pub deleted : Bool
  pub deleted_at : Option ℤ

pub record StoredRevision : Type 0 where
  pub revision_id : String
  pub entry_id : String
  pub parent_revision_id : Option String
  pub timestamp : ℤ
  pub author : String
  pub fields : List (String × Cell)
  pub extra_attributes : Option String
  pub markdown_checksum : String
  pub integrity : IntegrityPayload
  pub restored_from : Option String

abbrev pub map_option {ℓ κ} : {A : Type ℓ} {B : Type κ} → (A → B) → Option A → Option B
map_option f none = none
map_option f (some a) = some (f a)

unfoldable pub list_links_array_from_links : List Link → List (String × String × String)
list_links_array_from_links links = map (λ link. (link.id, link.target, link.kind)) links

-- A link without an id is skipped; the source of a link is the entry that holds it.
unfoldable pub list_links_from_array : String → List (String × String × String) → List Link
list_links_from_array source [] = []
list_links_from_array source ((id, target, kind) ∷ rest) =
    let links = list_links_from_array source rest in
    if is_empty id
    then links
    else record { id = id; source = source; target = target; kind = kind } ∷ links

-- `.and_then(|obj| obj.get(name)).and_then(|v| v.as_str()).unwrap_or("")`
text_member : String → Value → String
unfolding value_get
text_member name asset = elim (value_get name asset) [ some (string s) ↦ s | _ ↦ "" ]

unfoldable pub list_assets_array_from_values : List Value → List (String × String × String)
unfolding text_member
list_assets_array_from_values assets =
    map (λ asset. (text_member "id" asset, text_member "name" asset, text_member "path" asset))
      assets

unfoldable pub list_assets_from_array : List (String × String × String) → List Value
list_assets_from_array [] = []
list_assets_from_array ((id, name, path) ∷ rest) =
    let assets = list_assets_from_array rest in
    if is_empty id
    then assets
    else object (from_list (("id", string id) ∷ ("name", string name) ∷ ("path", string path) ∷ []))
      ∷ assets

module _ (crates : ColumnCrates) (floats : FloatOps) (form_def : Value) where
  open crates use {json, batch_error}

  -- `RecordBatch::try_new(..).map_err(..)`, for the columns of a row.
  unfoldable pub batch_of {ℓ} : {Row : Type ℓ} → Table → List String → Row → Result String Row
  unfolding declared_types
  batch_of table field_names row = elim (batch_error table (declared_types form_def field_names)) [
    | none ↦ ok row
    | some e ↦ err ("Record batch error: " ⧺ e)
  ]

  -- The columns of a row, with those of its fields.
  unfoldable pub entry_columns : List (String × Cell) → EntryRow → StoredEntry
  unfolding list_links_array_from_links to_timestamp_micros extra_attributes_to_string
      list_assets_array_from_values
  entry_columns fields row = record {
    entry_id = row.entry_id;
    title = row.title;
    tags = row.tags;
    links = list_links_array_from_links row.links;
    created_at = to_timestamp_micros floats row.created_at;
    updated_at = to_timestamp_micros floats row.updated_at;
    fields = fields;
    extra_attributes = extra_attributes_to_string json row.extra_attributes;
    assets = list_assets_array_from_values row.assets;
    integrity = row.integrity;
    deleted = row.deleted;
    deleted_at = map_option (to_timestamp_micros floats) row.deleted_at;
  }

  unfoldable pub entry_row_to_record_batch : List String → EntryRow → Result String StoredEntry
  unfolding struct_array_from_fields entry_columns batch_of
  entry_row_to_record_batch field_names row =
      struct_array_from_fields crates entries_table form_def row.fields field_names >>= λ fields.
      batch_of entries_table field_names (entry_columns fields row)

  unfoldable pub entry_row_from_batch : String → StoredEntry → EntryRow
  unfolding list_links_from_array from_timestamp_micros value_from_struct_array
      extra_attributes_from_string list_assets_from_array
  entry_row_from_batch form_name stored = record {
    entry_id = stored.entry_id;
    title = stored.title;
    form = form_name;
    tags = stored.tags;
    links = list_links_from_array stored.entry_id stored.links;
    created_at = from_timestamp_micros floats stored.created_at;
    updated_at = from_timestamp_micros floats stored.updated_at;
    fields = value_from_struct_array crates form_def stored.fields;
    extra_attributes = extra_attributes_from_string json stored.extra_attributes;
    revision_id = "";
    parent_revision_id = none;
    assets = list_assets_from_array stored.assets;
    integrity = stored.integrity;
    deleted = stored.deleted;
    deleted_at = map_option (from_timestamp_micros floats) stored.deleted_at;
    author = "";
  }

  unfoldable pub entry_rows_from_batches : String → List StoredEntry → List EntryRow
  unfolding entry_row_from_batch
  entry_rows_from_batches form_name rows = map (entry_row_from_batch form_name) rows

  -- The columns of a row, with those of its fields.
  unfoldable pub revision_columns : List (String × Cell) → RevisionRow → StoredRevision
  unfolding to_timestamp_micros extra_attributes_to_string
  revision_columns fields row = record {
    revision_id = row.revision_id;
    entry_id = row.entry_id;
    parent_revision_id = row.parent_revision_id;
    timestamp = to_timestamp_micros floats row.timestamp;
    author = row.author;
    fields = fields;
    extra_attributes = extra_attributes_to_string json row.extra_attributes;
    markdown_checksum = row.markdown_checksum;
    integrity = row.integrity;
    restored_from = row.restored_from;
  }

  unfoldable pub revision_row_to_record_batch :
      List String → RevisionRow → Result String StoredRevision
  unfolding struct_array_from_fields revision_columns batch_of
  revision_row_to_record_batch field_names row =
      struct_array_from_fields crates revisions_table form_def row.fields field_names >>= λ fields.
      batch_of revisions_table field_names (revision_columns fields row)

  unfoldable pub revision_row_from_batch : StoredRevision → RevisionRow
  unfolding from_timestamp_micros value_from_struct_array extra_attributes_from_string
  revision_row_from_batch stored = record {
    revision_id = stored.revision_id;
    entry_id = stored.entry_id;
    parent_revision_id = stored.parent_revision_id;
    timestamp = from_timestamp_micros floats stored.timestamp;
    author = stored.author;
    fields = value_from_struct_array crates form_def stored.fields;
    extra_attributes = extra_attributes_from_string json stored.extra_attributes;
    markdown_checksum = stored.markdown_checksum;
    integrity = stored.integrity;
    restored_from = stored.restored_from;
  }

  unfoldable pub revision_rows_from_batches : List StoredRevision → List RevisionRow
  unfolding revision_row_from_batch
  revision_rows_from_batches rows = map revision_row_from_batch rows
