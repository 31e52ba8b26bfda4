-- ===== src/Entry/Store.antt =====
-- The tables of a space and how entries are read from them (`latest_revision_for_entry` and
-- `list_form_names` to `append_revision_row_for_form` of ugoite-core/src/entry.rs). The tables only
-- grow, and a scan is in the order of the appends.
use ugoite.Common.{
  String, Bool, true, false, Ordering, Option, none, some, List, [], ◌∷◌, ◌++◌, map, Result, ok,
  err, ok_or, ◌>>=◌, ◌==◌, if◌then◌else◌,
}
use ugoite.Common.Text.{◌⧺◌, is_empty}
use ugoite.Common.Maps.{HashMap, lookup, put}
use ugoite.Json.{F64, Value}
use ugoite.Json.Float.{f64_cmp}
use ugoite.Entry.Types.{EntryRow, RevisionRow}
use ugoite.Entry.Cells.{ColumnCrates}
use ugoite.Entry.Rows.{
  FloatOps, StoredEntry, StoredRevision, entry_row_to_record_batch, entry_rows_from_batches,
  revision_row_to_record_batch, revision_rows_from_batches,
}

-- A form of a space: its definition, the columns of its fields, and its two tables.
pub record FormTables : Type 0 where
  pub definition : Value
  pub field_names : List String
  pub entry_rows : List StoredEntry
  pub revision_rows : List StoredRevision

-- The forms of a space, by name.
abbrev pub Store : Type 0
Store = HashMap FormTables

abbrev pub is_ge : Ordering → Bool
is_ge Ordering.lt = false
is_ge _ = true

-- `a >= b`
unfoldable pub f64_ge : F64 → F64 → Bool
unfolding f64_cmp
f64_ge a b = is_ge (f64_cmp a b)

-- `?` in a call that writes: what was written before a failure stays.
abbrev pub and_then :
    {A B : Type 0}
    → Store
    → Result String B
    → (B → Result String A × Store)
    → Result String A × Store
and_then store (err message) next = (err message, store)
and_then store (ok b) next = next b

-- The last of the rows of an entry with the greatest time.
unfoldable pub newer_entry : EntryRow → Option EntryRow → Option EntryRow
unfolding f64_ge
newer_entry row none = some row
newer_entry row (some existing) =
    if f64_ge row.updated_at existing.updated_at then some row else some existing

unfoldable pub latest_entry : String → List EntryRow → Option EntryRow → Option EntryRow
unfolding newer_entry ◌==◌
latest_entry entry_id [] selected = selected
latest_entry entry_id (row ∷ rows) selected =
    latest_entry entry_id rows
      (if row.entry_id == entry_id then newer_entry row selected else selected)

unfoldable pub newer_revision : RevisionRow → Option RevisionRow → Option RevisionRow
unfolding f64_ge
newer_revision row none = some row
newer_revision row (some existing) =
    if f64_ge row.timestamp existing.timestamp then some row else some existing

unfoldable pub latest_revision : String → List RevisionRow → Option RevisionRow → Option RevisionRow
unfolding newer_revision
latest_revision entry_id [] selected = selected
latest_revision entry_id (row ∷ rows) selected =
    latest_revision entry_id rows
      (if row.entry_id == entry_id then newer_revision row selected else selected)

-- What the latest revision says of an entry.
unfoldable pub with_revision : Option RevisionRow → EntryRow → EntryRow
with_revision none row = row
with_revision (some latest) row = record row {
  revision_id = latest.revision_id;
  parent_revision_id = latest.parent_revision_id;
  author = latest.author;
  integrity = if is_empty row.integrity.checksum then latest.integrity else row.integrity;
}

-- A row is kept if its entry has none yet, or none that is newer.
unfoldable pub keep_row :
    String → EntryRow → HashMap (String × EntryRow) → HashMap (String × EntryRow)
unfolding lookup put f64_ge
keep_row form_name row latest = elim (lookup row.entry_id latest) [
  | none ↦ put row.entry_id (form_name, row) latest
  | some existing ↦
      if f64_ge row.updated_at existing.1.updated_at
      then put row.entry_id (form_name, row) latest
      else latest
]

-- The latest row of every entry, with its form.
unfoldable pub keep_latest :
    String → List EntryRow → HashMap (String × EntryRow) → HashMap (String × EntryRow)
unfolding keep_row
keep_latest form_name [] latest = latest
keep_latest form_name (row ∷ rows) latest =
    keep_latest form_name rows (keep_row form_name row latest)

-- `into_values`
unfoldable pub into_values {ℓ} : {V : Type ℓ} → HashMap V → List V
into_values [] = []
into_values ((key, value) ∷ m) = value ∷ into_values m

-- `find(|(_, row)| row.entry_id == entry_id).map(|(form_name, _)| form_name)`
unfoldable pub form_of_entry : String → List (String × EntryRow) → Option String
form_of_entry entry_id [] = none
form_of_entry entry_id ((form_name, row) ∷ rows) =
    if row.entry_id == entry_id then some form_name else form_of_entry entry_id rows

unfoldable pub list_form_names : Store → List String
list_form_names store = map (λ form. form.0) store

unfoldable pub load_form : Store → String → Result String FormTables
unfolding lookup
load_form store form_name = ok_or (lookup form_name store) ("Form " ⧺ form_name ⧺ " not found")

module _ (crates : ColumnCrates) (floats : FloatOps) where
  -- The rows of the two tables of a form.
  unfoldable pub entry_rows_of : String → FormTables → List EntryRow
  unfolding entry_rows_from_batches
  entry_rows_of form_name form =
      entry_rows_from_batches crates floats form.definition form_name form.entry_rows

  unfoldable pub list_form_revision_rows : FormTables → List RevisionRow
  unfolding revision_rows_from_batches
  list_form_revision_rows form =
      revision_rows_from_batches crates floats form.definition form.revision_rows

  unfoldable pub latest_revision_for_entry : FormTables → String → Option RevisionRow
  unfolding latest_revision list_form_revision_rows
  latest_revision_for_entry form entry_id =
      latest_revision entry_id (list_form_revision_rows form) none

  unfoldable pub read_entry_row : Store → String → String → Result String EntryRow
  unfolding load_form entry_rows_of latest_entry latest_revision_for_entry with_revision
  read_entry_row store form_name entry_id = load_form store form_name >>= λ form.
      ok_or (latest_entry entry_id (entry_rows_of form_name form) none)
        ("Entry not found: " ⧺ entry_id)
      >>= λ selected. ok (with_revision (latest_revision_for_entry form entry_id) selected)

  unfoldable pub write_entry_row : Store → String → EntryRow → Result String Store
  unfolding load_form put entry_row_to_record_batch
  write_entry_row store form_name row = load_form store form_name >>= λ form.
      entry_row_to_record_batch crates floats form.definition form.field_names row >>= λ stored.
      ok (put form_name (record form { entry_rows = form.entry_rows ++ stored ∷ [] }) store)

  unfoldable pub append_revision_row_for_form : Store → String → RevisionRow → Result String Store
  unfolding load_form put revision_row_to_record_batch
  append_revision_row_for_form store form_name row = load_form store form_name >>= λ form.
      revision_row_to_record_batch crates floats form.definition form.field_names row >>= λ stored.
      ok (put form_name (record form { revision_rows = form.revision_rows ++ stored ∷ [] }) store)

  -- The loop over the forms of the space.
  unfoldable pub latest_rows : Store → HashMap (String × EntryRow) → HashMap (String × EntryRow)
  unfolding keep_latest entry_rows_of
  latest_rows [] latest = latest
  latest_rows ((form_name, form) ∷ forms) latest =
      latest_rows forms (keep_latest form_name (entry_rows_of form_name form) latest)

  unfoldable pub list_entry_rows : Store → List (String × EntryRow)
  unfolding latest_rows into_values
  list_entry_rows store = into_values (latest_rows store [])

  unfoldable pub list_form_entry_rows : String → FormTables → List EntryRow
  unfolding keep_latest into_values entry_rows_of
  list_form_entry_rows form_name form =
      map (λ e. e.1) (into_values (keep_latest form_name (entry_rows_of form_name form) []))

  unfoldable pub find_entry_form : Store → String → Option String
  unfolding form_of_entry list_entry_rows
  find_entry_form store entry_id = form_of_entry entry_id (list_entry_rows store)
