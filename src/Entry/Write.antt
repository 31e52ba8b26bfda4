-- ===== src/Entry/Write.antt =====
-- Creating, updating, deleting and restoring entries (`create_entry`, `update_entry`,
-- `delete_entry` and `restore_entry` of ugoite-core/src/entry.rs). A call returns its result and the
-- tables after it: what is written before a failure stays.
mod Parts
unfoldable pub use Parts.*
use ugoite.Common.{
  String, Bool, true, false, ◌||◌, not, Option, none, some, List, [], ◌∷◌, Result, ok, guard, ok_or,
  ◌>>=◌, ◌>>◌, ◌==◌, if◌then◌else◌, last?, retain,
}
use ugoite.Common.Text.{◌⧺◌, split, trim_end_matches, join}
use ugoite.Json.{F64, Value, string, array, object, end}
use ugoite.Json.Object.{from_list, value_get}
use ugoite.Entry.Types.{Link, IntegrityPayload, EntryRow, RevisionRow}
use ugoite.Entry.Sections.{
  extract_title, extract_tags, extract_form, normalize_ugoite_links, parse_markdown,
}
use ugoite.Entry.Render.{
  ExtraAttributesPolicy, deny, extra_attributes_policy, collect_extra_attributes, contains_name,
  entries_of, insert_all, form_field_names, merge_entry_fields,
}
use ugoite.Entry.Cells.{ℤ}
use ugoite.Entry.Rows.{FloatOps, millisecond, now_ts}
use ugoite.Entry.Store.{
  and_then, Store, f64_ge, load_form, read_entry_row, write_entry_row, append_revision_row_for_form,
  find_entry_form,
}
use ugoite.Entry.Read.{json_f64, array_of, markdown_of, get_entry, revision_of}
use ugoite.Index.Properties.{PropertyCrates, extract_properties}
use ugoite.Index.Validation.{validate_properties}

module _ (env : EntryEnv) where
  open env use {properties, floats, checksum, signature}
  open properties use {markdown, columns}

  abbrev pub integrity_of : String → IntegrityPayload
  integrity_of content = record { checksum = checksum content; signature = signature content }

  -- The fields and the extra attributes of a content, as its form allows them.
  unfoldable pub accepted_fields : Value → String → Value → Result String (Value × Value)
  unfolding form_field_names extra_attributes_policy collect_extra_attributes join
      extract_properties validate_properties form_values array_of
  accepted_fields form_def content sections = do
    let form_fields = form_field_names form_def
    let extra = collect_extra_attributes sections form_fields
    guard (is_nil extra.0 || not (is_deny (extra_attributes_policy form_def)))
        ("Unknown form fields: " ⧺ join ", " extra.0)
    let found = extract_properties markdown content
    checked ← validate_properties properties found form_def
    guard (is_nil checked.1)
        ("Form validation failed: " ⧺ columns.json.to_string (array (array_of checked.1)))
    ok (form_values form_fields found checked.0, extra.1)

  -- The time of a change: later than the row, or a millisecond after it.
  unfoldable pub next_time : ℤ → F64 → F64
  unfolding now_ts f64_ge
  next_time millis updated_at =
      let now = now_ts floats millis in
      if f64_ge updated_at now then floats.add updated_at millisecond else now

  -- The revision that goes with a row.
  unfoldable pub revision_for : EntryRow → String → Option String → RevisionRow
  revision_for row sum restored_from = record {
    revision_id = row.revision_id;
    entry_id = row.entry_id;
    parent_revision_id = row.parent_revision_id;
    timestamp = row.updated_at;
    author = row.author;
    fields = row.fields;
    extra_attributes = row.extra_attributes;
    markdown_checksum = sum;
    integrity = row.integrity;
    restored_from = restored_from;
  }

  -- The row of the entry, then the one of the revision.
  unfoldable pub append_change : Store → Change → Result String (Unit {0}) × Store
  unfolding write_entry_row append_revision_row_for_form
  append_change store change =
      and_then store (write_entry_row columns floats store change.form_name change.entry_row)
        λ written. elim change.revision [
          | none ↦ (ok tt, written)
          | some revision ↦
              and_then written
                (append_revision_row_for_form columns floats written change.form_name revision)
                λ both. (ok tt, both)
        ]

  -- A call: nothing is written if it is refused.
  unfoldable pub commit :
      {A : Type 0}
      → Store
      → Result String (Change × A)
      → (Store → A → Result String A)
      → Result String A × Store
  unfolding append_change
  commit store planned answer = and_then store planned λ plan.
      let done = append_change store plan.0 in
      and_then done.1 done.0 λ _. (answer done.1 plan.1, done.1)

  unfoldable pub plan_create :
      Moment
      → Store
      → (ws_path entry_id content author : String) → Result String (Change × EntryMeta)
  unfolding find_entry_form normalize_ugoite_links parse_markdown extract_form load_form
      accepted_fields extract_title extract_tags now_ts revision_for space_id_of
  plan_create moment store ws_path entry_id content author = do
    guard (is_none (find_entry_form columns floats store entry_id))
        ("Entry already exists: " ⧺ entry_id)
    let normalized_content = normalize_ugoite_links markdown content
    let parsed = parse_markdown markdown normalized_content
    form_name ← ok_or (extract_form parsed.0) "Form is required for entry creation"
    form ← load_form store form_name
    values ← accepted_fields form.definition normalized_content parsed.1
    let title = extract_title normalized_content entry_id
    let tags = extract_tags parsed.0
    let timestamp = now_ts floats moment.millis
    let integrity = integrity_of normalized_content
    let row : EntryRow = record {
      entry_id = entry_id;
      title = title;
      form = form_name;
      tags = tags;
      links = [];
      created_at = timestamp;
      updated_at = timestamp;
      fields = values.0;
      extra_attributes = values.1;
      revision_id = moment.uuid;
      parent_revision_id = none;
      assets = [];
      integrity = integrity;
      deleted = false;
      deleted_at = none;
      author = author;
    }
    ok (
      record {
        form_name = form_name;
        entry_row = row;
        revision = some (revision_for row integrity.checksum none);
      },
      record {
        id = entry_id;
        space_id = space_id_of ws_path;
        title = title;
        form = some form_name;
        tags = tags;
        links = [];
        created_at = timestamp;
        updated_at = timestamp;
        integrity = integrity;
        deleted = false;
        deleted_at = none;
        properties = object end;
      },
    )

  unfoldable pub create_entry :
      Moment → Store → (ws_path entry_id content author : String) → Result String EntryMeta × Store
  unfolding plan_create commit
  create_entry moment store ws_path entry_id content author =
      commit store (plan_create moment store ws_path entry_id content author)
        λ written meta. ok meta

  -- The row of an entry, after `find_entry_form`.
  unfoldable pub current_row : Store → String → Result String (String × EntryRow)
  unfolding find_entry_form read_entry_row
  current_row store entry_id = do
    form_name ←
        ok_or (find_entry_form columns floats store entry_id) ("Entry not found: " ⧺ entry_id)
    row ← read_entry_row columns floats store form_name entry_id
    ok (form_name, row)

  -- The checks of an update, up to its fields and extra attributes.
  unfoldable pub update_values :
      Store → String → EntryRow → (content : String) → Option String → Result String (Value × Value)
  unfolding conflict_message normalize_ugoite_links parse_markdown extract_form load_form
      accepted_fields
  update_values store form_name row content parent_revision_id = do
    guard (parent_matches parent_revision_id row.revision_id)
        (conflict_message parent_revision_id row.revision_id)
    let normalized_content = normalize_ugoite_links markdown content
    let parsed = parse_markdown markdown normalized_content
    updated_form ← ok_or (extract_form parsed.0) "Form is required for entry update"
    guard (updated_form == form_name) "Form change is not supported"
    form ← load_form store form_name
    accepted_fields form.definition normalized_content parsed.1

  -- The row after an update.
  unfoldable pub updated_row :
      Moment
      → EntryRow
      → (content : String) → Value × Value
      → String
      → Option (List Value)
      → EntryRow
  unfolding normalize_ugoite_links parse_markdown next_time extract_title extract_tags value_get
  updated_row moment row content values author assets =
      let normalized_content = normalize_ugoite_links markdown content in
      let frontmatter = (parse_markdown markdown normalized_content).0 in
      record row {
        title = extract_title normalized_content row.title;
        updated_at = next_time moment.millis row.updated_at;
        tags = elim (value_get "tags" frontmatter) [
          | none ↦ row.tags
          | some _ ↦ extract_tags frontmatter
        ];
        fields = values.0;
        extra_attributes = values.1;
        parent_revision_id = some row.revision_id;
        revision_id = moment.uuid;
        author = author;
        integrity = integrity_of normalized_content;
        assets = given_or assets row.assets;
      }

  unfoldable pub plan_update :
      Moment
      → Store
      → (entry_id content : String) → Option String
      → String
      → Option (List Value)
      → Result String Change
  unfolding current_row update_values updated_row revision_for
  plan_update moment store entry_id content parent_revision_id author assets = do
    current ← current_row store entry_id
    values ← update_values store current.0 current.1 content parent_revision_id
    let updated = updated_row moment current.1 content values author assets
    ok (record {
      form_name = current.0;
      entry_row = updated;
      revision = some (revision_for updated updated.integrity.checksum none);
    })

  -- After the writes the entry is read again.
  unfoldable pub update_entry :
      Moment
      → Store
      → (entry_id content : String) → Option String
      → String
      → Option (List Value)
      → Result String Value × Store
  unfolding plan_update commit get_entry
  update_entry moment store entry_id content parent_revision_id author assets =
      commit store
        (plan_update moment store entry_id content parent_revision_id author assets >>= λ change.
          ok (change, object end))
        λ written _. get_entry columns floats written entry_id

  -- The two branches on `hard_delete` do the same.
  unfoldable pub plan_delete : Moment → Store → String → Bool → Result String Change
  unfolding current_row next_time
  plan_delete moment store entry_id hard_delete = do
    current ← current_row store entry_id
    let row = current.1
    let delete_ts = next_time moment.millis row.updated_at
    let deleted_row : EntryRow = record row {
      deleted = true;
      deleted_at = some delete_ts;
      updated_at = delete_ts;
    }
    ok (
        if hard_delete
        then record { form_name = current.0; entry_row = deleted_row; revision = none }
        else record { form_name = current.0; entry_row = deleted_row; revision = none })

  unfoldable pub delete_entry : Moment → Store → String → Bool → Result String (Unit {0}) × Store
  unfolding plan_delete commit
  delete_entry moment store entry_id hard_delete =
      commit store (plan_delete moment store entry_id hard_delete >>= λ change. ok (change, tt))
        λ written _. ok tt

  unfoldable pub plan_restore :
      Moment → Store → (entry_id revision_id author : String) → Result String (Change × Value)
  unfolding revision_of read_entry_row load_form next_time merge_entry_fields markdown_of
      revision_for
  plan_restore moment store entry_id revision_id author = do
    found ← revision_of columns floats store entry_id revision_id
    let form_name = found.0
    let revision = found.1
    row ← read_entry_row columns floats store form_name entry_id
    form ← load_form store form_name
    let timestamp = next_time moment.millis row.updated_at
    let content =
        markdown_of columns floats form_name row
          (merge_entry_fields revision.fields revision.extra_attributes) form
    let integrity = integrity_of content
    let restored : EntryRow = record row {
      parent_revision_id = some row.revision_id;
      revision_id = moment.uuid;
      updated_at = timestamp;
      fields = revision.fields;
      extra_attributes = revision.extra_attributes;
      integrity = integrity;
      author = author;
    }
    ok (
      record {
        form_name = form_name;
        entry_row = restored;
        revision = some (revision_for restored integrity.checksum (some revision_id));
      },
      object (
          from_list (
            ("revision_id", string moment.uuid)
            ∷ ("restored_from", string revision_id)
            ∷ ("timestamp", json_f64 timestamp)
            ∷ [])),
    )

  unfoldable pub restore_entry :
      Moment → Store → (entry_id revision_id author : String) → Result String Value × Store
  unfolding plan_restore commit
  restore_entry moment store entry_id revision_id author =
      commit store (plan_restore moment store entry_id revision_id author)
        λ written answer. ok answer
