-- ===== src/Entry/Tests.antt =====
-- Calls on a space of one form with one entry.
mod Space
unfoldable pub use Space.*
use ugoite.Common.{
  ℕ, String, ◌≡◌, ◌⊎◌, refl, true, false, none, some, [], ◌∷◌, arith, ok, ◌==◌, All,
}
use ugoite.Common.Maps.{lookup, put}
use ugoite.External.{External}
use ugoite.Json.{Value, string, object, end, field, bool}
use ugoite.Entry.Types.{Link, EntryRow, RevisionRow}
use ugoite.Entry.Sections.{MarkdownCrates}
use ugoite.Entry.Cells.{
  arrays_of, entries_table, revisions_table, ℤ, negsuc, ColumnCrates, add_nanos, billion_times,
  split_nanos, parse_timestamp_to_nanos,
}
use ugoite.Entry.Rows.{FloatOps, StoredEntry, StoredRevision}
use ugoite.Entry.Store.{
  Store, FormTables, latest_revision_for_entry, newer_entry, latest_entry, entry_rows_of,
  with_revision,
}
use ugoite.Entry.Write.{
  EntryEnv, EntryMeta, Moment, Change, append_change, current_row, plan_create, create_entry,
  commit, update_entry, delete_entry,
}
use ugoite.Entry.Latest.{FloatLaws, f64_ge_refl}
use ugoite.Entry.Partial.{create_entry-error}
use ugoite.Entry.Growth.{Extends, updates, deletes, start, next, Reach-Extends}
use ugoite.Entry.Appended.{with_entry, stored_entry, stored_revision}
use ugoite.Entry.Frame.{append_change-update}
use ugoite.Entry.Nanos.{add_nanos-split_nanos, parse_timestamp_to_nanos-wraps}
use ugoite.Index.Validation.{field_defs, validate_properties}
use ugoite.Index.Required.{IsGiven, validate_properties-IsGiven}

abbrev empty_note : FormTables
empty_note = record {
  definition = note_form;
  field_names = "text" ∷ [];
  entry_rows = [];
  revision_rows = [];
}

abbrev empty_space : Store
empty_space = ("Note", empty_note) ∷ []

plan_new :
    (plan : Change × EntryMeta) × (plan_create env now empty_space "spaces/main" "e2" content "me"
      ≡ ok plan)
unfolding plan_create ◌==◌
plan_new = (_, refl)

-- Arrow refuses the arrays of the table of revisions.
abbrev refusing : EntryEnv
refusing = record env {
  properties = record env.properties {
    columns = record columns {
      struct_error =
          λ table types. elim table [ entries_table ↦ none | revisions_table ↦ some "wrong type" ];
    };
  };
}

create_entry-error_example :
    ((create_entry refusing now empty_space "spaces/main" "e2" content "me").1 ≡ empty_space)
    ⊎ ((f : String) × (form : FormTables) × (new : EntryRow) × (lookup f empty_space ≡ some form)
        × (new.entry_id ≡ "e2")
        × ((create_entry refusing now empty_space "spaces/main" "e2" content "me").1
            ≡ put f (with_entry refusing form new) empty_space))
unfolding create_entry plan_create commit append_change ◌==◌
create_entry-error_example =
    create_entry-error refusing now empty_space "spaces/main" "e2" content "me"
      "Failed to build fields struct array: wrong type" refl

Reach-Extends_example :
    Extends
      (space false)
      (delete_entry env later
        (update_entry env now (space false) "e1" content none "me" none).1
        "e1"
        false).1
Reach-Extends_example = Reach-Extends env (space false) _ (
    next (space false) _ _
      (next (space false) (space false) _ (start (space false))
        (updates now (space false) "e1" content none "me" none))
      (deletes later _ "e1" false))

add_nanos-split_nanos_example :
    add_nanos
      (billion_times (split_nanos (negsuc 1500000000)).0)
      (split_nanos (negsuc 1500000000)).1
    ≡ negsuc 1500000000
add_nanos-split_nanos_example =
    add_nanos-split_nanos (negsuc 1500000000) (omega arith) (omega arith)

parse_timestamp_to_nanos-wraps_example :
    (n : ℕ) × (parse_timestamp_to_nanos columns "2262-04-12T00:00:37.000000005Z" ≡ some (negsuc n))
parse_timestamp_to_nanos-wraps_example =
    parse_timestamp_to_nanos-wraps columns "2262-04-12T00:00:37.000000005Z" 9223372037 5 refl
      (omega arith) (omega arith) (omega arith)

abbrev link : Link
link = record { id = "l1"; source = "e1"; target = "e2"; kind = "related" }

abbrev second_row : EntryRow
second_row = record {
  entry_id = "e1";
  title = "Second";
  form = "Note";
  tags = [];
  links = [];
  created_at = 5;
  updated_at = 6;
  fields = object end;
  extra_attributes = object end;
  revision_id = "r2";
  parent_revision_id = some "r1";
  assets = [];
  integrity = record { checksum = "c2"; signature = "s2" };
  deleted = false;
  deleted_at = none;
  author = "you";
}

abbrev second_revision : RevisionRow
second_revision = record {
  revision_id = "r2";
  entry_id = "e1";
  parent_revision_id = some "r1";
  timestamp = 6;
  author = "you";
  fields = object end;
  extra_attributes = object end;
  markdown_checksum = "c2";
  integrity = record { checksum = "c2"; signature = "s2" };
  restored_from = none;
}

append_change-update_example :
    current_row env
      (append_change env
        (space false)
        (record { form_name = "Note"; entry_row = second_row; revision = some second_revision })).1
      "e1"
    ≡ ok ("Note", second_row)
unfolding ◌==◌ lookup latest_revision_for_entry stored_entry stored_revision newer_entry
    latest_entry entry_rows_of with_revision arrays_of
append_change-update_example =
    append_change-update env (space false) "Note" "e1" "e1" (note false) second_row second_revision
      refl (refl, refl, refl, refl) tt refl refl refl refl

abbrev task_form : Value
task_form =
    object
      (field "fields" (object (field "text" (object (field "required" (bool true) end)) end)) end)

abbrev task_properties : Value
task_properties = object (field "text" (string "hello") end)

task-validated :
    validate_properties env.properties task_properties task_form ≡ ok (task_properties, [])
unfolding validate_properties ◌==◌
task-validated = refl

validate_properties-IsGiven_example : All (IsGiven task_properties) (field_defs task_form)
validate_properties-IsGiven_example =
    validate_properties-IsGiven env.properties task_properties task_form task_properties
      task-validated
