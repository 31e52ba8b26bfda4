-- ===== src/Entry/Tests/Space.antt =====
-- A space of one form with one entry, and functions for the crates.
use ugoite.Common.{ℕ, String, Bool, none, some, [], ◌∷◌}
use ugoite.External.{External}
use ugoite.Json.{Value, string, object, end, field}
use ugoite.Entry.Types.{EntryRow}
use ugoite.Entry.Sections.{MarkdownCrates}
use ugoite.Entry.Cells.{ℤ, pos, negsuc, ColumnCrates}
use ugoite.Entry.Rows.{
  FloatOps, StoredEntry, StoredRevision, from_timestamp_micros, to_timestamp_micros,
}
use ugoite.Entry.Store.{Store, FormTables}
use ugoite.Entry.Write.{EntryEnv, Moment}
use ugoite.Entry.Latest.{FloatLaws, f64_ge_refl}

abbrev whole : ℤ → ℕ
whole (pos n) = n
whole (negsuc n) = 0

abbrev pub floats : FloatOps
floats = record {
  mul = λ a b. a;
  div = λ a b. a;
  add = λ a b. a;
  round_i64 = λ f. pos f;
  of_i64 = whole;
}

pub laws : FloatLaws floats
unfolding from_timestamp_micros to_timestamp_micros
laws = record { keeps_order = λ m t s h. h; adds = f64_ge_refl }

abbrev json : External
json = record {
  to_string = λ v. "{}";
  from_str = λ s. none;
  sha256_hex = λ s. s;
  to_lowercase = λ s. s;
}

abbrev pub columns : ColumnCrates
columns = record {
  json = json;
  struct_error = λ table types. none;
  batch_error = λ table types. none;
  f64_of_pos = λ n. n;
  f64_of_neg = λ n. n;
  narrow = λ n. n;
  widen = λ n. some n;
  days_of_date = λ s. none;
  date_of_days = λ d. none;
  parse_time = λ f s. none;
  show_time = λ s n. none;
  pad_six = λ n. "000000";
  rfc3339_micros = λ s. none;
  show_micros = λ t. none;
  rfc3339_seconds = λ s. some (pos 9223372037, 5);
  show_nanos = λ s n. none;
  parse_uuid = λ s. none;
  show_uuid = λ b. none;
  decode_base64 = λ s. none;
  encode_base64 = λ b. "";
  decode_hex = λ s. none;
}

abbrev markdown : MarkdownCrates
markdown = record {
  match_frontmatter = λ s. some ("form: Note", s);
  yaml_to_json = λ s. some (object (field "form" (string "Note") end));
  replace_links = λ f s. s;
  parse_url = λ s. none;
  lowercase = λ s. s;
}

abbrev pub env : EntryEnv
env = record {
  properties = record {
    markdown = markdown;
    columns = columns;
    parse_f64 = λ s. none;
    parse_f32 = λ s. none;
    rfc3339_utc = λ s. none;
    rfc3339_utc_nanos = λ s. none;
  };
  floats = floats;
  checksum = λ s. "sum";
  signature = λ s. "sig";
}

abbrev pub note_form : Value
note_form = object (field "fields" (object (field "text" (object end) end)) end)

abbrev pub stored : Bool → StoredEntry
stored deleted = record {
  entry_id = "e1";
  title = "First";
  tags = [];
  links = [];
  created_at = pos 5;
  updated_at = pos 5;
  fields = [];
  extra_attributes = none;
  assets = [];
  integrity = record { checksum = "c1"; signature = "s1" };
  deleted = deleted;
  deleted_at = none;
}

abbrev first_revision : StoredRevision
first_revision = record {
  revision_id = "r1";
  entry_id = "e1";
  parent_revision_id = none;
  timestamp = pos 5;
  author = "me";
  fields = [];
  extra_attributes = none;
  markdown_checksum = "c1";
  integrity = record { checksum = "c1"; signature = "s1" };
  restored_from = none;
}

abbrev pub note : Bool → FormTables
note deleted = record {
  definition = note_form;
  field_names = "text" ∷ [];
  entry_rows = stored deleted ∷ [];
  revision_rows = first_revision ∷ [];
}

abbrev pub space : Bool → Store
space deleted = ("Note", note deleted) ∷ []

abbrev pub row : Bool → EntryRow
row deleted = record {
  entry_id = "e1";
  title = "First";
  form = "Note";
  tags = [];
  links = [];
  created_at = 5;
  updated_at = 5;
  fields = object end;
  extra_attributes = object end;
  revision_id = "r1";
  parent_revision_id = none;
  assets = [];
  integrity = record { checksum = "c1"; signature = "s1" };
  deleted = deleted;
  deleted_at = none;
  author = "me";
}

abbrev pub now : Moment
now = record { millis = pos 4; uuid = "r2" }

abbrev pub later : Moment
later = record { millis = pos 9; uuid = "r3" }

abbrev pub content : String
content = "# Second\n## text\nhello"
