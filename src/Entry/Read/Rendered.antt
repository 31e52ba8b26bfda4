-- ===== src/Entry/Read/Rendered.antt =====
-- The JSON that the readers of entries answer with (ugoite-core/src/entry.rs).
use Prim.Native.String.{compare}
use ugoite.Common.{
  Ordering, String, Bool, true, ◌&&◌, not, Option, none, some, List, [], ◌∷◌, map, ◌==◌,
  if◌then◌else◌,
}
use ugoite.Common.Text.{◌⧺◌, trim, is_empty}
use ugoite.Json.{F64, Value, null, number, string, array, object, Values, nil, cons, float}
use ugoite.Json.Object.{from_list}
use ugoite.Entry.Types.{Link, IntegrityPayload, EntryRow, RevisionRow, EntrySummary}
use ugoite.Entry.Render.{merge_entry_fields}

pub record EntryContent : Type 0 where
  pub revision_id : String
  pub parent_revision_id : Option String
  pub author : String
  pub markdown : String
  pub frontmatter : Value
  pub sections : Value
  pub assets : List Value
  pub computed : Value

-- A `Vec` as a JSON array.
unfoldable pub array_of : List Value → Values
array_of [] = nil
array_of (v ∷ vs) = cons v (array_of vs)

unfoldable pub json_texts : List String → Value
unfolding array_of
json_texts texts = array (array_of (map string texts))

unfoldable pub json_link : Link → Value
json_link link = object (
    from_list (
      ("id", string link.id)
      ∷ ("source", string link.source)
      ∷ ("target", string link.target)
      ∷ ("kind", string link.kind)
      ∷ []))

unfoldable pub json_links : List Link → Value
unfolding array_of json_link
json_links links = array (array_of (map json_link links))

unfoldable pub json_integrity : IntegrityPayload → Value
json_integrity integrity = object (
    from_list
      (("checksum", string integrity.checksum) ∷ ("signature", string integrity.signature) ∷ []))

abbrev pub json_f64 : F64 → Value
json_f64 f = number (float f)

abbrev pub json_option : Option String → Value
json_option none = null
json_option (some s) = string s

-- `json!({"form": form_name, "tags": row.tags})`
unfoldable pub frontmatter_of : String → List String → Value
unfolding json_texts
frontmatter_of form_name tags =
    object (from_list (("form", string form_name) ∷ ("tags", json_texts tags) ∷ []))

unfoldable pub json_entry : String → EntryRow → Value
unfolding merge_entry_fields json_texts json_links
json_entry form_name row = object (
    from_list (
      ("id", string row.entry_id)
      ∷ ("title", string row.title)
      ∷ ("form", string form_name)
      ∷ ("tags", json_texts row.tags)
      ∷ ("properties", merge_entry_fields row.fields row.extra_attributes)
      ∷ ("links", json_links row.links)
      ∷ ("created_at", json_f64 row.created_at)
      ∷ ("updated_at", json_f64 row.updated_at)
      ∷ []))

abbrev pub is_live : String × EntryRow → Bool
is_live e = not e.1.deleted

-- A filter of the summaries: trimmed, and dropped if nothing is left.
unfoldable pub normalized : Option String → Option String
unfolding trim
normalized none = none
normalized (some text) = if is_empty (trim text) then none else some (trim text)

unfoldable pub in_form : Option String → String → Bool
in_form none form_name = true
in_form (some expected) form_name = form_name == expected

unfoldable pub summary_order : EntrySummary → EntrySummary → Ordering
summary_order left right = elim (compare left.title right.title) [
  | Ordering.eq ↦ compare left.id right.id
  | o ↦ o
]

-- `rev.entry_id == entry_id && rev.revision_id == revision_id`
unfoldable pub find_revision : String → String → List RevisionRow → Option RevisionRow
find_revision entry_id revision_id [] = none
find_revision entry_id revision_id (rev ∷ revisions) =
    if (rev.entry_id == entry_id) && (rev.revision_id == revision_id)
    then some rev
    else find_revision entry_id revision_id revisions

unfoldable pub revision_not_found : String → String → String
revision_not_found revision_id entry_id =
    "Revision " ⧺ revision_id ⧺ " not found for entry " ⧺ entry_id

unfoldable pub history_item : RevisionRow → Value
history_item rev = object (
    from_list (
      ("revision_id", string rev.revision_id)
      ∷ ("timestamp", json_f64 rev.timestamp)
      ∷ ("checksum", string rev.integrity.checksum)
      ∷ ("signature", string rev.integrity.signature)
      ∷ []))

-- The fields of a revision, as it is serialized: without `restored_from` if there is none.
unfoldable pub json_revision : RevisionRow → Value
unfolding json_integrity
json_revision rev = object (
    from_list (
      ("revision_id", string rev.revision_id)
      ∷ ("entry_id", string rev.entry_id)
      ∷ ("parent_revision_id", json_option rev.parent_revision_id)
      ∷ ("timestamp", json_f64 rev.timestamp)
      ∷ ("author", string rev.author)
      ∷ ("fields", rev.fields)
      ∷ ("extra_attributes", rev.extra_attributes)
      ∷ ("markdown_checksum", string rev.markdown_checksum)
      ∷ ("integrity", json_integrity rev.integrity)
      ∷ elim rev.restored_from [ none ↦ [] | some id ↦ ("restored_from", string id) ∷ [] ]))
