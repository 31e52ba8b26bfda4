-- ===== src/Entry/Write/Parts.antt =====
-- The records and tests that the writers of entries share (ugoite-core/src/entry.rs).
use ugoite.Common.{
  String, Bool, true, false, Option, none, some, List, [], ◌∷◌, ◌==◌, last?, retain,
}
use ugoite.Common.Text.{◌⧺◌, split, trim_end_matches}
use ugoite.Json.{F64, Value, object, end}
use ugoite.Entry.Types.{Link, IntegrityPayload, EntryRow, RevisionRow}
use ugoite.Entry.Render.{ExtraAttributesPolicy, deny, contains_name, entries_of, insert_all}
use ugoite.Entry.Cells.{ℤ}
use ugoite.Entry.Rows.{FloatOps}
use ugoite.Index.Properties.{PropertyCrates}

pub record EntryMeta : Type 0 where
  pub id : String
  pub space_id : String
  pub title : String
  pub form : Option String
  pub tags : List String
  pub links : List Link
  pub created_at : F64
  pub updated_at : F64
  pub integrity : IntegrityPayload
  pub deleted : Bool
  pub deleted_at : Option F64
  pub properties : Value

-- What an entry call needs: the crates, and the space's integrity provider.
pub record EntryEnv : Type 0 where
  pub properties : PropertyCrates
  pub floats : FloatOps
  pub checksum : String → String
  pub signature : String → String

-- What a call takes from its surroundings: the time and a fresh `Uuid::new_v4`.
pub record Moment : Type 0 where
  pub millis : ℤ
  pub uuid : String

-- The rows that a call appends to the tables of a form.
pub record Change : Type 0 where
  pub form_name : String
  pub entry_row : EntryRow
  pub revision : Option RevisionRow

abbrev pub is_deny : ExtraAttributesPolicy → Bool
is_deny deny = true
is_deny _ = false

-- `Option::is_none`
abbrev pub is_none {ℓ} : {A : Type ℓ} → Option A → Bool
is_none none = true
is_none (some _) = false

abbrev pub is_nil {ℓ} : {A : Type ℓ} → List A → Bool
is_nil [] = true
is_nil (_ ∷ _) = false

-- `ws_path.trim_end_matches('/').split('/').next_back().unwrap_or(ws_path)`
unfoldable pub space_id_of : String → String
unfolding last? split trim_end_matches
space_id_of ws_path = elim (last? (split b'/' (trim_end_matches b'/' ws_path))) [
  | none ↦ ws_path
  | some id ↦ id
]

abbrev pub given_or : Option (List Value) → List Value → List Value
given_or none assets = assets
given_or (some given) assets = given

-- The properties and the cast values whose names are fields of the form.
unfoldable pub form_values : List String → Value → Value → Value
unfolding retain contains_name entries_of insert_all
form_values form_fields properties casted =
    let of_form = retain (λ e. contains_name form_fields e.0) in
    object
      (insert_all (of_form (entries_of casted)) (insert_all (of_form (entries_of properties)) end))

abbrev pub parent_matches : Option String → String → Bool
parent_matches none revision_id = true
parent_matches (some expected) revision_id = revision_id == expected

unfoldable pub conflict_message : Option String → String → String
conflict_message none actual = "Revision conflict: expected , got " ⧺ actual
conflict_message (some expected) actual =
    "Revision conflict: expected " ⧺ expected ⧺ ", got " ⧺ actual
