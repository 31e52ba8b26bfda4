-- ===== src/Entry/Types.antt =====
-- The records of entries and their links (ugoite-core/src/entry.rs, ugoite-minimum/src/link.rs).
use ugoite.Common.{String, Bool, Option, List}
use ugoite.Json.{F64, Value}

-- `Link` of ugoite-minimum/src/link.rs
pub record Link : Type 0 where
  pub id : String
  pub source : String
  pub target : String
  pub kind : String

pub record IntegrityPayload : Type 0 where
  pub checksum : String
  pub signature : String

pub record EntryRow : Type 0 where
  pub entry_id : String
  pub title : String
  pub form : String
  pub tags : List String
  pub links : List Link
  pub created_at : F64
  pub updated_at : F64
  pub fields : Value
  pub extra_attributes : Value
  pub revision_id : String
  pub parent_revision_id : Option String
  pub assets : List Value
  pub integrity : IntegrityPayload
  pub deleted : Bool
  pub deleted_at : Option F64
  pub author : String

pub record RevisionRow : Type 0 where
  pub revision_id : String
  pub entry_id : String
  pub parent_revision_id : Option String
  pub timestamp : F64
  pub author : String
  pub fields : Value
  pub extra_attributes : Value
  pub markdown_checksum : String
  pub integrity : IntegrityPayload
  pub restored_from : Option String

pub record EntrySummary : Type 0 where
  pub id : String
  pub title : String
  pub form : String
