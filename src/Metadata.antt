-- ===== src/Metadata.antt =====
-- The reserved names of columns and forms (ugoite-minimum/src/metadata.rs). The two registries are
-- values that are passed on, where the code keeps them behind a lock.
use ugoite.Common.{String, Bool, List, [], ◌∷◌, map, any, ◌==◌, if◌then◌else◌}
use ugoite.Common.Text.{trim, eq_ignore_ascii_case}

pub record Registry : Type 0 where
  pub metadata_columns : List String
  pub metadata_forms : List String

abbrev default_metadata_columns : List String
default_metadata_columns =
    "id" ∷ "entry_id" ∷ "title" ∷ "form" ∷ "tags" ∷ "links" ∷ "assets" ∷ "created_at" ∷ "updated_at"
    ∷ "revision_id" ∷ "parent_revision_id" ∷ "deleted" ∷ "deleted_at" ∷ "author" ∷ "integrity"
    ∷ "space_id" ∷ "word_count" ∷ []

abbrev default_metadata_forms : List String
default_metadata_forms = "SQL" ∷ "Assets" ∷ "User" ∷ "UserGroup" ∷ []

-- `HashSet::insert`
unfoldable pub insert_name : String → List String → List String
unfolding any ◌==◌
insert_name name set = if any (λ x. x == name) set then set else name ∷ set

insert_names : List String → List String → List String
unfolding insert_name
insert_names [] set = set
insert_names (name ∷ names) set = insert_names names (insert_name name set)

unfoldable pub is_reserved_metadata_column : Registry → String → Bool
unfolding any eq_ignore_ascii_case
is_reserved_metadata_column registry name =
    any (λ reserved. eq_ignore_ascii_case reserved name) registry.metadata_columns

unfoldable pub is_reserved_metadata_form : Registry → String → Bool
unfolding any eq_ignore_ascii_case
is_reserved_metadata_form registry name =
    any (λ reserved. eq_ignore_ascii_case reserved name) registry.metadata_forms

unfoldable register_metadata_columns : List String → Registry → Registry
unfolding insert_names
register_metadata_columns columns registry = record {
  metadata_columns = insert_names columns registry.metadata_columns;
  metadata_forms = registry.metadata_forms;
}

-- `str::to_lowercase` is a parameter.
module _ (to_lowercase : String → String) where
  unfoldable pub build_metadata_store : Registry
  unfolding insert_names trim
  build_metadata_store = record {
    metadata_columns = insert_names default_metadata_columns [];
    metadata_forms =
        insert_names (map (λ name. to_lowercase (trim name)) default_metadata_forms) [];
  }

  unfoldable register_metadata_forms : List String → Registry → Registry
  unfolding insert_names trim
  register_metadata_forms forms registry = record {
    metadata_columns = registry.metadata_columns;
    metadata_forms =
        insert_names (map (λ name. to_lowercase (trim name)) forms) registry.metadata_forms;
  }
