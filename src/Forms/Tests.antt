-- ===== src/Forms/Tests.antt =====
-- A form with a row reference, given by an array of fields.
use ugoite.Common.{refl, [], ◌∷◌}
use ugoite.Json.{Value, pos_int, number, string, array, object, nil, cons, field, end}
use ugoite.Metadata.{Registry}
use ugoite.Forms.{normalize_form_definition}
use ugoite.Forms.Definitions.{IsForm, normalize_form_definition-IsForm}

abbrev registry : Registry
registry = record { metadata_columns = "id" ∷ "title" ∷ []; metadata_forms = "sql" ∷ "user" ∷ [] }

abbrev owner : Value
owner = object (field "target_form" (string " Person ") (field "type" (string "row_reference") end))

abbrev task : Value
task = object (
    field "fields"
      (array (
        cons
          (object (
            field "name" (string "owner") (
              field "target_form" (string " Person ") (field "type" (string "row_reference") end))))
          nil))
      (field "name" (string "Task") end))

abbrev normalized_task : Value
normalized_task = object (
    field "allow_extra_attributes" (string "deny") (
      field "fields" (object (field "owner" owner end))
        (field "name" (string "Task") (field "version" (number (pos_int 1)) end))))

normalize_form_definition-IsForm_example : IsForm registry normalized_task
unfolding normalize_form_definition
normalize_form_definition-IsForm_example =
    normalize_form_definition-IsForm registry task normalized_task refl
