-- ===== src/Forms/Definitions.antt =====
-- What holds of a form definition that is accepted (`normalize_form_definition`,
-- ugoite-core/src/form.rs).
use ugoite.Common.{
  String, ◌≡◌, refl, subst, Bool, true, false, not, Bool-cases, ◌⊎◌, inl, inr, Option, none, some,
  List, [], ◌∷◌, All, Result, ok, guard, ok_or, ◌>>◌, ◌==◌, >>=-inv,
}
use ugoite.Common.Text.{◌⧺◌}
use ugoite.Json.{Value, object, Fields, entries}
use ugoite.Json.Object.{get, insert, from_list, value_get}
use ugoite.Metadata.{Registry, is_reserved_metadata_column, is_reserved_metadata_form}
use ugoite.Entry.Cells.{ℤ}
use ugoite.Forms.{
  or_else, value_str, normalize_form_fields, target_form, is_row_reference, check_field_names,
  check_target, validate_row_reference_field_defs, is_extra_policy, version_of, form_json,
  normalize_form_definition_with_options, normalize_form_definition,
}

not-false : (b : Bool) → not b ≡ true → b ≡ false
not-false false h = refl
not-false true h = cc

guard-passed :
    (b : Bool) (message : String) {done : Unit {0}}
    → ◌≡◌ {A = Result String (Unit {0})} (guard b message) (ok done)
    → b ≡ true
guard-passed true message h = refl
guard-passed false message h = cc

module _ (registry : Registry) where
  -- A row reference names a form that is not reserved.
  abbrev pub HasTarget : Value → Type 0
  HasTarget def =
      (is_row_reference def ≡ false)
      ⊎ ((target : String) × (target_form def ≡ some target)
          × (is_reserved_metadata_form registry target ≡ false))

  -- A field whose name is not reserved, with its target.
  abbrev pub IsField : String × Value → Type 0
  IsField field = (is_reserved_metadata_column registry field.0 ≡ false) × HasTarget field.1

  -- A definition of a form that is no metadata form, with its fields and a policy for others.
  abbrev pub IsForm : Value → Type 0
  IsForm form_def =
      ((name : String) × (value_str "name" form_def ≡ some name)
        × (is_reserved_metadata_form registry name ≡ false))
      × ((fields : Fields) × (value_get "fields" form_def ≡ some (object fields))
          × All IsField (entries fields))
      × ((policy : String) × (value_str "allow_extra_attributes" form_def ≡ some policy)
          × (is_extra_policy policy ≡ true))

  check_target-HasTarget :
      (name : String) (def : Value) (done : Unit {0})
      → check_target registry name def ≡ ok done
      → HasTarget def
  unfolding check_target
  check_target-HasTarget name def done h =
      >>=-inv (ok_or (target_form def) ("row_reference field '" ⧺ name ⧺ "' requires target_form"))
        _ h
        λ target e k. inr (target, found (target_form def) _ e, not-false _ (guard-passed _ _ k))
    where
      found :
          (o : Option String) (message : String) {target : String}
          → ◌≡◌ {A = Result String String} (ok_or o message) (ok target)
          → o ≡ some target
      found (some t) message e = cc
      found none message e = cc

  checks-IsField :
      (fields : List (String × Value)) (done done' : Unit {0})
      → check_field_names registry fields ≡ ok done
      → validate_row_reference_field_defs registry fields ≡ ok done'
      → All IsField fields
  unfolding check_field_names validate_row_reference_field_defs
  checks-IsField [] done done' h k = tt
  checks-IsField ((name, def) ∷ rest) done done' h k =
      >>=-inv
        (guard (not (is_reserved_metadata_column registry name))
          ("Field name '" ⧺ name ⧺ "' is reserved for metadata columns"))
        _ h
        λ _ e names. elim (Bool-cases (is_row_reference def)) [
          | inl r ↦
              let here : (check_target registry name def
                    >> validate_row_reference_field_defs registry rest)
                  ≡ ok done' =
                rw (r, validate_row_reference_field_defs) at k in
              >>=-inv (check_target registry name def) _ here λ u t targets. (
                (not-false _ (guard-passed _ _ e), check_target-HasTarget name def u t),
                checks-IsField rest done done' names targets,
              )
          | inr r ↦
              let later : validate_row_reference_field_defs registry rest ≡ ok done' =
                rw (r, validate_row_reference_field_defs) at k in
              (
                (not-false _ (guard-passed _ _ e), inl r),
                checks-IsField rest done done' names later,
              )
        ]

  form_json-IsForm :
      (name : String) (version : ℤ) (fields : Fields) (policy : String)
      → is_reserved_metadata_form registry name ≡ false
      → All IsField (entries fields)
      → is_extra_policy policy ≡ true
      → IsForm (form_json name version fields policy)
  unfolding form_json value_str value_get get insert from_list ◌==◌
  form_json-IsForm name version fields policy h f p =
      ((name, refl, h), (fields, refl, f), (policy, refl, p))

  -- A definition of a form that is accepted has a name that is not reserved, fields of which none has
  -- a reserved name and every row reference names a form that is not reserved, and a known policy for
  -- extra attributes.
  pub normalize_form_definition-IsForm :
      (form_def normalized : Value)
      → normalize_form_definition registry form_def ≡ ok normalized
      → IsForm normalized
  unfolding normalize_form_definition normalize_form_definition_with_options
  normalize_form_definition-IsForm form_def normalized h =
      let fields : Fields = normalize_form_fields (value_get "fields" form_def) in
      let policy : String = or_else (value_str "allow_extra_attributes" form_def) "deny" in
      >>=-inv (ok_or (value_str "name" form_def) "Form definition missing 'name' field") _ h
        λ name _ h1.
          >>=-inv
            (guard (not (is_reserved_metadata_form registry name))
              ("Form name '" ⧺ name ⧺ "' is reserved for metadata forms"))
            _ h1
            λ _ free h2. >>=-inv (check_field_names registry (entries fields)) _ h2 λ u names h3.
              >>=-inv (validate_row_reference_field_defs registry (entries fields)) _ h3
                λ u' targets h4.
                  >>=-inv
                    (guard (is_extra_policy policy)
                      ("Invalid allow_extra_attributes value: " ⧺ policy))
                    _ h4
                    λ _ known h5.
                      let is_form =
                        form_json-IsForm name (version_of form_def) fields policy
                          (not-false _ (guard-passed _ _ free))
                          (checks-IsField (entries fields) u u' names targets)
                          (guard-passed _ _ known) in
                      let same : form_json name (version_of form_def) fields policy ≡ normalized =
                        cc in
                      subst IsForm same is_form
