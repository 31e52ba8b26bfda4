-- ===== src/Index/Required.antt =====
-- The required fields of an entry (`validate_properties`, ugoite-core/src/index.rs).
use ugoite.Common.{
  String, ◌≡◌, ap, false, ◌&&◌, Bool-cases, inl, inr, Option, none, some, List, [], ◌∷◌, ◌++◌,
  Result, ok, ◌>>=◌, >>=-inv, All, ◌∙◌,
}
use ugoite.Common.Maps.{HashMap}
use ugoite.Json.{Value}
use ugoite.Json.Object.{value_get}
use ugoite.Entry.Render.{type_of}
use ugoite.Entry.Cells.{field_type_named}
use ugoite.Index.Properties.{PropertyCrates, cast_value}
use ugoite.Index.Validation.{
  field_defs, is_required, is_missing, missing_field, invalid_type, store_cast, validate_field,
  validate_fields, validate_properties,
}

abbrev pub Accepted : Type 0
Accepted = Value × List Value

-- A field that is required has a value, and no empty text.
abbrev pub IsGiven : Value → String × Value → Type 0
IsGiven properties field_def =
    (is_required field_def.1 && is_missing (value_get field_def.0 properties)) ≡ false

append_nonempty {ℓ} : {A : Type ℓ} (xs : List A) (x : A) → xs ++ x ∷ [] ≡ [] → ⊥
append_nonempty [] x h = absurd (cc)
append_nonempty (y ∷ xs) x h = absurd (cc)

store_cast-warnings :
    (name : String) (cast : Option Value) (casted out : Value) (warnings : List Value)
    → store_cast name cast (casted, warnings) ≡ (out, [])
    → warnings ≡ []
unfolding store_cast
store_cast-warnings name none casted out warnings h =
    absurd (append_nonempty warnings (invalid_type name) (ap (λ p. p.1) h))
store_cast-warnings name (some value) casted out warnings h = ap (λ p. p.1) h

module _ (crates : PropertyCrates) where
  -- A round that leaves no warning had none before it, and its field is given.
  validate_field-IsGiven :
      (properties : Value) (name : String) (field_def casted out : Value) (warnings : List Value)
      → validate_field crates properties name field_def (casted, warnings) ≡ ok (out, [])
      → (warnings ≡ []) × IsGiven properties (name, field_def)
  unfolding validate_field
  validate_field-IsGiven properties name field_def casted out warnings h =
      elim (Bool-cases (is_required field_def && is_missing (value_get name properties))) [
        | inl e ↦
            let kept : ◌≡◌ {A = Result String Accepted}
                (ok (casted, warnings ++ missing_field name ∷ [])) (ok (out, [])) =
              rw e at h in
            let none_left : warnings ++ missing_field name ∷ [] ≡ [] = cc in
            absurd (append_nonempty warnings (missing_field name) none_left)
        | inr e ↦ (cast_round (value_get name properties) (rw e at h), e)
      ]
    where
      cast_round :
          (value : Option Value)
          → (elim value as (λ _. Result String Accepted) [
            | none ↦ ok (casted, warnings)
            | some raw_value ↦
                cast_value crates (field_type_named (type_of field_def)) raw_value >>= λ cast.
                ok (store_cast name cast (casted, warnings))
          ])
            ≡ ok (out, [])
          → warnings ≡ []
      cast_round none k = cc
      cast_round (some raw) k =
          >>=-inv (cast_value crates (field_type_named (type_of field_def)) raw) _ k
            λ cast _ stored. store_cast-warnings name cast casted out warnings (cc)

  validate_fields-IsGiven :
      (properties casted out : Value) (warnings : List Value) (defs : HashMap Value)
      → validate_fields crates properties defs (casted, warnings) ≡ ok (out, [])
      → (warnings ≡ []) × All (IsGiven properties) defs
  unfolding validate_fields
  validate_fields-IsGiven properties casted out warnings [] h = (cc, tt)
  validate_fields-IsGiven properties casted out warnings ((name, field_def) ∷ defs) h =
      >>=-inv (validate_field crates properties name field_def (casted, warnings)) _ h
        λ (next, left) e rest.
          let (none_left, given) = validate_fields-IsGiven properties next out left defs rest in
          let (before, here) =
            validate_field-IsGiven properties name field_def casted next warnings
              (e ∙ ap (λ w. ok (next, w)) none_left) in
          (before, (here, given))

  -- An entry that is accepted without a warning gives every required field of its form a value that
  -- is not the empty text.
  pub validate_properties-IsGiven :
      (properties entry_form casted : Value)
      → validate_properties crates properties entry_form ≡ ok (casted, [])
      → All (IsGiven properties) (field_defs entry_form)
  unfolding validate_properties
  validate_properties-IsGiven properties entry_form casted h =
      (validate_fields-IsGiven properties properties casted [] (field_defs entry_form) h).1
