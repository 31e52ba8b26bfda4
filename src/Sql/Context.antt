-- ===== src/Sql/Context.antt =====
-- The rows that a query has joined so far, and what an identifier of the query stands for in them
-- (`RowContext`, `resolve_operand` and the functions it calls, ugoite-core/src/sql.rs).
use Prim.Native.String
use ugoite.Common.{
  String, Bool, true, false, ◌&&◌, Option, none, some, List, [], ◌∷◌, Result, ok, err, ◌>>=◌,
  if◌then◌else◌, length, nat_eq,
}
use ugoite.Common.Text.{eq_ignore_ascii_case}
use ugoite.Common.Maps.{HashMap, lookup, put, put_if_absent}
use ugoite.Json.{Value, null, number, object, float, Fields, end, field, as_object}
use ugoite.Json.Object.{get, insert, value_get}
use ugoite.Json.Float.{f64_neg}
use ugoite.Sql.Syntax.{ObjectName, Expr, identifier, compound_identifier, value, unary, minus}
use ugoite.Sql.Parse.{SqlTableRef, sql_error, object_name_to_string}
use ugoite.Sql.Values.{Library, as_f64, sql_value_to_json, values_equal}

pub record RowContext : Type 0 where
  pub tables : HashMap Value
  pub id_map : HashMap String
  pub output_names : HashMap String
  pub base_key : String

abbrev pub or_else {ℓ} : {A : Type ℓ} → Option A → A → A
or_else none d = d
or_else (some a) d = a

-- `find_case_insensitive`
unfoldable pub find_case_insensitive : String → Fields → Option Value
find_case_insensitive key end = none
find_case_insensitive key (field k v fs) =
    if eq_ignore_ascii_case k key then some v else find_case_insensitive key fs

-- The value of a key, by its spelling or else by any case.
unfoldable pub get_any_case : String → Fields → Option Value
unfolding get find_case_insensitive
get_any_case key fs = elim (get key fs) [ some v ↦ some v | none ↦ find_case_insensitive key fs ]

-- `row.get("properties").and_then(as_object)`
unfoldable pub properties_of : Value → Option Fields
unfolding value_get
properties_of row = elim (value_get "properties" row) [ none ↦ none | some v ↦ as_object v ]

unfoldable pub in_properties : String → Value → Value
unfolding get_any_case properties_of
in_properties key row = elim (properties_of row) [
  | none ↦ null
  | some props ↦ or_else (get_any_case key props) null
]

-- A single name: the row's own field, then one of its properties.
unfoldable pub in_row : String → Value → Value
unfolding in_properties
in_row key (object obj) = elim (get_any_case key obj) [
  | some v ↦ v
  | none ↦ in_properties key (object obj)
]
in_row key row = in_properties key row

-- `parts[1..].join(".")`
join_dots : String → List String → String
join_dots first [] = first
join_dots first (part ∷ parts) = String.◌++◌ first (String.◌++◌ "." (join_dots part parts))

unfoldable pub resolve_value_in_row : Value → List String → Value
unfolding in_row join_dots
resolve_value_in_row row [] = null
resolve_value_in_row row (key ∷ []) = in_row key row
resolve_value_in_row row (head ∷ second ∷ parts) =
    if eq_ignore_ascii_case head "properties"
    then in_properties (join_dots second parts) row
    else null

module _ (lib : Library) where
  open lib use {to_lowercase}

  unfoldable pub canonical_table_key : SqlTableRef → String
  canonical_table_key t = to_lowercase (or_else t.alias t.name)

  alias_into : String → Option String → HashMap String → HashMap String
  alias_into canonical none m = m
  alias_into canonical (some alias) m = put (to_lowercase alias) canonical m

  -- `RowContext::new`
  unfoldable pub new_context : SqlTableRef → Value → RowContext
  unfolding canonical_table_key alias_into
  new_context t row =
      let canonical = canonical_table_key t in
      record {
        tables = put canonical row [];
        id_map = alias_into canonical t.alias (put (to_lowercase t.name) canonical []);
        output_names = put canonical (or_else t.alias t.name) [];
        base_key = canonical;
      }

  -- `RowContext::add_table`
  unfoldable pub add_table : RowContext → SqlTableRef → Value → RowContext
  unfolding canonical_table_key alias_into
  add_table context t row =
      let canonical = canonical_table_key t in
      record {
        tables = put canonical row context.tables;
        id_map =
            alias_into canonical t.alias
              (put_if_absent (to_lowercase t.name) canonical context.id_map);
        output_names = put canonical (or_else t.alias t.name) context.output_names;
        base_key = context.base_key;
      }

  unfoldable pub resolve_identifier : RowContext → List String → Value
  unfolding resolve_value_in_row
  resolve_identifier context [] = null
  resolve_identifier context (first ∷ rest) = elim (lookup (to_lowercase first) context.id_map) [
    | some canonical ↦ resolve_value_in_row (or_else (lookup canonical context.tables) null) rest
    | none ↦
        resolve_value_in_row (or_else (lookup context.base_key context.tables) null) (first ∷ rest)
  ]

  negated_value : Value → Value
  unfolding as_f64 f64_neg
  negated_value v = elim (as_f64 lib v) [ none ↦ null | some f ↦ number (float (f64_neg f)) ]

  unfoldable pub resolve_operand : RowContext → Expr → Result String Value
  unfolding resolve_identifier negated_value
  resolve_operand context (identifier ident) = ok (resolve_identifier context (ident ∷ []))
  resolve_operand context (compound_identifier idents) = ok (resolve_identifier context idents)
  resolve_operand context (value v) = ok (sql_value_to_json lib v)
  resolve_operand context (unary minus e) = resolve_operand context e >>= λ v. ok (negated_value v)
  resolve_operand context _ = err (sql_error "Unsupported SQL operand")

  unfoldable pub matches_using_constraint : RowContext → Value → List ObjectName → Bool
  unfolding resolve_identifier values_equal
  matches_using_constraint context join_row [] = true
  matches_using_constraint context join_row (name ∷ names) =
      let key = object_name_to_string name in
      values_equal (resolve_identifier context (key ∷ []))
        (resolve_value_in_row join_row (key ∷ []))
      && matches_using_constraint context join_row names

-- The loop of `matches_natural_constraint` over the fields of the left row.
agrees_with : Fields → Fields → Bool
agrees_with right end = true
agrees_with right (field key left_value fs) =
    let rest = agrees_with right fs in
    elim (get key right) [
      | none ↦ rest
      | some right_value ↦ values_equal left_value right_value && rest
    ]

unfoldable pub matches_natural_constraint : RowContext → Value → Bool
unfolding agrees_with
matches_natural_constraint context join_row = elim (lookup context.base_key context.tables) [
  | some (object left) ↦ elim (as_object join_row) [
    | none ↦ false
    | some right ↦ agrees_with right left
  ]
  | _ ↦ false
]

-- The loop of `RowContext::to_value` over the tables.
unfoldable pub output_fields : HashMap String → HashMap Value → Fields
output_fields names [] = end
output_fields names ((key, v) ∷ rest) =
    insert (or_else (lookup key names) key) v (output_fields names rest)

unfoldable pub to_value : RowContext → Value
unfolding output_fields
to_value context =
    if nat_eq (length context.tables) 1
    then or_else (lookup context.base_key context.tables) null
    else object (output_fields context.output_names context.tables)
