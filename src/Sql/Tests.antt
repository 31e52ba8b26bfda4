-- ===== src/Sql/Tests.antt =====
-- Runs of queries over one table of two rows.
use ugoite.Common.{
  List, ◌≤◌, Ordering, ◌≡◌, refl, true, false, some, [], ◌∷◌, ok, ◌>>=◌, ◌==◌, length, take, retain,
  All, ◌⊎◌, inl, inr, any,
}
use ugoite.Common.Maps.{lookup, put}
use ugoite.Json.{Value, null, object, string, number, pos_int}
use ugoite.Json.Object.{insert, from_list, get}
use ugoite.Json.Float.{f64_cmp}
use ugoite.Sql.Syntax.{
  Expr, Exprs, nil, cons, identifier, value, binary, unary, not_op, in_list, between, and_op, or_op,
  eq_op, gt_eq, lt_eq, is_not_null_expr, SqlValue, single_quoted, Statement, query, Query,
  select_body, Select, wildcard, table, TableWithJoins, limit_offset, Join, left, unconstrained,
}
use ugoite.Sql.Parse.{SqlJoin, left_join, max_query_limit}
use ugoite.Sql.Parse.Tests.{entries_ref, always, always_query, always_parser, parsed_always}
use ugoite.Sql.Values.{Library, sql_value_to_json}
use ugoite.Sql.Context.{
  RowContext, new_context, add_table, or_else, resolve_operand, to_value, canonical_table_key,
  resolve_identifier,
}
use ugoite.Sql.Where.{matches_expr, negate_if}
use ugoite.Sql.Run.{
  Tables, filter_entries_by_sql, table_rows, run_join, run_joins, scan_contexts, scan_rows,
  row_matches, padding, select_rows, order_rows, base_contexts, unmatched_flags, or_each,
}
use ugoite.Sql.Bounds.{length-filter_entries_by_sql}
use ugoite.Sql.Joined.{IsAnswer, Continues, filter_entries_by_sql-Holds}
use ugoite.Sql.Provenance.{IsOutput, filter_entries_by_sql-IsOutput}
use ugoite.Sql.Semantics.{matches_expr-between, matches_expr-in_list, matches_expr-integer}
use ugoite.Sql.Plain.{filter_entries_by_sql-retain}
use ugoite.Sql.Joins.{Some, run_join-Continues}

-- Every numeral is read as 1.0, and every integer converted to it.
abbrev lib : Library
lib = record {
  f64_of_pos = λ n. 4607182418800017408;
  f64_of_neg = λ n. 4607182418800017408;
  parse_f64 = λ s. some 4607182418800017408;
  to_lowercase = λ s. s;
  regex_escape = λ c. "x";
  regex_is_match = λ p t. false;
}

abbrev first_row : Value
first_row = object (from_list (("title", string "a") ∷ ("size", number (pos_int 1)) ∷ []))

abbrev second_row : Value
second_row = object (from_list (("title", string "b") ∷ []))

abbrev tables : Tables
tables = ("entries", first_row ∷ second_row ∷ []) ∷ []

abbrev one : Expr
one = value (single_quoted "1")

selected : filter_entries_by_sql lib tables always_query ≡ ok (first_row ∷ [])
unfolding filter_entries_by_sql table_rows run_joins select_rows order_rows base_contexts
    matches_expr resolve_operand new_context put lookup to_value from_list insert
    canonical_table_key sql_value_to_json ◌==◌
selected = refl

length-filter_entries_by_sql_example :
    (length (first_row ∷ []) ≤ or_else always_query.limit max_query_limit)
    × (length (first_row ∷ []) ≤ max_query_limit)
length-filter_entries_by_sql_example =
    length-filter_entries_by_sql lib always_parser
      "SELECT * FROM entries WHERE '1' IS NOT NULL LIMIT 1" tables always_query (first_row ∷ [])
      parsed_always selected

filter_entries_by_sql-Holds_example :
    All
      (λ r. (c : RowContext) × (r ≡ to_value c) × IsAnswer lib tables always_query c)
      (first_row ∷ [])
filter_entries_by_sql-Holds_example =
    filter_entries_by_sql-Holds lib tables always_query (first_row ∷ []) selected

-- A row of the table, or null.
abbrev IsShown : Value → Type 0
IsShown v = (v ≡ first_row) ⊎ (v ≡ second_row) ⊎ (v ≡ null)

filter_entries_by_sql-IsOutput_example : All (IsOutput IsShown) (first_row ∷ [])
filter_entries_by_sql-IsOutput_example =
    filter_entries_by_sql-IsOutput IsShown (inr (inr refl)) lib tables always_query (first_row ∷ [])
      ((inl refl, (inr (inl refl), tt)), tt) selected

always_holds : (row : Value) → matches_expr lib (new_context lib entries_ref row) always ≡ ok true
unfolding matches_expr resolve_operand sql_value_to_json
always_holds row = refl

found : lookup "entries" tables ≡ some (first_row ∷ second_row ∷ [])
unfolding lookup ◌==◌
found = refl

filter_entries_by_sql-retain_example :
    filter_entries_by_sql lib tables always_query
    ≡ ok (
        take
          (or_else always_query.limit max_query_limit)
          (retain (λ row. true) (first_row ∷ second_row ∷ [])))
filter_entries_by_sql-retain_example =
    filter_entries_by_sql-retain lib tables always_query always (λ row. true)
      (first_row ∷ second_row ∷ []) refl refl refl found always_holds

abbrev context : RowContext
context = new_context lib entries_ref first_row

resolves_one : resolve_operand lib context one ≡ ok (string "1")
unfolding resolve_operand sql_value_to_json
resolves_one = refl

matches_expr-between_example : matches_expr lib context (between one one one true) ≡ (
    matches_expr lib context (binary (binary one gt_eq one) and_op (binary one lt_eq one)) >>= λ b.
    ok (negate_if true b))
matches_expr-between_example =
    matches_expr-between lib context one one one true (string "1") resolves_one

matches_expr-in_list_example :
    (matches_expr lib context (in_list one nil false)
      ≡ (resolve_operand lib context one >>= λ _. ok false))
    × (matches_expr lib context (in_list one (cons one nil) false)
        ≡ matches_expr lib context (binary (binary one eq_op one) or_op (in_list one nil false)))
    × (matches_expr lib context (in_list one nil true)
        ≡ matches_expr lib context (unary not_op (in_list one nil false)))
matches_expr-in_list_example = matches_expr-in_list lib context one one nil

abbrev size : Expr
size = identifier "size"

resolves_size : resolve_operand lib context size ≡ ok (number (pos_int 1))
unfolding resolve_operand resolve_identifier new_context put lookup canonical_table_key from_list
    insert get ◌==◌
resolves_size = refl

equal_floats : f64_cmp 4607182418800017408 4607182418800017408 ≡ Ordering.eq
unfolding f64_cmp
equal_floats = refl

matches_expr-integer_example :
    (matches_expr lib context (binary size gt_eq (value (SqlValue.number "1"))) ≡ ok true)
    × (matches_expr lib context (binary size lt_eq (value (SqlValue.number "1"))) ≡ ok true)
    × (matches_expr lib context (binary size eq_op (value (SqlValue.number "1"))) ≡ ok false)
matches_expr-integer_example =
    matches_expr-integer lib context size 1 "1" 4607182418800017408 resolves_size refl equal_floats

-- A left join to the same table, under another name, on a condition that never holds.
abbrev self_join : SqlJoin
self_join = record {
  join_type = left_join;
  table_ref = record { name = "entries"; alias = some "other" };
  constraint = ugoite.Sql.Syntax.on (unary not_op always);
}

abbrev joined : RowContext
joined = add_table lib context (record { name = "entries"; alias = some "other" }) null

joins : run_join lib tables entries_ref self_join (context ∷ []) ≡ ok (joined ∷ [])
unfolding run_join table_rows scan_contexts scan_rows row_matches padding matches_expr
    resolve_operand unmatched_flags or_each sql_value_to_json any lookup ◌==◌
joins = refl

run_join-Continues_example :
    (rows : List Value) × (table_rows lib tables self_join.table_ref.name ≡ ok rows)
    × All (λ c. Some (Continues lib self_join rows c) (joined ∷ [])) (context ∷ [])
run_join-Continues_example =
    run_join-Continues lib self_join tables entries_ref (context ∷ []) (joined ∷ []) refl joins
