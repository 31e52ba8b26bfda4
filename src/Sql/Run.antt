-- ===== src/Sql/Run.antt =====
-- The evaluation of a query (`filter_entries_by_sql` and `compare_rows` of ugoite-core/src/sql.rs).
-- The comparisons that `sort_by` makes are those of a stable insertion sort; an error in one of
-- them is the error of the query.
use Prim.Native.String
use ugoite.Common.{
  Ordering, String, Bool, true, false, ◌&&◌, ◌||◌, not, Option, none, some, List, [], ◌∷◌, ◌++◌,
  map, Result, ok, err, ◌>>=◌, if◌then◌else◌, take, any,
}
use ugoite.Common.Maps.{HashMap, lookup}
use ugoite.Json.{Value, null}
use ugoite.Sql.Syntax.{
  Expr, identifier, compound_identifier, value, JoinConstraint, on, using, natural, unconstrained,
  OrderByExpr,
}
use ugoite.Sql.Parse.{
  SqlTableRef, SqlJoinType, left_join, right_join, full_join, SqlJoin, SqlQuery, max_query_limit,
  sql_error,
}
use ugoite.Sql.Values.{Library, compare_order}
use ugoite.Sql.Context.{
  RowContext, or_else, new_context, add_table, resolve_operand, matches_using_constraint,
  matches_natural_constraint, to_value,
}
use ugoite.Sql.Where.{matches_expr}

abbrev pub Tables : Type 0
Tables = HashMap (List Value)

abbrev pub keeps_left : SqlJoinType → Bool
keeps_left left_join = true
keeps_left full_join = true
keeps_left _ = false

abbrev pub keeps_right : SqlJoinType → Bool
keeps_right right_join = true
keeps_right full_join = true
keeps_right _ = false

-- Each flag of `right_matched` is set if it was set or the row matched now.
unfoldable pub or_each : List Bool → List Bool → List Bool
or_each [] bs = []
or_each (a ∷ as') [] = a ∷ as'
or_each (a ∷ as') (b ∷ bs) = (a || b) ∷ or_each as' bs

-- `for value in next.tables.values_mut() { *value = Value::Null; }`
unfoldable pub blank : HashMap Value → HashMap Value
blank [] = []
blank ((k, v) ∷ m) = (k, null) ∷ blank m

unfoldable pub unmatched_flags : List Value → List Bool
unmatched_flags [] = []
unmatched_flags (row ∷ rows) = false ∷ unmatched_flags rows

abbrev pub reverse_ordering : Ordering → Ordering
reverse_ordering Ordering.lt = Ordering.gt
reverse_ordering Ordering.eq = Ordering.eq
reverse_ordering Ordering.gt = Ordering.lt

abbrev pub can_order : Expr → Bool
can_order (identifier _) = true
can_order (compound_identifier _) = true
can_order (value _) = true
can_order _ = false

module _ (lib : Library) where
  unfoldable pub table_rows : Tables → String → Result String (List Value)
  table_rows tables name = elim (lookup (lib.to_lowercase name) tables) [
    | some rows ↦ ok rows
    | none ↦ err (sql_error (String.◌++◌ "Unknown table: " name))
  ]

  unfoldable pub row_matches : JoinConstraint → RowContext → RowContext → Value → Result String Bool
  row_matches (on expr) context next row = matches_expr lib next expr
  row_matches (using idents) context next row = ok (matches_using_constraint lib context row idents)
  row_matches natural context next row = ok (matches_natural_constraint context row)
  row_matches unconstrained context next row = ok true

  -- The rows of a joined table that match one context: the contexts that they give, and a flag
  -- for each row.
  unfoldable pub scan_rows :
      SqlJoin → RowContext → List Value → Result String (List RowContext × List Bool)
  unfolding row_matches
  scan_rows join context [] = ok ([], [])
  scan_rows join context (row ∷ rows) =
      let next = add_table lib context join.table_ref row in
      row_matches join.constraint context next row >>= λ hit.
      scan_rows join context rows >>= λ (more, flags).
      ok (if hit then next ∷ more else more, hit ∷ flags)

  -- A context without a match is kept by an outer join, with a null row.
  unfoldable pub padding : SqlJoin → RowContext → List Bool → List RowContext
  padding join context flags =
      if not (any (λ b. b) flags) && keeps_left join.join_type
      then add_table lib context join.table_ref null ∷ []
      else []

  unfoldable pub scan_contexts :
      SqlJoin
      → List Value
      → List RowContext
      → List Bool
      → Result String (List RowContext × List Bool)
  unfolding scan_rows padding
  scan_contexts join rows [] matched = ok ([], matched)
  scan_contexts join rows (context ∷ contexts) matched =
      scan_rows join context rows >>= λ (part, flags).
      scan_contexts join rows contexts (or_each matched flags) >>= λ (rest, all_flags).
      ok (part ++ padding join context flags ++ rest, all_flags)

  -- The rows that matched nothing, in the first context with all its rows null.
  unfoldable pub right_only : SqlJoin → RowContext → List Value → List Bool → List RowContext
  right_only join template [] flags = []
  right_only join template (row ∷ rows) [] = []
  right_only join template (row ∷ rows) (true ∷ flags) = right_only join template rows flags
  right_only join template (row ∷ rows) (false ∷ flags) =
      add_table lib (record template { tables = blank template.tables }) join.table_ref row
      ∷ right_only join template rows flags

  abbrev pub template_of : SqlTableRef → List RowContext → RowContext
  template_of from [] = new_context lib from null
  template_of from (first ∷ _) = first

  unfoldable pub run_join :
      Tables → SqlTableRef → SqlJoin → List RowContext → Result String (List RowContext)
  unfolding scan_contexts right_only table_rows
  run_join tables from join contexts = do
    join_rows ← table_rows tables join.table_ref.name
    (joined, right_matched) ← scan_contexts join join_rows contexts (unmatched_flags join_rows)
    ok (
        if keeps_right join.join_type
        then joined ++ right_only join (template_of from contexts) join_rows right_matched
        else joined)

  unfoldable pub run_joins :
      Tables → SqlTableRef → List SqlJoin → List RowContext → Result String (List RowContext)
  unfolding run_join
  run_joins tables from [] contexts = ok contexts
  run_joins tables from (join ∷ joins) contexts =
      run_join tables from join contexts >>= λ joined. run_joins tables from joins joined

  unfoldable pub select_rows : Option Expr → List RowContext → Result String (List RowContext)
  select_rows none contexts = ok contexts
  select_rows (some expr) [] = ok []
  select_rows (some expr) (context ∷ contexts) = matches_expr lib context expr >>= λ keep.
      select_rows (some expr) contexts >>= λ rest. ok (if keep then context ∷ rest else rest)

  unfoldable pub compare_rows : RowContext → RowContext → List OrderByExpr → Result String Ordering
  compare_rows left right [] = ok Ordering.eq
  compare_rows left right (order ∷ orders) =
      let rest = compare_rows left right orders in
      if not (can_order order.expr) then err (sql_error "Unsupported ORDER BY expression") else do
        left_value ← resolve_operand lib left order.expr
        right_value ← resolve_operand lib right order.expr
        elim (or_else (compare_order lib left_value right_value) Ordering.eq) [
          | Ordering.eq ↦ rest
          | ordering ↦ ok (if or_else order.asc true then ordering else reverse_ordering ordering)
        ]

  unfoldable pub insert_row :
      List OrderByExpr → RowContext → List RowContext → Result String (List RowContext)
  insert_row orders c [] = ok (c ∷ [])
  insert_row orders c (d ∷ ds) =
      let further = insert_row orders c ds in
      compare_rows c d orders >>= λ ordering. elim ordering [
        | Ordering.gt ↦ (further >>= λ rest. ok (d ∷ rest))
        | _ ↦ ok (c ∷ d ∷ ds)
      ]

  unfoldable pub sort_rows : List OrderByExpr → List RowContext → Result String (List RowContext)
  unfolding insert_row
  sort_rows orders [] = ok []
  sort_rows orders (c ∷ cs) = sort_rows orders cs >>= λ sorted. insert_row orders c sorted

  unfoldable pub order_rows : List OrderByExpr → List RowContext → Result String (List RowContext)
  unfolding sort_rows
  order_rows [] contexts = ok contexts
  order_rows (order ∷ orders) contexts = sort_rows (order ∷ orders) contexts

  unfoldable pub base_contexts : SqlTableRef → List Value → List RowContext
  base_contexts from rows = map (new_context lib from) rows

  unfoldable pub filter_entries_by_sql : Tables → SqlQuery → Result String (List Value)
  unfolding run_joins select_rows order_rows base_contexts table_rows
  filter_entries_by_sql tables query = do
    base_rows ← table_rows tables query.from.name
    contexts ← run_joins tables query.from query.joins (base_contexts query.from base_rows)
    filtered ← select_rows query.selection contexts
    ordered ← order_rows query.order_by filtered
    ok (map to_value (take (or_else query.limit max_query_limit) ordered))
