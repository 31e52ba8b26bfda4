-- ===== src/Sql/Plain.antt =====
-- A query of one table (`filter_entries_by_sql`, ugoite-core/src/sql.rs).
use ugoite.Common.{
  String, ◌≡◌, refl, ap, Bool, true, false, some, List, [], ◌∷◌, map, Result, ok, if◌then◌else◌,
  take, retain, str_eq_refl, zero, suc, ℕ,
}
use ugoite.Common.Maps.{lookup, put}
use ugoite.Json.{Value}
use ugoite.Sql.Syntax.{Expr}
use ugoite.Sql.Parse.{SqlTableRef, SqlQuery, max_query_limit}
use ugoite.Sql.Values.{Library}
use ugoite.Sql.Context.{RowContext, or_else, new_context, to_value, canonical_table_key}
use ugoite.Sql.Where.{matches_expr}
use ugoite.Sql.Run.{
  Tables, table_rows, run_joins, select_rows, order_rows, base_contexts, filter_entries_by_sql,
}

module _ (lib : Library) where
  to_value-new_context :
      (from : SqlTableRef) (row : Value) → to_value (new_context lib from row) ≡ row
  unfolding to_value new_context put lookup
  to_value-new_context from row = rw (str_eq_refl (canonical_table_key lib from)) refl

  module _ (from : SqlTableRef) (p : Value → Bool) where
    values-base_contexts : (rows : List Value) → map to_value (base_contexts lib from rows) ≡ rows
    unfolding base_contexts
    values-base_contexts [] = refl
    values-base_contexts (row ∷ rows) =
        rw (to_value-new_context from row, values-base_contexts rows) refl

    select_rows-retain :
        (expr : Expr)
        → ((row : Value) → matches_expr lib (new_context lib from row) expr ≡ ok (p row))
        → (rows : List Value)
        → select_rows lib (some expr) (base_contexts lib from rows)
          ≡ ok (base_contexts lib from (retain p rows))
    unfolding select_rows base_contexts retain
    select_rows-retain expr h [] = refl
    select_rows-retain expr h (row ∷ rows) =
        rw (h row, select_rows-retain expr h rows) (by_test (p row))
      where
        by_test :
            (b : Bool)
            → ◌≡◌ {A = Result String (List RowContext)}
                (ok (
                  if b
                  then new_context lib from row ∷ map (new_context lib from) (retain p rows)
                  else map (new_context lib from) (retain p rows)))
                (ok (map (new_context lib from) (if b then row ∷ retain p rows else retain p rows)))
        by_test true = refl
        by_test false = refl

    take-values :
        (n : ℕ) (rows : List Value)
        → map to_value (take n (base_contexts lib from rows)) ≡ take n rows
    unfolding base_contexts
    take-values zero rows = refl
    take-values (suc n) [] = refl
    take-values (suc n) (row ∷ rows) = rw (to_value-new_context from row, take-values n rows) refl

  -- A query of one table without joins and without an order returns the rows of the table in which
  -- the condition holds, unchanged and in their order, up to the limit of the query or 1000, where
  -- the condition has a value in every row.
  pub filter_entries_by_sql-retain :
      (tables : Tables) (query : SqlQuery) (expr : Expr) (p : Value → Bool) (rows : List Value)
      → query.joins ≡ []
      → query.order_by ≡ []
      → query.selection ≡ some expr
      → lookup (lib.to_lowercase query.from.name) tables ≡ some rows
      → ((row : Value) → matches_expr lib (new_context lib query.from row) expr ≡ ok (p row))
      → filter_entries_by_sql lib tables query
        ≡ ok (take (or_else query.limit max_query_limit) (retain p rows))
  unfolding filter_entries_by_sql table_rows run_joins order_rows
  filter_entries_by_sql-retain tables query expr p rows j o s t h =
      rw
        (filter_entries_by_sql, table_rows, t, j, s, select_rows-retain query.from p expr h rows, o)
        (ap ok (take-values query.from p (or_else query.limit max_query_limit) (retain p rows)))
