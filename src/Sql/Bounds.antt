-- ===== src/Sql/Bounds.antt =====
-- How many rows a query returns, and what their order keeps (`filter_entries_by_sql`,
-- ugoite-core/src/sql.rs).
use ugoite.Common.{
  ℕ, ◌≤◌, min, String, ◌≡◌, sym, ap, ◌∙◌, Option, none, some, List, [], ◌∷◌, arith, Result, ok,
  ◌>>=◌, >>=-inv, ok-injective, length, length-take, length-map, All, Ordering,
}
use ugoite.Json.{Value}
use ugoite.Sql.Syntax.{Statement, OrderByExpr}
use ugoite.Sql.Parse.{SqlQuery, max_query_limit, parse_sql}
use ugoite.Sql.Parse.Limits.{IsLimited, parse_sql-IsLimited}
use ugoite.Sql.Values.{Library}
use ugoite.Sql.Context.{RowContext, or_else, to_value}
use ugoite.Sql.Run.{
  Tables, filter_entries_by_sql, table_rows, run_joins, select_rows, order_rows, sort_rows,
  insert_row, compare_rows, base_contexts,
}

or_else-le : (limit : Option ℕ) → IsLimited limit → or_else limit max_query_limit ≤ max_query_limit
or_else-le none h = omega arith
or_else-le (some n) h = h

module _ (lib : Library) where
  -- A query whose text `parse_sql` accepts returns at most 1000 rows, with or without a LIMIT.
  pub length-filter_entries_by_sql :
      (parser : String → Result String (List Statement)) (text : String) (tables : Tables)
      (query : SqlQuery) (rows : List Value)
      → parse_sql parser text ≡ ok query
      → filter_entries_by_sql lib tables query ≡ ok rows
      → (length rows ≤ or_else query.limit max_query_limit) × (length rows ≤ max_query_limit)
  unfolding filter_entries_by_sql
  length-filter_entries_by_sql parser text tables query rows p h =
      >>=-inv (table_rows lib tables query.from.name) _ h λ base e0 h0.
        >>=-inv (run_joins lib tables query.from query.joins (base_contexts lib query.from base)) _
          h0
          λ contexts e1 h1.
            >>=-inv (select_rows lib query.selection contexts) _ h1 λ filtered e2 h2.
              >>=-inv (order_rows lib query.order_by filtered) _ h2 λ ordered e3 h3.
                let bound = or_else-le query.limit (parse_sql-IsLimited parser text query p) in
                let size : length rows
                    ≡ min (or_else query.limit max_query_limit) (length ordered) =
                  ap length (sym (ok-injective h3))
                  ∙ length-map to_value _
                  ∙ length-take _ ordered in
                (omega arith, omega arith)

  module _ (P : RowContext → Type 0) where
    insert_row-All :
        (orders : List OrderByExpr) (c : RowContext) (ds out : List RowContext)
        → insert_row lib orders c ds ≡ ok out
        → P c
        → All P ds
        → All P out
    unfolding insert_row
    insert_row-All orders c [] out h p ps = rw (← ok-injective h) (p, tt)
    insert_row-All orders c (d ∷ ds) out h p (q, ps) =
        >>=-inv (compare_rows lib c d orders) _ h
          λ ordering e0 h0. placed ordering h0 (λ rest e. insert_row-All orders c ds rest e p ps)
      where
        placed :
            (o : Ordering)
            → elim o [
              | Ordering.gt ↦ (insert_row lib orders c ds >>= λ rest. ok (d ∷ rest))
              | _ ↦ ok (c ∷ d ∷ ds)
            ]
              ≡ ok out
            → ((rest : List RowContext) → insert_row lib orders c ds ≡ ok rest → All P rest)
            → All P out
        placed Ordering.lt k further = rw (← ok-injective k) (p, (q, ps))
        placed Ordering.eq k further = rw (← ok-injective k) (p, (q, ps))
        placed Ordering.gt k further =
            >>=-inv (insert_row lib orders c ds) _ k
              λ rest e j. rw (← ok-injective j) (q, further rest e)

    sort_rows-All :
        (orders : List OrderByExpr) (cs out : List RowContext)
        → sort_rows lib orders cs ≡ ok out
        → All P cs
        → All P out
    unfolding sort_rows
    sort_rows-All orders [] out h ps = rw (← ok-injective h) tt
    sort_rows-All orders (c ∷ cs) out h (p, ps) =
        >>=-inv (sort_rows lib orders cs) _ h
          λ sorted e k. insert_row-All orders c sorted out k p (sort_rows-All orders cs sorted e ps)

    pub order_rows-All :
        (orders : List OrderByExpr) (cs out : List RowContext)
        → order_rows lib orders cs ≡ ok out
        → All P cs
        → All P out
    unfolding order_rows
    order_rows-All [] cs out h ps = rw (← ok-injective h) ps
    order_rows-All (order ∷ orders) cs out h ps = sort_rows-All (order ∷ orders) cs out h ps
