-- ===== src/Sql/Parse/Limits.antt =====
-- The limit of a query that `parse_sql` accepts (ugoite-core/src/sql.rs).
use ugoite.Common.{
  ℕ, ◌≤◌, String, ◌≡◌, Option, none, some, List, [], ◌∷◌, arith, Result, ok, guard, ok_or, >>=-inv,
  ok-injective, ◌∙◌, subst, map_err,
}
use ugoite.Sql.Syntax.{
  Expr, Select, Query, LimitClause, limit_offset, offset_comma_limit, Statement, query, SetExpr,
  select_body, value, unary, minus, SqlValue,
}
use ugoite.Sql.Parse.{
  SqlQuery, max_query_limit, check_limit, parse_limit, parse_limit_clause, parse_optional_limit,
  parse_select, parse_body, parse_statements, parse_sql, selects_all, single_from, parse_table_ref,
  parse_joins, parse_order_by, parse_i64, not_integer,
}

-- A limit that is set is at most 1000.
abbrev pub IsLimited : Option ℕ → Type 0
IsLimited none = Unit
IsLimited (some n) = n ≤ max_query_limit

check_limit-le : (n m : ℕ) → check_limit n ≡ ok m → m ≤ max_query_limit
unfolding check_limit
check_limit-le n m h = ground arith

parse_limit-le : (e : Expr) (n : ℕ) → parse_limit e ≡ ok n → n ≤ max_query_limit
unfolding parse_limit
parse_limit-le (value (SqlValue.number num)) n h =
    >>=-inv (ok_or (parse_i64 num) not_integer) check_limit h λ m e k. check_limit-le m n k
parse_limit-le (unary minus (value (SqlValue.number num))) n h =
    >>=-inv (ok_or (parse_i64 num) not_integer) _ h λ m e k. check_limit-le m n (ground arith)
parse_limit-le _ n h = cc

parse_limit_clause-IsLimited :
    (clause : LimitClause) (limit : Option ℕ)
    → parse_limit_clause clause ≡ ok limit
    → IsLimited limit
unfolding parse_limit_clause
parse_limit_clause-IsLimited clause none h = tt
parse_limit_clause-IsLimited (limit_offset (some expr) none []) (some n) h =
    >>=-inv (parse_limit expr) _ h λ m e k. parse_limit-le expr n (e ∙ cc k)
parse_limit_clause-IsLimited (limit_offset limit (some _) _) (some n) h = cc
parse_limit_clause-IsLimited (limit_offset none none []) (some n) h = cc
parse_limit_clause-IsLimited (limit_offset limit none (_ ∷ _)) (some n) h = cc
parse_limit_clause-IsLimited offset_comma_limit (some n) h = cc

parse_optional_limit-IsLimited :
    (clause : Option LimitClause) (limit : Option ℕ)
    → parse_optional_limit clause ≡ ok limit
    → IsLimited limit
unfolding parse_optional_limit
parse_optional_limit-IsLimited none limit h = rw (← ok-injective h) tt
parse_optional_limit-IsLimited (some clause) limit h = parse_limit_clause-IsLimited clause limit h

parse_select-IsLimited :
    (select : Select) (q : Query) {out : SqlQuery}
    → parse_select select q ≡ ok out
    → IsLimited out.limit
unfolding parse_select
parse_select-IsLimited select q {out} h =
    >>=-inv (guard (selects_all select.projection) _) _ h λ _ e0 h0.
      >>=-inv (single_from select.from) _ h0 λ source e1 h1.
        >>=-inv (parse_table_ref source.relation) _ h1 λ from e2 h2.
          >>=-inv (parse_joins source.joins) _ h2 λ joins e3 h3.
            >>=-inv (parse_order_by q.order_by) _ h3 λ order_by e4 h4.
              >>=-inv (parse_optional_limit q.limit_clause) _ h4 λ limit e5 h5.
                subst (λ o. IsLimited o.limit) (ok-injective h5)
                  (parse_optional_limit-IsLimited q.limit_clause limit e5)

parse_body-IsLimited :
    (body : SetExpr) (q : Query) {out : SqlQuery} → parse_body body q ≡ ok out → IsLimited out.limit
unfolding parse_body
parse_body-IsLimited (select_body select) q h = parse_select-IsLimited select q h
parse_body-IsLimited SetExpr.other q h = absurd (cc)

parse_statements-IsLimited :
    (statements : List Statement) {out : SqlQuery}
    → parse_statements statements ≡ ok out
    → IsLimited out.limit
unfolding parse_statements
parse_statements-IsLimited (query q ∷ []) h = parse_body-IsLimited q.body q h
parse_statements-IsLimited (Statement.other ∷ []) h = absurd (cc)
parse_statements-IsLimited [] h = absurd (cc)
parse_statements-IsLimited (query q ∷ (b ∷ rest)) h = absurd (cc)
parse_statements-IsLimited (Statement.other ∷ (b ∷ rest)) h = absurd (cc)

-- A query that is accepted has no limit, or one of at most 1000 rows.
pub parse_sql-IsLimited :
    (parser : String → Result String (List Statement)) (text : String) (out : SqlQuery)
    → parse_sql parser text ≡ ok out
    → IsLimited out.limit
unfolding parse_sql
parse_sql-IsLimited parser text out h =
    >>=-inv (map_err _ (parser text)) parse_statements h
      λ statements e k. parse_statements-IsLimited statements k
