-- ===== src/Sql/Parse/Tests.antt =====
-- Two statements that `parse_sql` accepts.
use ugoite.Common.{String, ◌≡◌, refl, Option, none, some, List, [], ◌∷◌, Result, ok, last?}
use ugoite.Sql.Syntax.{
  Expr, value, is_not_null_expr, SqlValue, single_quoted, Statement, query, select_body, wildcard,
  table, limit_offset, LimitClause,
}
use ugoite.Sql.Parse.{
  SqlTableRef, SqlQuery, parse_sql, parse_statements, parse_body, parse_select, selects_all,
  single_from, parse_table_ref, parse_joins, parse_order_by, parse_optional_limit,
  parse_limit_clause, parse_limit, parse_i64, parse_digits, check_limit, object_name_to_string,
  all_wildcards, is_wildcard,
}
use ugoite.Sql.Parse.Limits.{IsLimited, parse_sql-IsLimited}

abbrev pub entries_ref : SqlTableRef
entries_ref = record { name = "entries"; alias = none }

-- A condition that holds in every row.
abbrev pub always : Expr
always = is_not_null_expr (value (single_quoted "1"))

abbrev statement : Option Expr → Option LimitClause → Statement
statement selection limit_clause = query (record {
  body = select_body (record {
    projection = wildcard ∷ [];
    from = record { relation = table (some "entries" ∷ []) none; joins = [] } ∷ [];
    selection = selection;
  });
  order_by = none;
  limit_clause = limit_clause;
})

abbrev pub always_query : SqlQuery
always_query = record {
  from = entries_ref;
  joins = [];
  selection = some always;
  order_by = [];
  limit = some 1;
}

abbrev pub always_parser : String → Result String (List Statement)
always_parser = λ text. ok (
    statement (some always) (some (limit_offset (some (value (SqlValue.number "1"))) none [])) ∷ [])

pub parsed_always :
    parse_sql always_parser "SELECT * FROM entries WHERE '1' IS NOT NULL LIMIT 1" ≡ ok always_query
unfolding parse_sql parse_statements parse_body parse_select selects_all all_wildcards is_wildcard
    single_from parse_table_ref parse_joins parse_order_by parse_optional_limit parse_limit_clause
    parse_limit parse_i64 parse_digits check_limit object_name_to_string last?
parsed_always = refl

abbrev pub all_query : SqlQuery
all_query = record { from = entries_ref; joins = []; selection = none; order_by = []; limit = none }

abbrev pub all_parser : String → Result String (List Statement)
all_parser = λ text. ok (statement none none ∷ [])

pub parsed_all : parse_sql all_parser "SELECT * FROM entries" ≡ ok all_query
unfolding parse_sql parse_statements parse_body parse_select selects_all all_wildcards is_wildcard
    single_from parse_table_ref parse_joins parse_order_by parse_optional_limit
    object_name_to_string last?
parsed_all = refl

parse_sql-IsLimited_example : IsLimited (some 1)
parse_sql-IsLimited_example =
    parse_sql-IsLimited always_parser "SELECT * FROM entries WHERE '1' IS NOT NULL LIMIT 1"
      always_query parsed_always
