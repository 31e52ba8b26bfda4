-- ===== src/Sql/Parse.antt =====
-- `parse_sql` of ugoite-core/src/sql.rs, and what it accepts of a parsed statement.
pub mod Limits
pub mod Tests
use Prim.Native.Char.{code}
use Prim.Native.String
use ugoite.Common.{
  ℕ, suc, ◌+◌, ◌-◌, ◌*◌, ◌^◌, ◌≤◌, String, Bool, true, false, ◌&&◌, ◌||◌, not, Option, none, some,
  List, [], ◌∷◌, Result, ok, err, guard, ok_or, ◌>>=◌, ◌>>◌, ltb, leb, nat_eq, if◌then◌else◌,
  length, last?, ◌≡◌, >>=-inv, arith, Bool-cases, inl, inr, ok-injective, map_err,
}
use ugoite.Sql.Syntax.{
  ObjectName, Expr, value, unary, minus, SqlValue, number, Join, JoinConstraint, JoinOperator, join,
  inner, left, left_outer, right, right_outer, full_outer, cross_join, TableFactor, table,
  TableWithJoins, SelectItem, wildcard, qualified_wildcard, Select, OrderByExpr, OrderByKind,
  expressions, all_kind, LimitClause, limit_offset, offset_comma_limit, SetExpr, select_body, Query,
  Statement, query,
}

pub record SqlTableRef : Type 0 where
  pub name : String
  pub alias : Option String

pub data SqlJoinType : Type 0 where
  inner_join left_join right_join full_join cross : SqlJoinType

pub record SqlJoin : Type 0 where
  pub join_type : SqlJoinType
  pub table_ref : SqlTableRef
  pub constraint : JoinConstraint

pub record SqlQuery : Type 0 where
  pub from : SqlTableRef
  pub joins : List SqlJoin
  pub selection : Option Expr
  pub order_by : List OrderByExpr
  pub limit : Option ℕ

abbrev pub max_query_limit : ℕ
max_query_limit = 1000

abbrev pub sql_error : String → String
sql_error message = String.◌++◌ "UGOITE_SQL_ERROR: " message

-- `name.0.last().and_then(as_ident)`, or "entries"
unfoldable pub object_name_to_string : ObjectName → String
object_name_to_string name = elim (last? name) [ some (some ident) ↦ ident | _ ↦ "entries" ]

-- `str::parse::<i64>` on a numeral of the SQL tokenizer, which carries no sign: digits, in range.
parse_digits : ℕ → String → Option ℕ
parse_digits acc String.[] = some acc
parse_digits acc (String.◌∷◌ c s) =
    let n = code c in
    let rest = parse_digits (acc * 10 + (n - b'0')) s in
    if leb b'0' n && leb n b'9' then rest else none

parse_i64 : String → Option ℕ
unfolding parse_digits
parse_i64 String.[] = none
parse_i64 (String.◌∷◌ c s) = elim (parse_digits 0 (String.◌∷◌ c s)) [
  | none ↦ none
  | some n ↦ if ltb n (2 ^ 63) then some n else none
]

abbrev not_integer : String
not_integer = sql_error "LIMIT must be an integer literal"

check_limit : ℕ → Result String ℕ
check_limit n =
    if ltb max_query_limit n then err (sql_error "LIMIT exceeds maximum of 1000") else ok n

-- A negated numeral is refused unless it is zero: `-inner < 0`.
unfoldable pub parse_limit : Expr → Result String ℕ
unfolding parse_i64 check_limit
parse_limit (value (number num)) = ok_or (parse_i64 num) not_integer >>= check_limit
parse_limit (unary minus (value (number num))) = do
  n ← ok_or (parse_i64 num) not_integer
  if ltb 0 n then err (sql_error "LIMIT must be greater than or equal to 0") else check_limit n
parse_limit _ = err not_integer

unfoldable pub parse_limit_clause : LimitClause → Result String (Option ℕ)
unfolding parse_limit
parse_limit_clause (limit_offset limit (some _) _) =
    err (sql_error "OFFSET is not supported in Ugoite SQL")
parse_limit_clause (limit_offset limit none (_ ∷ _)) =
    err (sql_error "LIMIT BY is not supported in Ugoite SQL")
parse_limit_clause (limit_offset (some expr) none []) = parse_limit expr >>= λ n. ok (some n)
parse_limit_clause (limit_offset none none []) = ok none
parse_limit_clause offset_comma_limit =
    err (sql_error "LIMIT with comma offset is not supported in Ugoite SQL")

parse_order_by : Option OrderByKind → Result String (List OrderByExpr)
parse_order_by none = ok []
parse_order_by (some (expressions es)) = ok es
parse_order_by (some all_kind) = err (sql_error "ORDER BY ALL is not supported in Ugoite SQL")

parse_table_ref : TableFactor → Result String SqlTableRef
unfolding object_name_to_string
parse_table_ref (table name alias) =
    ok (record { name = object_name_to_string name; alias = alias })
parse_table_ref TableFactor.other =
    err (sql_error "Unsupported FROM clause (expected a table name)")

join_kind : JoinOperator → Result String (SqlJoinType × JoinConstraint)
join_kind (join c) = ok (inner_join, c)
join_kind (inner c) = ok (inner_join, c)
join_kind (left c) = ok (left_join, c)
join_kind (left_outer c) = ok (left_join, c)
join_kind (right c) = ok (right_join, c)
join_kind (right_outer c) = ok (right_join, c)
join_kind (full_outer c) = ok (full_join, c)
join_kind (cross_join c) = ok (cross, c)
join_kind JoinOperator.other =
    err (sql_error "Only INNER, LEFT, RIGHT, FULL, and CROSS joins are supported")

parse_join : Join → Result String SqlJoin
unfolding parse_table_ref join_kind
parse_join j = do
  t ← parse_table_ref j.relation
  (kind, constraint) ← join_kind j.join_operator
  ok (record { join_type = kind; table_ref = t; constraint = constraint })

parse_joins : List Join → Result String (List SqlJoin)
unfolding parse_join
parse_joins [] = ok []
parse_joins (j ∷ js) = parse_join j >>= λ first. parse_joins js >>= λ rest. ok (first ∷ rest)

is_wildcard : SelectItem → Bool
is_wildcard wildcard = true
is_wildcard qualified_wildcard = true
is_wildcard SelectItem.other = false

all_wildcards : List SelectItem → Bool
unfolding is_wildcard
all_wildcards [] = true
all_wildcards (item ∷ rest) = is_wildcard item && all_wildcards rest

-- `projection.is_empty() || !projection.iter().all(wildcard)` is refused.
selects_all : List SelectItem → Bool
unfolding all_wildcards
selects_all [] = false
selects_all (item ∷ rest) = all_wildcards (item ∷ rest)

parse_optional_limit : Option LimitClause → Result String (Option ℕ)
unfolding parse_limit_clause
parse_optional_limit none = ok none
parse_optional_limit (some clause) = parse_limit_clause clause

single_from : List TableWithJoins → Result String TableWithJoins
single_from (from ∷ []) = ok from
single_from _ = err (sql_error "Exactly one FROM target is required")

parse_select : Select → Query → Result String SqlQuery
unfolding selects_all single_from parse_table_ref parse_joins parse_order_by parse_optional_limit
parse_select select q = do
  guard (selects_all select.projection) (sql_error "Only SELECT * is supported in Ugoite SQL")
  source ← single_from select.from
  from_table ← parse_table_ref source.relation
  joins ← parse_joins source.joins
  order_by ← parse_order_by q.order_by
  limit ← parse_optional_limit q.limit_clause
  ok (record {
    from = from_table;
    joins = joins;
    selection = select.selection;
    order_by = order_by;
    limit = limit;
  })

parse_body : SetExpr → Query → Result String SqlQuery
unfolding parse_select
parse_body (select_body select) q = parse_select select q
parse_body SetExpr.other q = err (sql_error "Only SELECT queries are supported")

parse_statements : List Statement → Result String SqlQuery
unfolding parse_body
parse_statements (query q ∷ []) = parse_body q.body q
parse_statements (Statement.other ∷ []) = err (sql_error "Only SELECT queries are supported")
parse_statements _ = err (sql_error "Only a single SQL statement is supported")

-- `parser` is `sqlparser`'s `Parser::parse_sql`: the statements of a text, or its message.
unfoldable pub parse_sql :
    (parser : String → Result String (List Statement)) → String → Result String SqlQuery
unfolding parse_statements
parse_sql parser text =
    map_err (λ message. sql_error (String.◌++◌ "SQL parse error: " message)) (parser text)
    >>= parse_statements
