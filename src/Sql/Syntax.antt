-- ===== src/Sql/Syntax.antt =====
-- The part of the syntax tree of the `sqlparser` crate that ugoite-core/src/sql.rs looks into. What
-- the code treats alike is one constructor, `other`.
use ugoite.Common.{String, Bool, Option, List, [], ◌∷◌}

-- A part of a qualified name: its identifier, if it is one.
abbrev pub ObjectName : Type 0
ObjectName = List (Option String)

pub data BinaryOperator : Type 0 where
  and_op or_op eq_op not_eq gt gt_eq lt lt_eq : BinaryOperator
  other : String → BinaryOperator

pub data UnaryOperator : Type 0 where
  minus not_op : UnaryOperator
  other : String → UnaryOperator

pub data SqlValue : Type 0 where
  number single_quoted double_quoted : String → SqlValue
  boolean : Bool → SqlValue
  null_value : SqlValue
  other : SqlValue

mutual
  pub data Expr : Type 0 where
    identifier : String → Expr
    compound_identifier : List String → Expr
    value : SqlValue → Expr
    binary : Expr → BinaryOperator → Expr → Expr
    unary : UnaryOperator → Expr → Expr
    nested : Expr → Expr
    is_null_expr is_not_null_expr : Expr → Expr
    in_list : Expr → Exprs → (negated : Bool) → Expr
    like ilike : (negated : Bool) → Expr → (pattern_expr : Expr) → Expr
    between : Expr → (low high : Expr) → (negated : Bool) → Expr
    other : String → Expr

  pub data Exprs : Type 0 where
    nil : Exprs
    cons : Expr → Exprs → Exprs

unfoldable pub exprs : Exprs → List Expr
exprs nil = []
exprs (cons e es) = e ∷ exprs es

pub data JoinConstraint : Type 0 where
  on : Expr → JoinConstraint
  using : List ObjectName → JoinConstraint
  natural unconstrained : JoinConstraint

pub data JoinOperator : Type 0 where
  join inner left left_outer right right_outer full_outer cross_join : JoinConstraint → JoinOperator
  other : JoinOperator

pub data TableFactor : Type 0 where
  table : (name : ObjectName) → (alias : Option String) → TableFactor
  other : TableFactor

pub record Join : Type 0 where
  pub relation : TableFactor
  pub join_operator : JoinOperator

pub record TableWithJoins : Type 0 where
  pub relation : TableFactor
  pub joins : List Join

pub data SelectItem : Type 0 where
  wildcard qualified_wildcard : SelectItem
  other : SelectItem

pub record Select : Type 0 where
  pub projection : List SelectItem
  pub from : List TableWithJoins
  pub selection : Option Expr

pub record OrderByExpr : Type 0 where
  pub expr : Expr
  pub asc : Option Bool

pub data OrderByKind : Type 0 where
  expressions : List OrderByExpr → OrderByKind
  all_kind : OrderByKind

pub data LimitClause : Type 0 where
  limit_offset : (limit offset : Option Expr) → (limit_by : List Expr) → LimitClause
  offset_comma_limit : LimitClause

pub data SetExpr : Type 0 where
  select_body : Select → SetExpr
  other : SetExpr

pub record Query : Type 0 where
  pub body : SetExpr
  pub order_by : Option OrderByKind
  pub limit_clause : Option LimitClause

pub data Statement : Type 0 where
  query : Query → Statement
  other : Statement
