-- ===== src/Sql/Where.antt =====
-- The condition of a query (`matches_expr` of ugoite-core/src/sql.rs).
use Prim.Native.String
use ugoite.Common.{
  String, Bool, true, false, ◌&&◌, not, List, [], ◌∷◌, Result, ok, err, ◌>>=◌, if◌then◌else◌,
}
use ugoite.Json.{Value, as_str, is_null}
use ugoite.Sql.Syntax.{
  BinaryOperator, and_op, or_op, eq_op, not_eq, gt, gt_eq, lt, lt_eq, not_op, Expr, binary, unary,
  nested, is_null_expr, is_not_null_expr, in_list, like, ilike, between, exprs,
}
use ugoite.Sql.Parse.{sql_error}
use ugoite.Sql.Values.{Library, compare_values, like_match}
use ugoite.Sql.Context.{RowContext, resolve_operand, or_else}

abbrev pub is_comparison : BinaryOperator → Bool
is_comparison eq_op = true
is_comparison not_eq = true
is_comparison gt = true
is_comparison gt_eq = true
is_comparison lt = true
is_comparison lt_eq = true
is_comparison _ = false

-- The text of an operator that is no comparison.
abbrev operator_text : BinaryOperator → String
operator_text (BinaryOperator.other text) = text
operator_text _ = ""

abbrev pub negate_if : Bool → Bool → Bool
negate_if negated matches = if negated then not matches else matches

module _ (lib : Library) (context : RowContext) where
  unfoldable pub compare_operands : Expr → BinaryOperator → Expr → Result String Bool
  compare_operands left op right = do
    left_value ← resolve_operand lib context left
    right_value ← resolve_operand lib context right
    compare_values lib left_value right_value op

  -- The loop over the items of `IN`, which ends at the first one that is equal.
  unfoldable pub in_items : Value → List Expr → Result String Bool
  in_items v [] = ok false
  in_items v (item ∷ list) =
      let rest = in_items v list in
      do
        expected ← resolve_operand lib context item
        found ← compare_values lib v expected eq_op
        if found then ok true else rest

  unfoldable pub matches_expr : Expr → Result String Bool
  unfolding compare_operands in_items
  matches_expr (binary left and_op right) =
      let second = matches_expr right in
      matches_expr left >>= λ first. if first then second else ok false
  matches_expr (binary left or_op right) =
      let second = matches_expr right in
      matches_expr left >>= λ first. if first then ok true else second
  matches_expr (binary left op right) =
      if is_comparison op
      then compare_operands left op right
      else err (sql_error (String.◌++◌ "Unsupported SQL operator: " (operator_text op)))
  matches_expr (nested inner) = matches_expr inner
  matches_expr (unary not_op e) = matches_expr e >>= λ b. ok (not b)
  matches_expr (is_null_expr e) = resolve_operand lib context e >>= λ v. ok (is_null v)
  matches_expr (is_not_null_expr e) = resolve_operand lib context e >>= λ v. ok (not (is_null v))
  matches_expr (in_list e list negated) = do
    v ← resolve_operand lib context e
    matches ← in_items v (exprs list)
    ok (negate_if negated matches)
  matches_expr (like negated e pattern_expr) = do
    v ← resolve_operand lib context e
    pattern_value ← resolve_operand lib context pattern_expr
    ok (
        negate_if negated
          (like_match lib (or_else (as_str v) "") (or_else (as_str pattern_value) "")))
  matches_expr (ilike negated e pattern_expr) = do
    v ← resolve_operand lib context e
    pattern_value ← resolve_operand lib context pattern_expr
    ok (
        negate_if negated (
          like_match lib (lib.to_lowercase (or_else (as_str v) ""))
            (lib.to_lowercase (or_else (as_str pattern_value) ""))))
  matches_expr (between e low high negated) = do
    v ← resolve_operand lib context e
    low_value ← resolve_operand lib context low
    high_value ← resolve_operand lib context high
    lower_ok ← compare_values lib v low_value gt_eq
    upper_ok ← compare_values lib v high_value lt_eq
    ok (negate_if negated (lower_ok && upper_ok))
  matches_expr _ = err (sql_error "Unsupported SQL expression")
