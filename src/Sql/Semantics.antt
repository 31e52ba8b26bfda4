-- ===== src/Sql/Semantics.antt =====
-- What the operators of a condition mean (`matches_expr`, ugoite-core/src/sql.rs).
use ugoite.Common.{
  ℕ, Ordering, String, ◌≡◌, refl, Bool, true, false, ◌&&◌, not, some, [], Result, ok, err, ◌>>=◌,
  if◌then◌else◌, arith,
}
use ugoite.Json.{Value, number, pos_int}
use ugoite.Json.Float.{f64_cmp}
use ugoite.Sql.Syntax.{
  Expr, Exprs, nil, cons, exprs, value, binary, unary, not_op, in_list, between, and_op, or_op,
  eq_op, gt_eq, lt_eq, SqlValue,
}
use ugoite.Sql.Values.{
  Library, compare_values, values_equal, value_eq, number_eq, compare_order, number_as_f64,
  sql_value_to_json, is_at_least, is_at_most,
}
use ugoite.Sql.Context.{RowContext, resolve_operand}
use ugoite.Sql.Where.{matches_expr, compare_operands, in_items, negate_if}

module _ (lib : Library) (context : RowContext) where
  -- `e BETWEEN low AND high` is `e >= low AND e <= high`, and its negation `NOT` of that, when `high`
  -- has a value.
  pub matches_expr-between :
      (e low high : Expr) (negated : Bool) (bound : Value)
      → resolve_operand lib context high ≡ ok bound
      → matches_expr lib context (between e low high negated) ≡ (
          matches_expr lib context (binary (binary e gt_eq low) and_op (binary e lt_eq high))
          >>= λ b. ok (negate_if negated b))
  unfolding matches_expr compare_operands compare_values
  matches_expr-between e low high negated bound h =
      by_values (resolve_operand lib context e) (resolve_operand lib context low) refl refl
    where
      by_values :
          (v w : Result String Value)
          → resolve_operand lib context e ≡ v
          → resolve_operand lib context low ≡ w
          → matches_expr lib context (between e low high negated) ≡ (
              matches_expr lib context (binary (binary e gt_eq low) and_op (binary e lt_eq high))
              >>= λ b. ok (negate_if negated b))
      by_values (err m) w p q = rw p refl
      by_values (ok v) (err m) p q = rw (p, q) refl
      by_values (ok v) (ok w) p q = rw (p, q, h) (by_test (is_at_least (compare_order lib v w)))
        where
          by_test :
              (b : Bool)
              → ◌≡◌ {A = Result String Bool}
                  (ok (negate_if negated (b && is_at_most (compare_order lib v bound))))
                  ((if b then ok (is_at_most (compare_order lib v bound)) else ok false) >>= λ c.
                    ok (negate_if negated c))
          by_test true = refl
          by_test false = refl

  -- `e IN ()` is false where `e` has a value, `e IN (x, ...)` is `e = x OR e IN (...)`, and
  -- `e NOT IN (...)` is `NOT` of `IN`, errors included.
  pub matches_expr-in_list :
      (e x : Expr) (xs : Exprs)
      → (matches_expr lib context (in_list e nil false)
          ≡ (resolve_operand lib context e >>= λ _. ok false))
        × (matches_expr lib context (in_list e (cons x xs) false)
            ≡ matches_expr lib context (binary (binary e eq_op x) or_op (in_list e xs false)))
        × (matches_expr lib context (in_list e xs true)
            ≡ matches_expr lib context (unary not_op (in_list e xs false)))
  unfolding matches_expr compare_operands in_items exprs compare_values
  matches_expr-in_list e x xs = (
    empty (resolve_operand lib context e),
    by_value (resolve_operand lib context e) refl,
    negated (resolve_operand lib context e),
  )
    where
      empty :
          (v : Result String Value)
          → (v >>= λ u. in_items lib context u [] >>= λ m. ok (negate_if false m))
            ≡ (v >>= λ _. ok false)
      empty (err m) = refl
      empty (ok v) = refl

      by_value :
          (v : Result String Value)
          → resolve_operand lib context e ≡ v
          → matches_expr lib context (in_list e (cons x xs) false)
            ≡ matches_expr lib context (binary (binary e eq_op x) or_op (in_list e xs false))
      by_value (err m) p = rw p refl
      by_value (ok v) p = rw p (by_item (resolve_operand lib context x))
        where
          by_test :
              (found : Bool)
              → ((if found then ok true else in_items lib context v (exprs xs)) >>= λ m.
                  ok (negate_if false m))
                ≡ (if found
                    then ok true
                    else (in_items lib context v (exprs xs) >>= λ m. ok (negate_if false m)))
          by_test true = refl
          by_test false = refl

          by_item :
              (w : Result String Value)
              → ((w >>= λ expected. compare_values lib v expected eq_op >>= λ found.
                    if found then ok true else in_items lib context v (exprs xs))
                  >>= λ m. ok (negate_if false m))
                ≡ ((w >>= λ right_value. compare_values lib v right_value eq_op) >>= λ first.
                    if first
                    then ok true
                    else (in_items lib context v (exprs xs) >>= λ m. ok (negate_if false m)))
          by_item (err m) = refl
          by_item (ok w) = by_test (values_equal v w)

      result :
          (r : Result String Bool)
          → (r >>= λ m. ok (negate_if true m))
            ≡ ((r >>= λ m. ok (negate_if false m)) >>= λ b. ok (not b))
      result (err m) = refl
      result (ok b) = refl

      negated :
          (v : Result String Value)
          → (v >>= λ u. in_items lib context u (exprs xs) >>= λ m. ok (negate_if true m)) ≡ (
              (v >>= λ u. in_items lib context u (exprs xs) >>= λ m. ok (negate_if false m))
              >>= λ b. ok (not b))
      negated (err m) = refl
      negated (ok v) = result (in_items lib context v (exprs xs))

  -- A non-negative integer and a numeric literal are never `=`, also where both `>=` and `<=` hold
  -- between them.
  pub matches_expr-integer :
      (e : Expr) (n : ℕ) (numeral : String) (f : ℕ)
      → resolve_operand lib context e ≡ ok (number (pos_int n))
      → lib.parse_f64 numeral ≡ some f
      → f64_cmp (lib.f64_of_pos n) f ≡ Ordering.eq
      → (matches_expr lib context (binary e gt_eq (value (SqlValue.number numeral))) ≡ ok true)
        × (matches_expr lib context (binary e lt_eq (value (SqlValue.number numeral))) ≡ ok true)
        × (matches_expr lib context (binary e eq_op (value (SqlValue.number numeral))) ≡ ok false)
  unfolding matches_expr compare_operands compare_values resolve_operand sql_value_to_json
      compare_order number_as_f64 values_equal value_eq number_eq
  matches_expr-integer e n numeral f h k c = (ground arith, ground arith, ground arith)
