-- ===== src/Sql/Values.antt =====
-- Comparison of JSON values (`compare_values`, `values_equal`, `compare_order`, `sql_value_to_json`
-- and `like_match` of ugoite-core/src/sql.rs).
use Prim.Native.Char.{Char}
use Prim.Native.String
use ugoite.Common.{
  ℕ, Ordering, String, Bool, true, false, ◌&&◌, not, Option, none, some, Result, ok, err, ◌==◌,
  nat_eq, if◌then◌else◌, any,
}
use ugoite.Json.{
  F64, Number, pos_int, neg_int, float, Value, null, bool, number, string, array, object, Values,
  nil, cons, Fields, end, field, items,
}
use ugoite.Json.Float.{f64_cmp}
use ugoite.Sql.Syntax.{
  BinaryOperator, eq_op, not_eq, gt, gt_eq, lt, lt_eq, SqlValue, single_quoted, double_quoted,
  boolean,
}
use ugoite.Sql.Parse.{sql_error}

-- What the evaluation takes from outside: the conversions of integers and numerals to f64 (a numeral
-- too large for a finite number has none), the case tables, and the `regex` crate.
pub record Library : Type 0 where
  pub f64_of_pos : ℕ → F64
  pub f64_of_neg : ℕ → F64
  pub parse_f64 : String → Option F64
  pub to_lowercase : String → String
  pub regex_escape : Char → String
  -- `Regex::new(pattern)` and `is_match`: false if the pattern does not compile
  pub regex_is_match : (pattern : String) → (text : String) → Bool

abbrev pub is_equal : Ordering → Bool
is_equal Ordering.eq = true
is_equal _ = false

-- `==` of `serde_json::Number`: the kinds of numbers are never equal to one another.
unfoldable pub number_eq : Number → Number → Bool
unfolding f64_cmp
number_eq (pos_int a) (pos_int b) = nat_eq a b
number_eq (neg_int a) (neg_int b) = nat_eq a b
number_eq (float a) (float b) = is_equal (f64_cmp a b)
number_eq _ _ = false

bool_eq : Bool → Bool → Bool
bool_eq true b = b
bool_eq false b = not b

-- `==` of `serde_json::Value`
unfoldable mutual
  unfolding number_eq bool_eq

  pub value_eq : Value → Value → Bool
  value_eq null null = true
  value_eq (bool a) (bool b) = bool_eq a b
  value_eq (number a) (number b) = number_eq a b
  value_eq (string a) (string b) = a == b
  value_eq (array a) (array b) = values_eq a b
  value_eq (object a) (object b) = fields_eq a b
  value_eq _ _ = false

  pub values_eq : Values → Values → Bool
  values_eq nil nil = true
  values_eq (cons a as') (cons b bs) = value_eq a b && values_eq as' bs
  values_eq _ _ = false

  pub fields_eq : Fields → Fields → Bool
  fields_eq end end = true
  fields_eq (field j a as') (field k b bs) = j == k && value_eq a b && fields_eq as' bs
  fields_eq _ _ = false

-- An array equals a text if one of its items is that text.
unfoldable pub values_equal : Value → Value → Bool
unfolding value_eq
values_equal (array left) (string expected) =
    any (λ item. value_eq item (string expected)) (items left)
values_equal (string expected) (array right) =
    any (λ item. value_eq item (string expected)) (items right)
values_equal left right = value_eq left right

abbrev pub is_greater : Option Ordering → Bool
is_greater (some Ordering.gt) = true
is_greater _ = false

abbrev pub is_less : Option Ordering → Bool
is_less (some Ordering.lt) = true
is_less _ = false

abbrev pub is_at_least : Option Ordering → Bool
is_at_least (some Ordering.gt) = true
is_at_least (some Ordering.eq) = true
is_at_least _ = false

abbrev pub is_at_most : Option Ordering → Bool
is_at_most (some Ordering.lt) = true
is_at_most (some Ordering.eq) = true
is_at_most _ = false

module _ (lib : Library) where
  open lib use {f64_of_pos, f64_of_neg, parse_f64, to_lowercase, regex_escape, regex_is_match}

  -- `Number::as_f64`
  unfoldable pub number_as_f64 : Number → F64
  number_as_f64 (pos_int n) = f64_of_pos n
  number_as_f64 (neg_int n) = f64_of_neg n
  number_as_f64 (float f) = f

  unfoldable pub as_f64 : Value → Option F64
  unfolding number_as_f64
  as_f64 (number n) = some (number_as_f64 n)
  as_f64 _ = none

  unfoldable pub compare_order : Value → Value → Option Ordering
  unfolding number_as_f64 f64_cmp
  compare_order (number a) (number b) = some (f64_cmp (number_as_f64 a) (number_as_f64 b))
  compare_order (string a) (string b) = some (String.compare a b)
  compare_order _ _ = none

  unfoldable pub compare_values : Value → Value → BinaryOperator → Result String Bool
  unfolding values_equal compare_order
  compare_values left right eq_op = ok (values_equal left right)
  compare_values left right not_eq = ok (not (values_equal left right))
  compare_values left right gt = ok (is_greater (compare_order left right))
  compare_values left right gt_eq = ok (is_at_least (compare_order left right))
  compare_values left right lt = ok (is_less (compare_order left right))
  compare_values left right lt_eq = ok (is_at_most (compare_order left right))
  compare_values left right _ = err (sql_error "Unsupported SQL comparison operator")

  unfoldable pub sql_value_to_json : SqlValue → Value
  sql_value_to_json (SqlValue.number num) = elim (parse_f64 num) [
    | none ↦ null
    | some f ↦ number (float f)
  ]
  sql_value_to_json (single_quoted s) = string s
  sql_value_to_json (double_quoted s) = string s
  sql_value_to_json (boolean b) = bool b
  sql_value_to_json _ = null

  -- The body of the loop of `like_regex`: `%` is `.*`, `_` is `.`, the rest is escaped.
  like_body : String → String
  like_body String.[] = ""
  like_body (String.◌∷◌ c s) =
      let n = Prim.Native.Char.code c in
      String.◌++◌ (if nat_eq n b'%' then ".*" else if nat_eq n b'_' then "." else regex_escape c)
        (like_body s)

  unfoldable pub like_regex : String → String
  unfolding like_body
  like_regex pattern = String.◌++◌ "^" (String.◌++◌ (like_body pattern) "$")

  unfoldable pub like_match : String → String → Bool
  unfolding like_regex
  like_match text pattern =
      if pattern == "%" then true else regex_is_match (like_regex pattern) text
