-- ===== src/Parser/Operators.antt =====
-- The binary tiers, and `parseUnary` and `parseAssignment` around them.
use kai_cc.Ast.Expr.{Expr, BinaryOperator, expr_span}
use kai_cc.Base.{ℕ, zero, suc, Option, none, some, if◌then◌else◌}
use kai_cc.Parser.Expressions.{parse_postfix_expression, prefix_operator, is_prefix}
use kai_cc.Parser.State.{M, ◌>>=◌, pure, exhausted, advance, check, between}
use kai_cc.Token.{TokenKind}

unfoldable pub binary : BinaryOperator → Expr → M Expr → M Expr
binary op left operand = do
  op_tok ← advance
  right ← operand
  pure
      (Expr.binary op op_tok.span left right (between (expr_span left).begin (expr_span right).end))

-- `while (check(…)) …` of the left-associative tiers: the operators that the tier takes.
unfoldable pub binary_loop : (TokenKind → Option BinaryOperator) → M Expr → ℕ → Expr → M Expr
binary_loop operator operand zero left = exhausted
binary_loop operator operand (suc fuel) left =
    let again = binary_loop operator operand fuel in
    λ p. elim (operator p.current.kind) [
      | none ↦ pure left p
      | some op ↦ (binary op left operand >>= again) p
    ]

abbrev pub left_associative : (TokenKind → Option BinaryOperator) → ℕ → M Expr → M Expr
left_associative operator fuel operand = do left ← operand; binary_loop operator operand fuel left

abbrev pub multiplicative_operator : TokenKind → Option BinaryOperator
multiplicative_operator TokenKind.star = some BinaryOperator.multiply
multiplicative_operator TokenKind.slash = some BinaryOperator.divide
multiplicative_operator TokenKind.percent = some BinaryOperator.modulo
multiplicative_operator _ = none

abbrev pub additive_operator : TokenKind → Option BinaryOperator
additive_operator TokenKind.plus = some BinaryOperator.add
additive_operator TokenKind.minus = some BinaryOperator.subtract
additive_operator _ = none

abbrev pub comparison_operator : TokenKind → Option BinaryOperator
comparison_operator TokenKind.less = some BinaryOperator.lt_op
comparison_operator TokenKind.less_equal = some BinaryOperator.less_equal
comparison_operator TokenKind.greater = some BinaryOperator.gt_op
comparison_operator TokenKind.greater_equal = some BinaryOperator.greater_equal
comparison_operator _ = none

abbrev pub equality_operator : TokenKind → Option BinaryOperator
equality_operator TokenKind.equal_equal = some BinaryOperator.eq_op
equality_operator TokenKind.bang_equal = some BinaryOperator.not_equal
equality_operator _ = none

abbrev pub and_operator : TokenKind → Option BinaryOperator
and_operator TokenKind.amp_amp = some BinaryOperator.and_op
and_operator _ = none

abbrev pub or_operator : TokenKind → Option BinaryOperator
or_operator TokenKind.pipe_pipe = some BinaryOperator.or_op
or_operator _ = none

-- `expr` is `parseExpression`.
module _ (expr : M Expr) where
  unfoldable pub parse_unary : ℕ → M Expr
  parse_unary zero = exhausted
  parse_unary (suc fuel) =
      let again = parse_unary fuel in
      let postfix = parse_postfix_expression expr (suc fuel) in
      λ p.
        if is_prefix p.current.kind
        then ((do
          op_tok ← advance
          (op, operator_span) ← prefix_operator op_tok
          operand ← again
          pure (
              Expr.unary op operator_span operand
                (between operator_span.begin (expr_span operand).end)))
            p)
        else postfix p

  unfoldable pub parse_multiplicative : ℕ → M Expr
  parse_multiplicative fuel = left_associative multiplicative_operator fuel (parse_unary fuel)

  unfoldable pub parse_additive : ℕ → M Expr
  parse_additive fuel = left_associative additive_operator fuel (parse_multiplicative fuel)

  -- At most one `..`.
  unfoldable pub parse_range : ℕ → M Expr
  parse_range fuel = do
    left ← parse_additive fuel
    is_range ← check TokenKind.dot_dot
    if is_range then binary BinaryOperator.range left (parse_additive fuel) else pure left

  unfoldable pub parse_comparison : ℕ → M Expr
  parse_comparison fuel = left_associative comparison_operator fuel (parse_range fuel)

  unfoldable pub parse_equality : ℕ → M Expr
  parse_equality fuel = left_associative equality_operator fuel (parse_comparison fuel)

  unfoldable pub parse_logical_and : ℕ → M Expr
  parse_logical_and fuel = left_associative and_operator fuel (parse_equality fuel)

  unfoldable pub parse_logical_or : ℕ → M Expr
  parse_logical_or fuel = left_associative or_operator fuel (parse_logical_and fuel)

  -- Right-associative: the value is parsed by `parseAssignment`, which is `parseExpression`.
  unfoldable pub parse_assignment : ℕ → M Expr
  parse_assignment fuel = do
    left ← parse_logical_or fuel
    is_assignment ← check TokenKind.equal
    if is_assignment
        then (do
          eq_tok ← advance
          value ← expr
          pure (
              Expr.assignment left eq_tok.span value
                (between (expr_span left).begin (expr_span value).end)))
        else pure left

unfoldable pub parse_expression : ℕ → M Expr
parse_expression zero = exhausted
parse_expression (suc fuel) = parse_assignment (parse_expression fuel) (suc fuel)
