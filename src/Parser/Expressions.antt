-- ===== src/Parser/Expressions.antt =====
-- The tightest tiers of expressions, `parsePrimary` and `parsePostfixExpression`, and the prefix
-- operators.
use kai_cc.Ast.Expr.{Expr, Exprs, LiteralKind, UnaryOperator, expr_span}
use kai_cc.Base.{ℕ, zero, suc, Bool, true, false, Option, none, some, if◌then◌else◌}
use kai_cc.Parser.State.{
  M, ParseErrorKind, ◌>>=◌, ◌>>◌, pure, exhausted, advance, check, match_token, expect, fail,
  between,
}
use kai_cc.Source.Location.{SourceSpan}
use kai_cc.Token.{TokenKind, Token}

unfoldable pub literal : LiteralKind → M Expr
literal kind = do tok ← advance; pure (Expr.literal kind tok.span)

unfoldable pub identifier : M Expr
identifier = do tok ← advance; pure (Expr.identifier (record { span = tok.span }) tok.span)

-- `expr` is `parseExpression`, called on what brackets enclose.
module _ (expr : M Expr) where
  -- A comma-separated list of at least one expression.
  unfoldable pub expression_list : ℕ → M Exprs
  expression_list zero = exhausted
  expression_list (suc fuel) =
      let later = expression_list fuel in
      do
        element ← expr
        comma ← match_token TokenKind.comma
        if comma
            then (do elements ← later; pure (Exprs.cons element elements))
            else pure (Exprs.cons element Exprs.nil)

  unfoldable pub parse_paren_expression : M Expr
  parse_paren_expression = do
    open_paren ← expect TokenKind.left_paren
    is_unit ← check TokenKind.right_paren
    if is_unit
        then (do
          close_paren ← advance
          pure (Expr.unit (between open_paren.span.begin close_paren.span.end)))
        else (do
          inner ← expr
          close_paren ← expect TokenKind.right_paren
          pure (Expr.paren inner (between open_paren.span.begin close_paren.span.end)))

  unfoldable pub parse_array_literal : ℕ → M Expr
  parse_array_literal fuel = do
    open_bracket ← expect TokenKind.left_bracket
    is_empty ← check TokenKind.right_bracket
    elements ← if is_empty then pure Exprs.nil else expression_list fuel
    close_bracket ← expect TokenKind.right_bracket
    pure (Expr.array_literal elements (between open_bracket.span.begin close_bracket.span.end))

  -- The switch of `parsePrimary` on the current token's kind.
  unfoldable pub primary_of : ℕ → TokenKind → M Expr
  primary_of fuel TokenKind.identifier = identifier
  primary_of fuel TokenKind.integer_literal = literal LiteralKind.integer
  primary_of fuel TokenKind.float_literal = literal LiteralKind.float
  primary_of fuel TokenKind.string_literal = literal LiteralKind.string
  primary_of fuel TokenKind.char_literal = literal LiteralKind.char
  primary_of fuel TokenKind.kw_true = literal LiteralKind.bool
  primary_of fuel TokenKind.kw_false = literal LiteralKind.bool
  primary_of fuel TokenKind.left_paren = parse_paren_expression
  primary_of fuel TokenKind.left_bracket = parse_array_literal fuel
  primary_of fuel _ = fail ParseErrorKind.unexpected_token none

  unfoldable pub parse_primary : ℕ → M Expr
  parse_primary fuel p = primary_of fuel p.current.kind p

  unfoldable pub parse_argument_list : ℕ → M Exprs
  parse_argument_list fuel = do
    is_empty ← check TokenKind.right_paren
    if is_empty then pure Exprs.nil else expression_list fuel

  unfoldable pub parse_call_suffix : ℕ → Expr → M Expr
  parse_call_suffix fuel callee = do
    expect TokenKind.left_paren
    arguments ← parse_argument_list fuel
    close_paren ← expect TokenKind.right_paren
    pure (Expr.call callee arguments (between (expr_span callee).begin close_paren.span.end))

  unfoldable pub parse_index_suffix : Expr → M Expr
  parse_index_suffix object = do
    expect TokenKind.left_bracket
    index ← expr
    close_bracket ← expect TokenKind.right_bracket
    pure (Expr.index object index (between (expr_span object).begin close_bracket.span.end))

  unfoldable pub parse_member_suffix : Expr → M Expr
  parse_member_suffix object = do
    expect TokenKind.dot
    member_tok ← expect TokenKind.identifier
    pure (
        Expr.member object (record { span = member_tok.span })
          (between (expr_span object).begin member_tok.span.end))

  unfoldable pub error_propagation_suffix : Expr → M Expr
  error_propagation_suffix operand = do
    question_tok ← advance
    pure (
        Expr.error_propagation operand question_tok.span
          (between (expr_span operand).begin question_tok.span.end))

  -- The parser of the suffix that the current token begins, if it begins one.
  unfoldable pub suffix_of : ℕ → Expr → TokenKind → Option (M Expr)
  suffix_of fuel e TokenKind.left_paren = some (parse_call_suffix fuel e)
  suffix_of fuel e TokenKind.left_bracket = some (parse_index_suffix e)
  suffix_of fuel e TokenKind.dot = some (parse_member_suffix e)
  suffix_of fuel e TokenKind.question = some (error_propagation_suffix e)
  suffix_of fuel e _ = none

  unfoldable pub postfix_loop : ℕ → Expr → M Expr
  postfix_loop zero e = exhausted
  postfix_loop (suc fuel) e =
      let again = postfix_loop fuel in
      λ p. elim (suffix_of (suc fuel) e p.current.kind) [
        | none ↦ pure e p
        | some suffix ↦ (suffix >>= again) p
      ]

  unfoldable pub parse_postfix_expression : ℕ → M Expr
  parse_postfix_expression fuel = do e ← parse_primary fuel; postfix_loop fuel e

-- The operator of a prefix token of a kind, and its span: `&` may have a `mut` behind it.
unfoldable pub prefix_of : Token → TokenKind → M (UnaryOperator × SourceSpan)
prefix_of op_tok TokenKind.bang = pure (UnaryOperator.not_op, op_tok.span)
prefix_of op_tok TokenKind.minus = pure (UnaryOperator.negate, op_tok.span)
prefix_of op_tok _ = do
  is_mut ← check TokenKind.kw_mut
  if is_mut
      then (do
        mut_tok ← advance
        pure (UnaryOperator.ref_mut, between op_tok.span.begin mut_tok.span.end))
      else pure (UnaryOperator.ref, op_tok.span)

abbrev pub prefix_operator : Token → M (UnaryOperator × SourceSpan)
prefix_operator op_tok = prefix_of op_tok op_tok.kind

abbrev pub is_prefix : TokenKind → Bool
is_prefix TokenKind.bang = true
is_prefix TokenKind.minus = true
is_prefix TokenKind.amp = true
is_prefix _ = false
