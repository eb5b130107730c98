-- ===== src/Parser/Types.antt =====
-- `parseTypeSyntax` and its parts.
use kai_cc.Ast.Expr.{Expr, LiteralKind}
use kai_cc.Ast.TypeSyntax.{TypeSyntax, TypeSyntaxes, ReferenceMutability, type_span}
use kai_cc.Base.{ℕ, zero, suc, if◌then◌else◌}
use kai_cc.Parser.State.{
  M, ◌>>=◌, ◌>>◌, pure, exhausted, advance, check, match_token, expect, skip_newlines, between,
}
use kai_cc.Source.Location.{SourceSpan}
use kai_cc.Token.{TokenKind, Token}

-- The tail of an ampersand: an optional `mut`, and the span of the operator.
unfoldable pub reference_mutability : Token → M (ReferenceMutability × SourceSpan)
reference_mutability amp_tok = do
  is_mut ← check TokenKind.kw_mut
  if is_mut
      then (do
        mut_tok ← advance
        pure (ReferenceMutability.mutable, between amp_tok.span.begin mut_tok.span.end))
      else pure (ReferenceMutability.immutable, amp_tok.span)

-- `type` is `parseTypeSyntax`, called on what lies inside.
module _ (type : M TypeSyntax) where
  unfoldable pub parse_reference_type_syntax : M TypeSyntax
  parse_reference_type_syntax = do
    amp_tok ← expect TokenKind.amp
    (mutability, operator_span) ← reference_mutability amp_tok
    referent ← type
    pure (
        TypeSyntax.reference mutability operator_span referent
          (between operator_span.begin (type_span referent).end))

  unfoldable pub parse_bracket_type_syntax : M TypeSyntax
  parse_bracket_type_syntax = do
    open_bracket ← expect TokenKind.left_bracket
    element ← type
    has_length ← match_token TokenKind.semicolon
    if has_length
        then (do
          length_tok ← expect TokenKind.integer_literal
          close_bracket ← expect TokenKind.right_bracket
          pure (
              TypeSyntax.array element (Expr.literal LiteralKind.integer length_tok.span)
                (between open_bracket.span.begin close_bracket.span.end)))
        else (do
          close_bracket ← expect TokenKind.right_bracket
          pure (TypeSyntax.slice element (between open_bracket.span.begin close_bracket.span.end)))

  -- The loop over the arguments of a generic type.
  unfoldable pub type_arguments : ℕ → M TypeSyntaxes
  type_arguments zero = exhausted
  type_arguments (suc fuel) =
      let later = type_arguments fuel in
      do
        argument ← type
        skip_newlines (suc fuel)
        comma ← match_token TokenKind.comma
        if comma
            then (do
              skip_newlines (suc fuel)
              arguments ← later
              pure (TypeSyntaxes.cons argument arguments))
            else pure (TypeSyntaxes.cons argument TypeSyntaxes.nil)

  unfoldable pub parse_generic_type_syntax : ℕ → Token → M TypeSyntax
  parse_generic_type_syntax fuel name_token = do
    expect TokenKind.less
    skip_newlines fuel
    arguments ← type_arguments fuel
    greater_tok ← expect TokenKind.greater
    pure (
        TypeSyntax.generic (record { span = name_token.span }) arguments
          (between name_token.span.begin greater_tok.span.end))

  unfoldable pub parse_unit_type_syntax : M TypeSyntax
  parse_unit_type_syntax = do
    open_paren ← advance
    close_paren ← expect TokenKind.right_paren
    pure (TypeSyntax.unit (between open_paren.span.begin close_paren.span.end))

  unfoldable pub parse_named_type_syntax : ℕ → M TypeSyntax
  parse_named_type_syntax fuel = do
    name_tok ← expect TokenKind.identifier
    is_generic ← check TokenKind.less
    if is_generic
        then parse_generic_type_syntax fuel name_tok
        else pure (TypeSyntax.named (record { span = name_tok.span }) name_tok.span)

unfoldable pub parse_type_syntax : ℕ → M TypeSyntax
parse_type_syntax zero = exhausted
parse_type_syntax (suc fuel) =
    let inner = parse_type_syntax fuel in
    do
      is_reference ← check TokenKind.amp
      is_bracket ← check TokenKind.left_bracket
      is_unit ← check TokenKind.left_paren
      if is_reference
          then parse_reference_type_syntax inner
          else if is_bracket
          then parse_bracket_type_syntax inner
          else if is_unit
          then parse_unit_type_syntax inner
          else parse_named_type_syntax inner (suc fuel)
