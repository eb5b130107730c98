-- ===== src/Parser/Statements.antt =====
-- `parseBlock`, `parseStatement` and the statements.
use kai_cc.Ast.Expr.{Expr, expr_span}
use kai_cc.Ast.Stmt.{
  Stmt, BindingKind, BlockStmt, block_stmt, Stmts, IfBranches, ElseClause, block_span,
}
use kai_cc.Ast.TypeSyntax.{TypeSyntax}
use kai_cc.Base.{ℕ, zero, suc, Bool, ◌||◌, Option, none, some, if◌then◌else◌}
use kai_cc.Parser.Operators.{parse_expression}
use kai_cc.Parser.State.{
  M, ParseErrorKind, ◌>>=◌, ◌>>◌, pure, exhausted, current, advance, check, match_token, expect,
  fail, skip_separators, skip_newlines, between,
}
use kai_cc.Parser.Types.{parse_type_syntax}
use kai_cc.Source.Location.{SourceLocation, SourceSpan}
use kai_cc.Token.{TokenKind, ◌is_kind◌}

-- What may stand behind a statement.
abbrev pub is_terminator : TokenKind → Bool
is_terminator k =
    k is_kind TokenKind.newline
    || k is_kind TokenKind.semicolon
    || k is_kind TokenKind.right_brace
    || k is_kind TokenKind.end_of_file

unfoldable pub at_terminator : M Bool
at_terminator p = pure (is_terminator p.current.kind) p

unfoldable pub expect_terminator : M (Unit {0})
expect_terminator p =
    if is_terminator p.current.kind then pure tt p else fail ParseErrorKind.unexpected_token none p

unfoldable pub optional_type : TokenKind → ℕ → M (Option TypeSyntax)
optional_type marker fuel = do
  has_type ← match_token marker
  if has_type then (do type ← parse_type_syntax fuel; pure (some type)) else pure none

unfoldable pub parse_var_decl_stmt : ℕ → M Stmt
parse_var_decl_stmt fuel = do
  is_mutable ← check TokenKind.kw_mut
  keyword_tok ← if is_mutable then expect TokenKind.kw_mut else expect TokenKind.kw_let
  name_tok ← expect TokenKind.identifier
  type ← optional_type TokenKind.colon fuel
  expect TokenKind.equal
  initializer ← parse_expression fuel
  expect_terminator
  pure (
      Stmt.var_decl (if is_mutable then BindingKind.mutable else BindingKind.immutable)
        (record { span = name_tok.span }) type initializer
        (between keyword_tok.span.begin (expr_span initializer).end))

-- The optional value of a `return`, and where the statement ends.
unfoldable pub return_value : ℕ → SourceLocation → M (Option Expr × SourceLocation)
return_value fuel end = do
  bare ← at_terminator
  if bare
      then pure (none, end)
      else (do value ← parse_expression fuel; pure (some value, (expr_span value).end))

unfoldable pub parse_return_stmt : ℕ → M Stmt
parse_return_stmt fuel = do
  return_tok ← expect TokenKind.kw_return
  (value, end) ← return_value fuel return_tok.span.end
  expect_terminator
  pure (Stmt.return value (between return_tok.span.begin end))

unfoldable pub expression_stmt : ℕ → M Stmt
expression_stmt fuel = do
  e ← parse_expression fuel
  expect_terminator
  pure (Stmt.expr e (expr_span e))

-- `branches.front().span` and `branches.back().span`, or a default for no branch.
abbrev pub front_span : SourceSpan → IfBranches → SourceSpan
front_span d IfBranches.end = d
front_span d (IfBranches.branch _ _ s _) = s

abbrev pub back_span : SourceSpan → IfBranches → SourceSpan
back_span d IfBranches.end = d
back_span d (IfBranches.branch _ _ s later) = back_span s later

abbrev pub if_end : IfBranches → ElseClause → SourceSpan → SourceLocation
if_end branches (ElseClause.else_clause _ s) d = s.end
if_end branches ElseClause.no_else d = (back_span d branches).end

-- `block` is `parseBlock`, called on the blocks inside a statement.
module _ (block : M BlockStmt) where
  -- The loop of `parseIfStmt`, from behind an `if`; the branch begins at `branch_begin`.
  unfoldable pub if_branches : ℕ → SourceLocation → M (IfBranches × ElseClause)
  if_branches zero branch_begin = exhausted
  if_branches (suc fuel) branch_begin =
      let again = if_branches fuel in
      do
        condition ← parse_expression (suc fuel)
        body ← block
        skip_newlines (suc fuel)
        has_else ← check TokenKind.kw_else
        let span = between branch_begin (block_span body).end
        if has_else
            then (do
              else_tok ← advance
              else_if ← match_token TokenKind.kw_if
              if else_if
                  then (do
                    (later, else_part) ← again else_tok.span.begin
                    pure (IfBranches.branch condition body span later, else_part))
                  else (do
                    final_body ← block
                    let else_span = between else_tok.span.begin (block_span final_body).end
                    pure (
                      IfBranches.branch condition body span IfBranches.end,
                      ElseClause.else_clause final_body else_span,
                    )))
            else pure (IfBranches.branch condition body span IfBranches.end, ElseClause.no_else)

  unfoldable pub parse_if_stmt : ℕ → M Stmt
  parse_if_stmt fuel = do
    first_tok ← current
    expect TokenKind.kw_if
    (branches, else_part) ← if_branches fuel first_tok.span.begin
    let d = first_tok.span
    pure (
        Stmt.if_stmt branches else_part
          (between (front_span d branches).begin (if_end branches else_part d)))

  unfoldable pub parse_while_stmt : ℕ → M Stmt
  parse_while_stmt fuel = do
    while_tok ← expect TokenKind.kw_while
    condition ← parse_expression fuel
    body ← block
    pure (Stmt.while condition body (between while_tok.span.begin (block_span body).end))

  unfoldable pub parse_for_stmt : ℕ → M Stmt
  parse_for_stmt fuel = do
    for_tok ← expect TokenKind.kw_for
    var_tok ← expect TokenKind.identifier
    expect TokenKind.kw_in
    iterable ← parse_expression fuel
    body ← block
    pure (
        Stmt.for (record { span = var_tok.span }) iterable body
          (between for_tok.span.begin (block_span body).end))

  unfoldable pub statement_of : ℕ → TokenKind → M Stmt
  statement_of fuel TokenKind.kw_let = parse_var_decl_stmt fuel
  statement_of fuel TokenKind.kw_mut = parse_var_decl_stmt fuel
  statement_of fuel TokenKind.kw_return = parse_return_stmt fuel
  statement_of fuel TokenKind.kw_if = parse_if_stmt fuel
  statement_of fuel TokenKind.kw_while = parse_while_stmt fuel
  statement_of fuel TokenKind.kw_for = parse_for_stmt fuel
  statement_of fuel _ = expression_stmt fuel

  unfoldable pub parse_statement : ℕ → M Stmt
  parse_statement fuel p = statement_of fuel p.current.kind p

  -- The loop of `parseBlock`, up to the closing brace.
  unfoldable pub statements : ℕ → M Stmts
  statements zero = exhausted
  statements (suc fuel) =
      let later = statements fuel in
      do
        closed ← check TokenKind.right_brace
        at_end ← check TokenKind.end_of_file
        if closed
            then pure Stmts.nil
            else if at_end
            then fail ParseErrorKind.unexpected_token (some TokenKind.right_brace)
            else (do
              stmt ← parse_statement (suc fuel)
              skip_separators (suc fuel)
              stmts ← later
              pure (Stmts.cons stmt stmts))

unfoldable pub parse_block : ℕ → M BlockStmt
parse_block zero = exhausted
parse_block (suc fuel) =
    let inner = parse_block fuel in
    do
      open_brace ← expect TokenKind.left_brace
      skip_separators (suc fuel)
      stmts ← statements inner (suc fuel)
      close_brace ← expect TokenKind.right_brace
      pure (block_stmt stmts (between open_brace.span.begin close_brace.span.end))
