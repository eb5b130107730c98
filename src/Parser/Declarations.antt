-- ===== src/Parser/Declarations.antt =====
-- `parseDeclaration` and `parseSourceFile`.
use kai_cc.Ast.Decl.{Param, FunctionDecl, SourceFile}
use kai_cc.Ast.Stmt.{block_span}
use kai_cc.Ast.TypeSyntax.{type_span}
use kai_cc.Base.{ℕ, zero, suc, ◌+◌, Bool, none, Bytes, List, [], ◌∷◌, length, if◌then◌else◌}
use kai_cc.Parser.State.{
  parser, M, Result, ParseErrorKind, ◌>>=◌, ◌>>◌, pure, exhausted, current, check, match_token,
  expect, fail, skip_separators, between,
}
use kai_cc.Parser.Statements.{optional_type, parse_block}
use kai_cc.Parser.Types.{parse_type_syntax}
use kai_cc.Source.Location.{SourceLocation, SourceSpan, point}
use kai_cc.Token.{TokenKind}

-- The loop of `parseParamList`, on at least one parameter.
unfoldable pub params_loop : ℕ → M (List Param)
params_loop zero = exhausted
params_loop (suc fuel) =
    let later = params_loop fuel in
    do
      name_tok ← expect TokenKind.identifier
      expect TokenKind.colon
      type ← parse_type_syntax (suc fuel)
      let span = between name_tok.span.begin (type_span type).end
      let param : Param = record {
        name = record { span = name_tok.span };
        type = type;
        span = span;
      }
      comma ← match_token TokenKind.comma
      if comma then (do params ← later; pure (param ∷ params)) else pure (param ∷ [])

unfoldable pub parse_param_list : ℕ → M (List Param)
parse_param_list fuel = do
  is_empty ← check TokenKind.right_paren
  if is_empty then pure [] else params_loop fuel

unfoldable pub parse_function_decl : ℕ → Bool → SourceLocation → M FunctionDecl
parse_function_decl fuel is_public begin = do
  expect TokenKind.kw_fn
  name_tok ← expect TokenKind.identifier
  expect TokenKind.left_paren
  params ← parse_param_list fuel
  expect TokenKind.right_paren
  return_type ← optional_type TokenKind.arrow fuel
  body ← parse_block fuel
  pure (record {
    is_public = is_public;
    name = record { span = name_tok.span };
    params = params;
    return_type = return_type;
    body = body;
    span = between begin (block_span body).end;
  })

unfoldable pub declaration_of : ℕ → Bool → SourceLocation → TokenKind → M FunctionDecl
declaration_of fuel is_public begin TokenKind.kw_fn = parse_function_decl fuel is_public begin
declaration_of fuel is_public begin TokenKind.kw_struct =
    fail ParseErrorKind.unsupported_syntax none
declaration_of fuel is_public begin TokenKind.kw_enum = fail ParseErrorKind.unsupported_syntax none
declaration_of fuel is_public begin TokenKind.kw_use = fail ParseErrorKind.unsupported_syntax none
declaration_of fuel is_public begin _ = fail ParseErrorKind.unexpected_token none

unfoldable pub parse_declaration : ℕ → M FunctionDecl
parse_declaration fuel = do
  first_tok ← current
  is_public ← match_token TokenKind.kw_pub
  tok ← current
  declaration_of fuel is_public first_tok.span.begin tok.kind

-- The loop of `parseSourceFile`, up to the end of the file.
unfoldable pub declarations_loop : ℕ → ℕ → M (List FunctionDecl)
declarations_loop fuel zero = exhausted
declarations_loop fuel (suc rounds) =
    let later = declarations_loop fuel rounds in
    do
      at_end ← check TokenKind.end_of_file
      if at_end then pure [] else (do
        decl ← parse_declaration fuel
        skip_separators fuel
        decls ← later
        pure (decl ∷ decls))

-- `declarations.back()`, or a default.
abbrev pub last_or : FunctionDecl → List FunctionDecl → FunctionDecl
last_or d [] = d
last_or d (x ∷ xs) = last_or x xs

-- From the first declaration's begin to the last one's end, or a point if there is none.
abbrev pub file_span : SourceLocation → List FunctionDecl → SourceSpan
file_span here [] = point here
file_span here (d ∷ ds) = between d.span.begin (last_or d ds).span.end

unfoldable pub parse_source_file : ℕ → M SourceFile
parse_source_file fuel = do
  skip_separators fuel
  decls ← declarations_loop fuel fuel
  tok ← current
  λ p.
      pure (record { file = p.file; declarations = decls; span = file_span tok.span.begin decls }) p

-- A file parsed with fuel for one round a byte.
unfoldable pub parse_file : ℕ → Bytes → Result SourceFile
parse_file file buffer = parse_source_file (length buffer + 2) (parser file buffer)
