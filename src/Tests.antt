-- ===== src/Tests.antt =====
-- Runs of the lexer, the parser and the flow analysis on small inputs.
pub mod Names
pub mod Types
use kai_cc.Ast.Decl.{SourceFile, FunctionDecl}
use kai_cc.Ast.Expr.{Expr, BinaryOperator, LiteralKind}
use kai_cc.Ast.Stmt.{Stmt, Stmts, BlockStmt, block_stmt}
use kai_cc.Ast.TypeSyntax.{TypeSyntax}
use kai_cc.Base.{
  ℕ, suc, List, ◌∷◌, [], ◌≡◌, ◌≢◌, ◌↔◌, ◌<◌, refl, none, some, codes, Bytes, length, false, arith,
  ◌++◌,
}
use kai_cc.Lexer.Chars.{
  is_digit, is_identifier_start, is_identifier_continue, is_supported_string_escape_char,
  is_supported_char_escape_char,
}
use kai_cc.Lexer.Cursor.{skip_while}
use kai_cc.Lexer.Scan.{
  scan_identifier_or_keyword, continues_malformed, scan_fraction, scan_number, string_loop,
  scan_string, char_loop, scan_char, operator_kind, scan_operator_or_punctuation,
}
use kai_cc.Parser.Expressions.{
  literal, identifier, expression_list, parse_paren_expression, parse_array_literal, primary_of,
  parse_primary, parse_argument_list, parse_call_suffix, parse_index_suffix, parse_member_suffix,
  error_propagation_suffix, suffix_of, postfix_loop, parse_postfix_expression, prefix_of,
}
use kai_cc.Parser.Statements.{
  at_terminator, expect_terminator, optional_type, parse_var_decl_stmt, return_value,
  parse_return_stmt, expression_stmt, if_branches, parse_if_stmt, parse_while_stmt, parse_for_stmt,
  statement_of, parse_statement, statements, parse_block,
}
use kai_cc.Parser.Types.{
  reference_mutability, parse_reference_type_syntax, parse_bracket_type_syntax, type_arguments,
  parse_generic_type_syntax, parse_unit_type_syntax, parse_named_type_syntax, parse_type_syntax,
}
use kai_cc.Lexer.Rounds.{skip_trivia-IsSkipped}
use kai_cc.Lexer.Skipped.{IsSkipped}
use kai_cc.Lexer.Keywords.{equal, keyword_or_identifier}
use kai_cc.Lexer.Next.{start, next_token, scan_content, scan_at, after_trivia}
use kai_cc.Lexer.Steps.{Lexed, next_token-Lexed}
use kai_cc.Lexer.Tokens.{Tiles, lex_all, lex_file-Tiles}
use kai_cc.Lexer.Trivia.{skip_trivia, trivia_step}
use kai_cc.Parser.Declarations.{
  parse_file, params_loop, parse_param_list, parse_function_decl, declaration_of, parse_declaration,
  declarations_loop, parse_source_file,
}
use kai_cc.Parser.Input.{opened}
use kai_cc.Parser.Files.{
  IsSourceFile, parse_file-ne-out_of_fuel, parse_file-IsSourceFile, parse_file-IsReported,
}
use kai_cc.Parser.Nodes.{Parsed}
use kai_cc.Parser.Operators.{
  parse_expression, binary, binary_loop, parse_unary, parse_multiplicative, parse_additive,
  parse_range, parse_comparison, parse_equality, parse_logical_and, parse_logical_or,
  parse_assignment,
}
use kai_cc.Parser.Progress.{parser-IsReady, remaining, remaining-parser}
use kai_cc.Parser.Rules.{Post, IsReported}
use kai_cc.Parser.State.{
  ok, err, out_of_fuel, Parser, ParseError, ParseErrorKind, parser, advance, check, match_token,
  fail, expect, skip_kinds,
}
use kai_cc.Parser.Tiers.{parse_expression-Post}
use kai_cc.Semantic.Flow
use kai_cc.Semantic.Flow.Exact.{analyze_block-RunsBlock}
use kai_cc.Semantic.Flow.Missing.{check-IsComplete, IsComplete, check_function_decl-RunsBlock}
use kai_cc.Semantic.Flow.Paths.{falls, RunsBlock}
use kai_cc.Semantic.Flow.{falls_through, analyze_block, is_exempt, check_function_decl}
use kai_cc.Semantic.Types.{TypeKind, simple}
use kai_cc.Source.Lines.Columns.{feeds_before, since_feed, line_column-feeds}
use kai_cc.Source.Lines.{line_column}
use kai_cc.Source.Location.{SourceSpan}
use kai_cc.TokenPrinter.Escapes.{
  AllBelow, AllPrintable, escape_lexeme-injective, escape_lexeme-AllPrintable,
}
use kai_cc.TokenPrinter.{escape_lexeme}
use kai_cc.Token.{TokenKind, Token, value}

abbrev sample : Bytes
sample = codes "fn f()->u8{return 1+2*3}"

abbrev stray : Bytes
stray = codes "@"

abbrev span : ℕ → ℕ → SourceSpan
span lo hi = record {
  begin = record { file = 0; offset = lo };
  end = record { file = 0; offset = hi };
}

abbrev number : ℕ → Expr
number o = Expr.literal LiteralKind.integer (span o (suc o))

-- `1+2*3`
abbrev sum : Expr
sum =
    Expr.binary BinaryOperator.add (span 19 20) (number 18)
      (Expr.binary BinaryOperator.multiply (span 21 22) (number 20) (number 22) (span 20 23))
      (span 18 23)

abbrev body : BlockStmt
body = block_stmt (Stmts.cons (Stmt.return (some sum) (span 11 23)) Stmts.nil) (span 10 24)

abbrev function : FunctionDecl
function = record {
  is_public = false;
  name = record { span = span 3 4 };
  params = [];
  return_type = some (TypeSyntax.named (record { span = span 8 10 }) (span 8 10));
  body = body;
  span = span 0 24;
}

abbrev tree : SourceFile
tree = record { file = 0; declarations = function ∷ []; span = span 0 24 }

abbrev at_end : Parser
at_end = record {
  file = 0;
  lexer = record {
    file = 0;
    cursor = record { offset = 24; rest = [] };
    paren_depth = 0;
    bracket_depth = 0;
  };
  current = record { kind = TokenKind.end_of_file; span = span 24 24 };
}

abbrev at_stray : ParseError
at_stray = record {
  kind = ParseErrorKind.invalid_token;
  span = span 0 1;
  actual = TokenKind.invalid;
  expected = none;
}

parse-sample : parse_file 0 sample ≡ ok tree at_end
unfolding is_digit is_identifier_start is_identifier_continue is_supported_string_escape_char
    is_supported_char_escape_char skip_while equal keyword_or_identifier scan_content scan_at
    after_trivia next_token scan_identifier_or_keyword continues_malformed scan_fraction scan_number
    string_loop scan_string char_loop scan_char operator_kind scan_operator_or_punctuation
    trivia_step skip_trivia params_loop parse_param_list parse_function_decl declaration_of
    parse_declaration declarations_loop parse_source_file parse_file literal identifier
    expression_list parse_paren_expression parse_array_literal primary_of parse_primary
    parse_argument_list parse_call_suffix parse_index_suffix parse_member_suffix
    error_propagation_suffix suffix_of postfix_loop parse_postfix_expression prefix_of binary
    binary_loop parse_unary parse_multiplicative parse_additive parse_range parse_comparison
    parse_equality parse_logical_and parse_logical_or parse_assignment parse_expression advance
    check match_token fail expect skip_kinds at_terminator expect_terminator optional_type
    parse_var_decl_stmt return_value parse_return_stmt expression_stmt if_branches parse_if_stmt
    parse_while_stmt parse_for_stmt statement_of parse_statement statements parse_block
    reference_mutability parse_reference_type_syntax parse_bracket_type_syntax type_arguments
    parse_generic_type_syntax parse_unit_type_syntax parse_named_type_syntax parse_type_syntax value
parse-sample = refl

parse-stray : parse_file 0 stray ≡ err at_stray
unfolding is_digit is_identifier_start is_identifier_continue is_supported_string_escape_char
    is_supported_char_escape_char skip_while equal keyword_or_identifier scan_content scan_at
    after_trivia next_token scan_identifier_or_keyword continues_malformed scan_fraction scan_number
    string_loop scan_string char_loop scan_char operator_kind scan_operator_or_punctuation
    trivia_step skip_trivia params_loop parse_param_list parse_function_decl declaration_of
    parse_declaration declarations_loop parse_source_file parse_file literal identifier
    expression_list parse_paren_expression parse_array_literal primary_of parse_primary
    parse_argument_list parse_call_suffix parse_index_suffix parse_member_suffix
    error_propagation_suffix suffix_of postfix_loop parse_postfix_expression prefix_of binary
    binary_loop parse_unary parse_multiplicative parse_additive parse_range parse_comparison
    parse_equality parse_logical_and parse_logical_or parse_assignment parse_expression advance
    check match_token fail expect skip_kinds at_terminator expect_terminator optional_type
    parse_var_decl_stmt return_value parse_return_stmt expression_stmt if_branches parse_if_stmt
    parse_while_stmt parse_for_stmt statement_of parse_statement statements parse_block
    reference_mutability parse_reference_type_syntax parse_bracket_type_syntax type_arguments
    parse_generic_type_syntax parse_unit_type_syntax parse_named_type_syntax parse_type_syntax value
parse-stray = refl

parse_file-IsSourceFile_example :
    IsSourceFile (opened 0 sample) tree × (TokenKind.end_of_file ≡ TokenKind.end_of_file)
parse_file-IsSourceFile_example = parse_file-IsSourceFile 0 sample parse-sample

parse_file-IsReported_example : IsReported (opened 0 stray) at_stray
parse_file-IsReported_example = parse_file-IsReported 0 stray parse-stray

parse_file-ne-out_of_fuel_example : parse_file 0 sample ≢ out_of_fuel
parse_file-ne-out_of_fuel_example = parse_file-ne-out_of_fuel 0 sample

enough : remaining (parser 0 sample) < 25
enough = omega (arith, remaining-parser 0 sample)

parse_expression-Post_example :
    Post
      (opened 0 sample)
      (Parsed (opened 0 sample) 0 (parser 0 sample))
      (parse_expression 25 (parser 0 sample))
parse_expression-Post_example =
    parse_expression-Post (opened 0 sample) 25 (parser 0 sample) (parser-IsReady 0 sample) enough

lex_file-Tiles_example :
    (ts : List Token) × (lex_all (suc (length sample)) (start 0 sample) ≡ some ts)
    × Tiles 0 0 sample ts
lex_file-Tiles_example = lex_file-Tiles 0 sample

next_token-Lexed_example :
    Lexed (start 0 sample) (next_token (start 0 sample)).0 (next_token (start 0 sample)).1
next_token-Lexed_example = next_token-Lexed (start 0 sample)

abbrev remark : Bytes
remark = codes " // a\rb\r\nx"

skip_trivia-IsSkipped_example : IsSkipped false false 0 remark (skip_trivia false false 0 remark)
skip_trivia-IsSkipped_example = skip_trivia-IsSkipped false false 0 remark

analyze_block-RunsBlock_example : (analyze_block body ≡ falls_through) ↔ RunsBlock body falls
analyze_block-RunsBlock_example = analyze_block-RunsBlock body

check_function_decl-RunsBlock_example :
    (check_function_decl (λ _. simple TypeKind.u8) function ≢ [])
    ↔ ((is_exempt (simple TypeKind.u8) ≡ false) × RunsBlock body falls)
check_function_decl-RunsBlock_example =
    check_function_decl-RunsBlock (λ _. simple TypeKind.u8) function

line_column-feeds_example :
    ((line_column (codes "a\nbc") 3).line ≡ suc (feeds_before 3 (codes "a\nbc")))
    × ((line_column (codes "a\nbc") 3).column ≡ suc (since_feed 0 3 (codes "a\nbc")))
line_column-feeds_example = line_column-feeds (codes "a\nbc") 3

abbrev mixed : Bytes
mixed = codes "a\n\"" ++ (200 ∷ [])

mixed-AllBelow : AllBelow 256 mixed
mixed-AllBelow = (omega arith, (omega arith, (omega arith, (omega arith, tt))))

escape_lexeme-injective_example : mixed ≡ mixed
escape_lexeme-injective_example =
    escape_lexeme-injective mixed mixed mixed-AllBelow mixed-AllBelow refl

escape_lexeme-AllPrintable_example : AllPrintable (escape_lexeme mixed)
escape_lexeme-AllPrintable_example = escape_lexeme-AllPrintable mixed

check-IsComplete_example :
    (Flow.check (λ _. simple TypeKind.u8) (function ∷ []) ≡ [])
    ↔ IsComplete (λ _. simple TypeKind.u8) (function ∷ [])
check-IsComplete_example = check-IsComplete (λ _. simple TypeKind.u8) (function ∷ [])
