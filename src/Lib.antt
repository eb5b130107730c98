-- ===== src/Lib.antt =====
-- The front end of kaicc, the compiler of the KAI language: a file's bytes become tokens, the
-- tokens a syntax tree, and the tree is checked. The parser owns a lexer and asks it for one token
-- at a time; the semantic passes read the tree.
--
-- Base: tests on numbers, indexing, lists and maps over the native numbers, and the libraries'
--   names.
-- Source.Location: FileId, SourceLocation and SourceSpan, of
--   compiler/include/kai/source/SourceLocation.hpp.
-- Source.Lines: ensureLineIndex and lineColumn of compiler/src/source/SourceManager.cpp, for the
--   contents of one buffer; Columns has the proofs. Source.Text: text and lineText of that file.
-- Token: TokenKind, tokenKindName and Token, of compiler/include/kai/lexer/TokenKind.hpp and
--   Token.hpp and compiler/src/lexer/TokenKind.cpp.
-- Lexer: compiler/src/lexer/Lexer.cpp. Chars has the tests on characters, Cursor the state and the
--   cursor, Trivia skipTriviaAndMaybeNewline, Keywords and Scan the scanners, Next nextToken, and
--   Tokens the loop of runTokensCommand in compiler/src/cli/TokenPrinter.cpp. Gaps and Skipped say
--   what trivia is, and Rounds, Consumed, Steps and the end of Tokens have proofs.
-- Ast: the node classes of compiler/include/kai/ast, as data types with the source's node kinds.
-- Parser: compiler/src/parser/Parser.cpp. State has the parser, its errors and the token helpers;
--   Types, Expressions, Operators, Statements and Declarations have the grammar's rules, one
--   function for each member function and one for each loop. The others have proofs: Input is the file
--   being parsed, Layout and TreeLayout say what a parsed tree looks like, Progress how far a
--   parser has come, Rules what a
--   rule promises, and Nodes, Primary, Precedence, Tiers, TypePosts, StmtPosts, BlockPosts,
--   DeclPosts and Files prove it of the rules, from the smallest to the whole file.
-- Semantic: Types is compiler/include/kai/semantic/Type.hpp, Symbol is Symbol.hpp and Model
--   SemanticModel.hpp beside it. Flow is compiler/src/semantic/ControlFlowAnalyzer.cpp, with its
--   paths and proofs in child modules. Analyzer is compiler/src/semantic/SemanticAnalyzer.cpp:
--   TypeNames resolves written types, Scopes declares and looks up names, Bodies goes through
--   statements and expressions, and Passes through a file. Problems says which mistakes a file has,
--   and Reports, NameReports, BodyReports and FileReports compare the two. Steps has the changes
--   that the analyzer makes to a model, and Preserved, Scoped, Declared, Sound, Files and Run what
--   they keep. Updates has what the type checker writes in a model, and Checker is
--   compiler/src/semantic/TypeChecker.cpp: Literals, Operators, Arrays, Calls and Assignments
--   have the rules, Expressions checkExpr over them, Provenance what is known of slices behind
--   branches and loops, and Statements and Functions the rest. Ranges is about integer
--   literals, and Typed and Sound about the types in a model while the checker runs. TypeName
--   is typeName of compiler/src/semantic/SemanticTypeName.cpp, Reading is a reader of such names and
--   RoundTrip is about the two. Shapes says what a type stands
--   for; its child modules are about interning and written types.
-- TokenPrinter: escapeLexeme of compiler/src/cli/TokenPrinter.cpp; Escapes has the proofs.
-- Tests: runs on small inputs.
--
-- State. A lexer's buffer_ and offset_ are a cursor: the offset, and the bytes from it on. A byte
-- is a number, and outside the buffer it reads as 0, as in peek. Offsets and the nesting depths
-- are natural numbers where the code has 32 bits, which hold them for files of less than 4 GiB.
-- The buffer of a file is an argument, in place of the source manager's. A rule of the parser is a
-- function from a parser to a result and a parser; std::unexpected is an error of that result.
-- A symbol's id is its number. The model's maps have the addresses of nodes as keys in the code,
-- and the nodes' spans here, which tell the nodes of one parsed file apart: an identifier's own
-- span is not that of another. The order of a hash map is never read, so a map is a list of
-- entries. An array's length is read as digits that have to fit 64 bits. The stack of scopes is a
-- list with the innermost first; the code's vector has it last. A rule of the type checker takes
-- the checks of its operands as functions of a context and a model, and checkExpr gives it its own
-- calls; the cases of an assignment are a target and a plan, which say what is done with the value.
-- The set of touched symbols is a list. An id of a table that has no such entry, which the code's
-- assertions rule out, has the erroneous type for its element.
--
-- Fuel. The lexer's loops recur on the bytes that are left. The parser's recursion takes fuel, one
-- for each nested rule and each round of a loop that takes a token; parse_file starts with the
-- buffer's length and two, and each such step takes a token of at least one byte. The name of a type
-- takes fuel for each level of the type, and a decimal number for each digit.
--
-- Not modelled: the source manager's files and texts, the columns of the token printer, the
-- printer of trees, the queries and their JSON, the commands, and code generation
-- with LLVM and the linker. The flow analysis takes a function's return type as a parameter, in
-- place of its symbol's signature.
mod Base
pub mod Source
pub mod Token
pub mod Lexer
pub mod Ast
pub mod Parser
pub mod Semantic
pub mod TokenPrinter
mod Tests
