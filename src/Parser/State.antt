-- ===== src/Parser/State.antt =====
-- The parser's state and its token navigation. A parse is a function of the state; it gives a
-- value and the next state, or the error, or says that the fuel of a loop ran out.
use kai_cc.Base.{ℕ, zero, suc, Bool, true, false, ◌||◌, Option, some, Bytes, if◌then◌else◌}
use kai_cc.Lexer.Cursor.{Lexer}
use kai_cc.Lexer.Next.{start, next_token}
use kai_cc.Source.Location.{SourceLocation, SourceSpan}
use kai_cc.Token.{TokenKind, Token, ◌is_kind◌}

pub record Parser : Type 0 where
  pub file : ℕ
  pub lexer : Lexer
  pub current : Token

pub data ParseErrorKind : Type 0 where
  unexpected_token invalid_token unsupported_syntax : ParseErrorKind

pub record ParseError : Type 0 where
  pub kind : ParseErrorKind
  pub span : SourceSpan
  pub actual : TokenKind
  pub expected : Option TokenKind

pub data Result (A : Type 0) : Type 0 where
  ok : A → Parser → Result A
  err : ParseError → Result A
  out_of_fuel : Result A

abbrev pub M : Type 0 → Type 0
M A = Parser → Result A

infixl 5 ◌>>=◌ ◌>>◌
abbrev pub and_then : {A B : Type 0} → Result A → (A → M B) → Result B
and_then (ok a p) f = f a p
and_then (err e) f = err e
and_then out_of_fuel f = out_of_fuel

abbrev pub ◌>>=◌ : {A B : Type 0} → M A → (A → M B) → M B
◌>>=◌ m f p = and_then (m p) f

abbrev pub ◌>>◌ : {A B : Type 0} → M A → M B → M B
m >> k = m >>= λ _. k

abbrev pub pure : {A : Type 0} → A → M A
pure a p = ok a p

abbrev pub exhausted : {A : Type 0} → M A
exhausted p = out_of_fuel

-- `Parser::Parser` reads the first token.
abbrev pub parser : ℕ → Bytes → Parser
parser file buffer =
    let (t, l) = next_token (start file buffer) in record { file = file; lexer = l; current = t }

-- The member function `current`.
abbrev pub current : M Token
current p = ok p.current p

-- The state behind `advance`.
abbrev pub advanced : Parser → Parser
advanced p = let (t, l) = next_token p.lexer in record p { lexer = l; current = t }

unfoldable pub advance : M Token
advance p = ok p.current (advanced p)

unfoldable pub check : TokenKind → M Bool
check k p = ok (p.current.kind is_kind k) p

unfoldable pub match_token : TokenKind → M Bool
match_token k p = if p.current.kind is_kind k then ok true (advanced p) else ok false p

unfoldable pub fail : {A : Type 0} → ParseErrorKind → Option TokenKind → M A
fail kind expected p = err (record {
  kind = if p.current.kind is_kind TokenKind.invalid then ParseErrorKind.invalid_token else kind;
  span = p.current.span;
  actual = p.current.kind;
  expected = expected;
})

unfoldable pub expect : TokenKind → M Token
expect k p =
    if p.current.kind is_kind k then advance p else fail ParseErrorKind.unexpected_token (some k) p

-- `while (check(…)) advance();` for a set of kinds.
unfoldable pub skip_kinds : (TokenKind → Bool) → ℕ → M (Unit {0})
skip_kinds test zero p = out_of_fuel
skip_kinds test (suc fuel) p = elim (test p.current.kind) [
  | true ↦ skip_kinds test fuel (advanced p)
  | false ↦ ok tt p
]

abbrev pub is_newline : TokenKind → Bool
is_newline k = k is_kind TokenKind.newline

abbrev pub is_separator : TokenKind → Bool
is_separator k = k is_kind TokenKind.newline || k is_kind TokenKind.semicolon

abbrev pub skip_separators : ℕ → M (Unit {0})
skip_separators = skip_kinds is_separator

abbrev pub skip_newlines : ℕ → M (Unit {0})
skip_newlines = skip_kinds is_newline

-- `SourceSpan(begin, end)`.
abbrev pub between : SourceLocation → SourceLocation → SourceSpan
between b e = record { begin = b; end = e }
