-- ===== src/Lexer/Cursor.antt =====
-- Where compiler/src/lexer/Lexer.cpp reads: `offset_`, with the bytes of `buffer_` from there on.
use kai_cc.Base.{ℕ, ◌+◌, Bool, Bytes, [], ◌∷◌, if◌then◌else◌}
use kai_cc.Source.Location.{SourceLocation, SourceSpan}
use kai_cc.Token.{TokenKind, Token}

pub record Cursor : Type 0 where
  pub offset : ℕ
  pub rest : Bytes

-- `peek` on the bytes that are left: 0 at the end of the buffer.
abbrev pub peek : Bytes → ℕ
peek [] = 0
peek (c ∷ cs) = c

-- `peekNext` on the bytes that are left.
abbrev pub peek_next : Bytes → ℕ
peek_next [] = 0
peek_next (c ∷ cs) = peek cs

-- `advance`, which asserts that a byte is left.
abbrev pub advance : Cursor → Cursor
advance c = elim c.rest [ [] ↦ c | b ∷ bs ↦ record { offset = c.offset + 1; rest = bs } ]

-- `while (test) advance();` for a test of `peek()` and `peekNext()` that fails on byte 0.
unfoldable pub skip_while : (ℕ → ℕ → Bool) → ℕ → Bytes → Cursor
skip_while test o [] = record { offset = o; rest = [] }
skip_while test o (c ∷ cs) =
    if test c (peek cs) then skip_while test (o + 1) cs else record { offset = o; rest = c ∷ cs }

-- The scanner: the members of `Lexer` that change. `file_` is a member too.
pub record Lexer : Type 0 where
  pub file : ℕ
  pub cursor : Cursor
  pub paren_depth : ℕ
  pub bracket_depth : ℕ

abbrev pub location : ℕ → ℕ → SourceLocation
location f o = record { file = f; offset = o }

abbrev pub span_of : ℕ → ℕ → ℕ → SourceSpan
span_of f b e = record { begin = location f b; end = location f e }

abbrev pub token : TokenKind → ℕ → ℕ → ℕ → Token
token k f b e = record { kind = k; span = span_of f b e }
