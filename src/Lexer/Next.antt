-- ===== src/Lexer/Next.antt =====
-- `Lexer::nextToken`.
use kai_cc.Base.{
  ℕ, ◌+◌, ◌-◌, Bool, false, ◌&&◌, not, none, some, Bytes, [], ◌∷◌, ◌==◌, ltb, length, if◌then◌else◌,
}
use kai_cc.Lexer.Chars.{is_digit, is_identifier_start}
use kai_cc.Lexer.Cursor.{Cursor, Lexer, token}
use kai_cc.Lexer.Scan.{
  Scanned, scan_identifier_or_keyword, scan_number, scan_string, scan_char,
  scan_operator_or_punctuation,
}
use kai_cc.Lexer.Trivia.{Trivia, skip_trivia}
use kai_cc.Token.{TokenKind, Token}

-- The constructor of `Lexer` on a registered buffer.
abbrev pub start : ℕ → Bytes → Lexer
start file buffer = record {
  file = file;
  cursor = record { offset = 0; rest = buffer };
  paren_depth = 0;
  bracket_depth = 0;
}

abbrev pub is_nested : Lexer → Bool
is_nested l = not (l.paren_depth == 0 && l.bracket_depth == 0)

-- At `buffer_.size()`.
abbrev pub eof_token : Lexer → Token
eof_token l =
    let size = l.cursor.offset + length l.cursor.rest in
    token TokenKind.end_of_file l.file size size

-- What `(` and `)`, and `[` and `]`, do to the depths.
abbrev pub depth_after : ℕ → ℕ → ℕ → ℕ → ℕ
depth_after opens closes c depth =
    if c == opens
    then depth + 1
    else if c == closes
    then (if ltb 0 depth then depth - 1 else depth)
    else depth

-- Which of the scanners reads the token, by its first byte.
unfoldable pub scan_content : ℕ → Cursor → Scanned
scan_content c k =
    if is_identifier_start c
    then scan_identifier_or_keyword k
    else if is_digit c
    then scan_number k
    else if c == b'"'
    then scan_string k
    else if c == b'\''
    then scan_char k
    else scan_operator_or_punctuation k

-- The token at a cursor that is behind the trivia. Only the bytes of an operator change a depth.
unfoldable pub scan_at : Lexer → Bytes → Token × Lexer
scan_at l [] = (eof_token l, l)
scan_at l (c ∷ cs) =
    let (kind, end) = scan_content c l.cursor in
    (
      token kind l.file l.cursor.offset end.offset,
      record l {
        cursor = end;
        paren_depth = depth_after b'(' b')' c l.paren_depth;
        bracket_depth = depth_after b'[' b']' c l.bracket_depth;
      },
    )

-- `return *newline`, or the token of the bytes behind the trivia.
unfoldable pub after_trivia : Lexer → Trivia → Token × Lexer
after_trivia l (some begin, c) =
    (token TokenKind.newline l.file begin c.offset, record l { cursor = c })
after_trivia l (none, c) = scan_at (record l { cursor = c }) c.rest

-- The test `isAtEnd()` in front is not repeated: with no byte left there is no trivia, and
-- `scan_at` gives the same token.
unfoldable pub next_token : Lexer → Token × Lexer
unfolding after_trivia
next_token l = after_trivia l (skip_trivia (is_nested l) false l.cursor.offset l.cursor.rest)
