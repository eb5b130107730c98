-- ===== src/Lexer/Scan.antt =====
-- The `scan…` functions of compiler/src/lexer/Lexer.cpp: each reads one token from a position
-- with a byte left, and gives its kind and where it ends.
use kai_cc.Base.{
  ℕ, ◌+◌, ◌-◌, Bool, true, false, ◌&&◌, ◌||◌, Bytes, [], ◌∷◌, take, ◌==◌, if◌then◌else◌,
}
use kai_cc.Lexer.Chars.{
  is_digit, is_identifier_start, is_identifier_continue, is_supported_string_escape_char,
  is_supported_char_escape_char,
}
use kai_cc.Lexer.Cursor.{Cursor, peek, peek_next, skip_while, advance}
use kai_cc.Lexer.Keywords.{keywords, keyword_or_identifier}
use kai_cc.Token.{TokenKind}

-- A token's kind and the cursor behind it.
abbrev pub Scanned : Type 0
Scanned = TokenKind × Cursor

unfoldable pub scan_identifier_or_keyword : Cursor → Scanned
scan_identifier_or_keyword start =
    let first = advance start in
    let end = skip_while (λ c _. is_identifier_continue c) first.offset first.rest in
    let lexeme = take (end.offset - start.offset) start.rest in
    (keyword_or_identifier keywords lexeme, end)

-- A byte of the malformed sequence that a letter behind a number begins.
unfoldable pub continues_malformed : ℕ → ℕ → Bool
unfolding is_identifier_continue is_digit
continues_malformed c next = is_identifier_continue c || ((c == b'+' || c == b'-') && is_digit next)

-- The digits behind a `.` that is followed by a digit, with the flag `isFloat`.
unfoldable pub scan_fraction : Cursor → Bool × Cursor
scan_fraction c =
    if peek c.rest == b'.' && is_digit (peek_next c.rest)
    then (let dot = advance c in (true, skip_while (λ d _. is_digit d) dot.offset dot.rest))
    else (false, c)

unfoldable pub scan_number : Cursor → Scanned
scan_number start =
    let (is_float, c) = scan_fraction (skip_while (λ d _. is_digit d) start.offset start.rest) in
    if is_identifier_start (peek c.rest)
    then (TokenKind.invalid, skip_while continues_malformed c.offset c.rest)
    else (if is_float then TokenKind.float_literal else TokenKind.integer_literal, c)

-- The loop of `scanString`, with its flag `valid`.
unfoldable pub string_loop : Bool → ℕ → Bytes → Bool × Cursor
string_loop valid o [] = (false, record { offset = o; rest = [] })
string_loop valid o (c ∷ []) =
    if c == b'\n' || c == b'\r'
    then (false, record { offset = o; rest = c ∷ [] })
    else if c == b'"'
    then (valid, record { offset = o + 1; rest = [] })
    else (false, record { offset = o + 1; rest = [] })
string_loop valid o (c ∷ d ∷ cs) =
    let ordinary = string_loop valid (o + 1) (d ∷ cs) in
    let escaped = string_loop (valid && is_supported_string_escape_char d) (o + 2) cs in
    if c == b'\n' || c == b'\r'
    then (false, record { offset = o; rest = c ∷ d ∷ cs })
    else if c == b'"'
    then (valid, record { offset = o + 1; rest = d ∷ cs })
    else if c == b'\\'
    then escaped
    else ordinary

unfoldable pub scan_string : Cursor → Scanned
scan_string start =
    let first = advance start in
    let (valid, end) = string_loop true first.offset first.rest in
    (if valid then TokenKind.string_literal else TokenKind.invalid, end)

-- The loop of `scanChar`, with its flag `valid` and its counter `contentUnits`.
unfoldable pub char_loop : Bool → ℕ → ℕ → Bytes → Bool × ℕ × Cursor
char_loop valid units o [] = (false, units, record { offset = o; rest = [] })
char_loop valid units o (c ∷ []) =
    if c == b'\n' || c == b'\r'
    then (false, units, record { offset = o; rest = c ∷ [] })
    else if c == b'\''
    then (valid, units, record { offset = o + 1; rest = [] })
    else if c == b'\\'
    then (false, units, record { offset = o + 1; rest = [] })
    else (false, units + 1, record { offset = o + 1; rest = [] })
char_loop valid units o (c ∷ d ∷ cs) =
    let ordinary = char_loop valid (units + 1) (o + 1) (d ∷ cs) in
    let escaped = char_loop (valid && is_supported_char_escape_char d) (units + 1) (o + 2) cs in
    if c == b'\n' || c == b'\r'
    then (false, units, record { offset = o; rest = c ∷ d ∷ cs })
    else if c == b'\''
    then (valid, units, record { offset = o + 1; rest = d ∷ cs })
    else if c == b'\\'
    then escaped
    else ordinary

unfoldable pub scan_char : Cursor → Scanned
scan_char start =
    let first = advance start in
    let (valid, units, end) = char_loop true 0 first.offset first.rest in
    (if valid && units == 1 then TokenKind.char_literal else TokenKind.invalid, end)

-- The switch of `scanOperatorOrPunctuation` on the byte read and the one behind it: the kind, and
-- whether `match` took the second byte.
unfoldable pub operator_kind : ℕ → ℕ → TokenKind × Bool
operator_kind c next =
    if c == b'+'
    then (TokenKind.plus, false)
    else if c == b'-'
    then (if next == b'>' then (TokenKind.arrow, true) else (TokenKind.minus, false))
    else if c == b'*'
    then (TokenKind.star, false)
    else if c == b'/'
    then (TokenKind.slash, false)
    else if c == b'%'
    then (TokenKind.percent, false)
    else if c == b'='
    then (if next == b'=' then (TokenKind.equal_equal, true) else (TokenKind.equal, false))
    else if c == b'!'
    then (if next == b'=' then (TokenKind.bang_equal, true) else (TokenKind.bang, false))
    else if c == b'<'
    then (if next == b'=' then (TokenKind.less_equal, true) else (TokenKind.less, false))
    else if c == b'>'
    then (if next == b'=' then (TokenKind.greater_equal, true) else (TokenKind.greater, false))
    else if c == b'&'
    then (if next == b'&' then (TokenKind.amp_amp, true) else (TokenKind.amp, false))
    else if c == b'|'
    then (if next == b'|' then (TokenKind.pipe_pipe, true) else (TokenKind.invalid, false))
    else if c == b'.'
    then (if next == b'.' then (TokenKind.dot_dot, true) else (TokenKind.dot, false))
    else if c == b'?'
    then (TokenKind.question, false)
    else if c == b'('
    then (TokenKind.left_paren, false)
    else if c == b')'
    then (TokenKind.right_paren, false)
    else if c == b'{'
    then (TokenKind.left_brace, false)
    else if c == b'}'
    then (TokenKind.right_brace, false)
    else if c == b'['
    then (TokenKind.left_bracket, false)
    else if c == b']'
    then (TokenKind.right_bracket, false)
    else if c == b','
    then (TokenKind.comma, false)
    else if c == b':'
    then (TokenKind.colon, false)
    else if c == b';'
    then (TokenKind.semicolon, false)
    else (TokenKind.invalid, false)

unfoldable pub scan_operator_or_punctuation : Cursor → Scanned
scan_operator_or_punctuation start =
    let (kind, two) = operator_kind (peek start.rest) (peek_next start.rest) in
    (kind, if two then advance (advance start) else advance start)
