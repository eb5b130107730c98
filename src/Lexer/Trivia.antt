-- ===== src/Lexer/Trivia.antt =====
-- `Lexer::skipTriviaAndMaybeNewline`. Its two nested loops are one here: a flag says that the
-- bytes read are those of a comment.
use kai_cc.Base.{
  ℕ, ◌+◌, Bool, true, false, not, ◌&&◌, ◌||◌, Option, none, some, Bytes, [], ◌∷◌, ◌==◌,
  if◌then◌else◌,
}
use kai_cc.Lexer.Cursor.{Cursor}

-- What one round of the loops does: it passes over one or two bytes, and is then in a comment or
-- not; or it returns a Newline token of one or two bytes; or it has met real content.
pub data TriviaStep : Type 0 where
  skip_byte skip_pair : Bool → TriviaStep
  newline_byte newline_pair content : TriviaStep

abbrev pub ends_line : ℕ → ℕ → Bool
ends_line c next = c == b'\n' || (c == b'\r' && next == b'\n')

-- `nested` says that a parenthesis or a bracket is open.
unfoldable pub trivia_step : Bool → Bool → ℕ → ℕ → TriviaStep
trivia_step nested comment c next =
    if comment && not (ends_line c next)
    then skip_byte true
    else if c == b' ' || c == b'\t'
    then skip_byte false
    else if c == b'\r' && next == b'\n'
    then (if nested then skip_pair false else newline_pair)
    else if c == b'\n'
    then (if nested then skip_byte false else newline_byte)
    else if c == b'\r'
    then skip_byte false
    else if c == b'/' && next == b'/'
    then skip_pair true
    else content

-- Where the Newline token begins, if there is one, and the cursor behind the trivia.
abbrev pub Trivia : Type 0
Trivia = Option ℕ × Cursor

unfoldable pub skip_trivia : Bool → Bool → ℕ → Bytes → Trivia
skip_trivia nested comment o [] = (none, record { offset = o; rest = [] })
skip_trivia nested comment o (c ∷ []) = elim (trivia_step nested comment c 0) [
  | skip_byte k ↦ (none, record { offset = o + 1; rest = [] })
  | skip_pair k ↦ (none, record { offset = o + 1; rest = [] })
  | newline_byte ↦ (some o, record { offset = o + 1; rest = [] })
  | newline_pair ↦ (some o, record { offset = o + 1; rest = [] })
  | content ↦ (none, record { offset = o; rest = c ∷ [] })
]
skip_trivia nested comment o (c ∷ d ∷ cs) = elim (trivia_step nested comment c d) [
  | skip_byte k ↦ skip_trivia nested k (o + 1) (d ∷ cs)
  | skip_pair k ↦ skip_trivia nested k (o + 2) cs
  | newline_byte ↦ (some o, record { offset = o + 1; rest = d ∷ cs })
  | newline_pair ↦ (some o, record { offset = o + 2; rest = cs })
  | content ↦ (none, record { offset = o; rest = c ∷ d ∷ cs })
]
