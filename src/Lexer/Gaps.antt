-- ===== src/Lexer/Gaps.antt =====
-- What may stand between two tokens.
use kai_cc.Base.{
  ℕ, ◌+◌, Bool, true, false, ◌||◌, Option, none, some, Bytes, [], ◌∷◌, ◌++◌, ◌≡◌, length, ◌⊎◌, ◌==◌,
}
use kai_cc.Lexer.Trivia.{Trivia}

-- Blanks, comments, and line feeds where a parenthesis or a bracket is open; the flag says that
-- the bytes begin inside a comment.
pub data IsGap (nested : Bool) : Bool → Bytes → Type 0 where
  nil : {comment : Bool} → IsGap nested comment []
  blank :
      {c : ℕ} {cs : Bytes}
      → (c == b' ' || c == b'\t' || c == b'\r') ≡ true
      → IsGap nested false cs
      → IsGap nested false (c ∷ cs)
  line_feed :
      {c : ℕ} {cs : Bytes}
      → c ≡ b'\n'
      → nested ≡ true
      → IsGap nested false cs
      → IsGap nested false (c ∷ cs)
  slashes :
      {c d : ℕ} {cs : Bytes}
      → c ≡ b'/'
      → d ≡ b'/'
      → IsGap nested true cs
      → IsGap nested false (c ∷ d ∷ cs)
  comment_byte :
      {c : ℕ} {cs : Bytes}
      → (c == b'\n') ≡ false
      → IsGap nested true cs
      → IsGap nested true (c ∷ cs)
  comment_end : {cs : Bytes} → IsGap nested false cs → IsGap nested true cs

-- A Newline token is one line ending outside all parentheses and brackets; with no such token
-- nothing is read behind the gap.
abbrev pub Found : Bool → ℕ → Bytes → Option ℕ → Type 0
Found nested m line none = line ≡ []
Found nested m line (some b) =
    (b ≡ m) × (nested ≡ false) × ((line ≡ b'\n' ∷ []) ⊎ (line ≡ b'\r' ∷ b'\n' ∷ []))

pub record TriviaRead (nested comment : Bool) (o : ℕ) (bs : Bytes) (r : Trivia) : Type 0 where
  pub gap : Bytes
  pub line : Bytes
  pub is_gap : IsGap nested comment gap
  pub splits : bs ≡ gap ++ (line ++ r.1.rest)
  pub moved : r.1.offset ≡ o + length gap + length line
  pub found : Found nested (o + length gap) line r.0
