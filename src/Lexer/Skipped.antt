-- ===== src/Lexer/Skipped.antt =====
-- What `skipTriviaAndMaybeNewline` of compiler/src/lexer/Lexer.cpp is to read: which bytes are
-- trivia in front of which others, and where it is to stop.
use kai_cc.Base.{
  ℕ, ◌+◌, Bool, true, false, ◌&&◌, ◌||◌, Option, none, some, Bytes, [], ◌∷◌, ◌++◌, ◌≡◌, refl, arith,
  length, ◌⊎◌, ◌==◌,
}
use kai_cc.Lexer.Gaps.{IsGap, Found}
use kai_cc.Lexer.Trivia.{Trivia}

-- The next byte, and 0 behind the last.
abbrev pub next_byte : Bytes → ℕ
next_byte [] = 0
next_byte (c ∷ _) = c

-- A line feed, or a carriage return and a line feed.
abbrev pub at_line_end : Bytes → Bool
at_line_end [] = false
at_line_end (c ∷ cs) = c == b'\n' || (c == b'\r' && next_byte cs == b'\n')

-- A blank, a line ending or a comment.
abbrev pub at_trivia : Bytes → Bool
at_trivia [] = false
at_trivia (c ∷ cs) =
    c == b' ' || c == b'\t' || c == b'\r' || c == b'\n' || (c == b'/' && next_byte cs == b'/')

-- The trivia in front of the bytes `after`; the flag says that it begins inside a comment. A line
-- ending belongs to it where a parenthesis or a bracket is open.
pub data IsTrivia (nested : Bool) (after : Bytes) : Bool → Bytes → Type 0 where
  nil : IsTrivia nested after false []
  blank :
      {c : ℕ} {cs : Bytes}
      → (c == b' ' || c == b'\t') ≡ true
      → IsTrivia nested after false cs
      → IsTrivia nested after false (c ∷ cs)
  lone_return :
      {c : ℕ} {cs : Bytes}
      → c ≡ b'\r'
      → (next_byte (cs ++ after) == b'\n') ≡ false
      → IsTrivia nested after false cs
      → IsTrivia nested after false (c ∷ cs)
  line_feed :
      {c : ℕ} {cs : Bytes}
      → c ≡ b'\n'
      → nested ≡ true
      → IsTrivia nested after false cs
      → IsTrivia nested after false (c ∷ cs)
  return_feed :
      {c d : ℕ} {cs : Bytes}
      → c ≡ b'\r'
      → d ≡ b'\n'
      → nested ≡ true
      → IsTrivia nested after false cs
      → IsTrivia nested after false (c ∷ d ∷ cs)
  slashes :
      {c d : ℕ} {cs : Bytes}
      → c ≡ b'/'
      → d ≡ b'/'
      → IsTrivia nested after true cs
      → IsTrivia nested after false (c ∷ d ∷ cs)
  comment_byte :
      {c : ℕ} {cs : Bytes}
      → at_line_end (c ∷ (cs ++ after)) ≡ false
      → IsTrivia nested after true cs
      → IsTrivia nested after true (c ∷ cs)
  comment_end :
      {cs : Bytes}
      → at_line_end (cs ++ after) ≡ true
      → IsTrivia nested after false cs
      → IsTrivia nested after true cs
  buffer_end : after ≡ [] → IsTrivia nested after true []

-- The trivia is used up: behind it stands the line ending of a Newline token, or else the end of
-- the buffer or a byte that begins no trivia.
pub record IsSkipped (nested comment : Bool) (o : ℕ) (bs : Bytes) (r : Trivia) : Type 0 where
  pub gap : Bytes
  pub line : Bytes
  pub is_trivia : IsTrivia nested (line ++ r.1.rest) comment gap
  pub splits : bs ≡ gap ++ (line ++ r.1.rest)
  pub moved : r.1.offset ≡ o + length gap + length line
  pub found : Found nested (o + length gap) line r.0
  pub stops : r.0 ≡ none → at_trivia r.1.rest ≡ false

buffer_end-IsTrivia : (nested comment : Bool) → IsTrivia nested [] comment []
buffer_end-IsTrivia nested false = nil
buffer_end-IsTrivia nested true = buffer_end refl

line_end-IsTrivia :
    (nested comment : Bool) (after : Bytes)
    → at_line_end after ≡ true
    → IsTrivia nested after comment []
line_end-IsTrivia nested false after h = nil
line_end-IsTrivia nested true after h = comment_end h nil

module _ (nested comment : Bool) (o : ℕ) where
  pub IsSkipped-nil : IsSkipped nested comment o [] (none, record { offset = o; rest = [] })
  IsSkipped-nil = record {
    gap = [];
    line = [];
    is_trivia = buffer_end-IsTrivia nested comment;
    splits = refl;
    moved = omega arith;
    found = refl;
    stops = λ _. refl;
  }

  pub IsSkipped-content :
      (bs : Bytes)
      → comment ≡ false
      → at_trivia bs ≡ false
      → IsSkipped nested comment o bs (none, record { offset = o; rest = bs })
  IsSkipped-content bs outside stops = record {
    gap = [];
    line = [];
    is_trivia = rw outside nil;
    splits = refl;
    moved = omega arith;
    found = refl;
    stops = λ _. stops;
  }

  pub IsSkipped-line :
      (line : Bytes) (bs : Bytes)
      → nested ≡ false
      → at_line_end (line ++ bs) ≡ true
      → (line ≡ b'\n' ∷ []) ⊎ (line ≡ b'\r' ∷ b'\n' ∷ [])
      → IsSkipped nested comment o
          (line ++ bs)
          (some o, record { offset = o + length line; rest = bs })
  IsSkipped-line line bs flat ends is_line = record {
    gap = [];
    line = line;
    is_trivia = line_end-IsTrivia nested comment (line ++ bs) ends;
    splits = refl;
    moved = omega arith;
    found = (omega arith, flat, is_line);
    stops = λ e. cc e;
  }

-- One round that passes over one byte, or two, in front of what is read behind it.
pub Found-shift :
    (nested : Bool) {m n : ℕ} (line : Bytes) (newline : Option ℕ)
    → m ≡ n
    → Found nested m line newline
    → Found nested n line newline
Found-shift nested line newline e f = rw e at f

pub IsTrivia-IsGap :
    {nested : Bool} {after : Bytes} {comment : Bool} {gap : Bytes}
    → IsTrivia nested after comment gap
    → IsGap nested comment gap
IsTrivia-IsGap nil = IsGap.nil
IsTrivia-IsGap (blank h t) = IsGap.blank (ground arith) (IsTrivia-IsGap t)
IsTrivia-IsGap (lone_return h n t) = IsGap.blank (ground arith) (IsTrivia-IsGap t)
IsTrivia-IsGap (line_feed h n t) = IsGap.line_feed h n (IsTrivia-IsGap t)
IsTrivia-IsGap (return_feed h f n t) =
    IsGap.blank (ground arith) (IsGap.line_feed f n (IsTrivia-IsGap t))
IsTrivia-IsGap (slashes h f t) = IsGap.slashes h f (IsTrivia-IsGap t)
IsTrivia-IsGap (comment_byte h t) = IsGap.comment_byte (ground arith) (IsTrivia-IsGap t)
IsTrivia-IsGap (comment_end h t) = IsGap.comment_end (IsTrivia-IsGap t)
IsTrivia-IsGap (buffer_end h) = IsGap.nil
