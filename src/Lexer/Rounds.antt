-- ===== src/Lexer/Rounds.antt =====
-- The rounds of `skipTriviaAndMaybeNewline` of compiler/src/lexer/Lexer.cpp, one by one and
-- together.
use kai_cc.Base.{
  ℕ, ◌+◌, Bool, true, false, ◌&&◌, ◌||◌, Bytes, [], ◌∷◌, ◌++◌, ◌≡◌, ◌≢◌, refl, sym, ap, arith, inl,
  inr, ◌==◌, Bool-cases,
}
use kai_cc.Lexer.Gaps.{TriviaRead}
use kai_cc.Lexer.Trivia.{
  TriviaStep, skip_byte, skip_pair, newline_byte, newline_pair, content, trivia_step, Trivia,
  ends_line, skip_trivia,
}
use kai_cc.Lexer.Skipped.{
  IsTrivia, blank, lone_return, line_feed, return_feed, slashes, comment_byte, comment_end,
  IsSkipped, IsSkipped-nil, IsSkipped-content, IsSkipped-line, Found-shift, IsTrivia-IsGap,
  at_trivia, next_byte,
}

-- What the test of a round tells; `d` is the byte behind `c`.
abbrev Round : Bool → Bool → ℕ → ℕ → TriviaStep → Type 0
Round nested comment c d (skip_byte k) =
    (gap after : Bytes)
    → next_byte (gap ++ after) ≡ d
    → IsTrivia nested after k gap
    → IsTrivia nested after comment (c ∷ gap)
Round nested comment c d (skip_pair k) =
    (gap after : Bytes) → IsTrivia nested after k gap → IsTrivia nested after comment (c ∷ d ∷ gap)
Round nested comment c d newline_byte = (nested ≡ false) × (c ≡ b'\n')
Round nested comment c d newline_pair = (nested ≡ false) × (c ≡ b'\r') × (d ≡ b'\n')
Round nested comment c d content = (comment ≡ false) × (at_trivia (c ∷ d ∷ []) ≡ false)

IsSkipped-byte :
    (nested comment k : Bool) (o c : ℕ) (bs : Bytes) (r : Trivia)
    → Round nested comment c (next_byte bs) (skip_byte k)
    → IsSkipped nested k (o + 1) bs r
    → IsSkipped nested comment o (c ∷ bs) r
IsSkipped-byte nested comment k o c bs r step t = record {
  gap = c ∷ t.gap;
  line = t.line;
  is_trivia = step t.gap (t.line ++ r.1.rest) (ap next_byte (sym t.splits)) t.is_trivia;
  splits = ap (◌∷◌ c) t.splits;
  moved = omega (arith, t.moved);
  found = Found-shift nested t.line r.0 (omega arith) t.found;
  stops = t.stops;
}

IsSkipped-pair :
    (nested comment k : Bool) (o c d : ℕ) (bs : Bytes) (r : Trivia)
    → Round nested comment c d (skip_pair k)
    → IsSkipped nested k (o + 2) bs r
    → IsSkipped nested comment o (c ∷ d ∷ bs) r
IsSkipped-pair nested comment k o c d bs r step t = record {
  gap = c ∷ d ∷ t.gap;
  line = t.line;
  is_trivia = step t.gap (t.line ++ r.1.rest) t.is_trivia;
  splits = ap (λ xs. c ∷ d ∷ xs) t.splits;
  moved = omega (arith, t.moved);
  found = Found-shift nested t.line r.0 (omega arith) t.found;
  stops = t.stops;
}

-- A line ending is read alike inside a comment and outside.
Round-comment_end :
    (nested : Bool) (c d : ℕ) (s : TriviaStep)
    → ends_line c d ≡ true
    → Round nested false c d s
    → Round nested true c d s
Round-comment_end nested c d (skip_byte k) h r =
    λ gap after e g. comment_end (rw e h) (r gap after e g)
Round-comment_end nested c d (skip_pair k) h r = λ gap after g. comment_end h (r gap after g)
Round-comment_end nested c d newline_byte h r = r
Round-comment_end nested c d newline_pair h r = r
Round-comment_end nested c d content h r = ground arith

module _ (c d : ℕ) where
  Round-flat : Round false false c d (trivia_step false false c d)
  unfolding trivia_step
  Round-flat = elim (Bool-cases (c == b' ' || c == b'\t')) [
    | inl b ↦ rw b (λ gap after e g. blank b g)
    | inr b ↦ rw b (elim (Bool-cases (c == b'\r' && d == b'\n')) [
      | inl e ↦ rw e (refl, ground arith, ground arith)
      | inr e ↦ rw e (elim (Bool-cases (c == b'\n')) [
        | inl f ↦ rw f (refl, ground arith)
        | inr f ↦ rw f (elim (Bool-cases (c == b'\r')) [
          | inl r ↦ rw r (λ gap after n g. lone_return (ground arith) (rw n (ground arith)) g)
          | inr r ↦ rw r (elim (Bool-cases (c == b'/' && d == b'/')) [
            | inl s ↦ rw s (λ gap after g. slashes (ground arith) (ground arith) g)
            | inr s ↦ rw s (refl, ground arith)
          ])
        ])
      ])
    ])
  ]

  Round-nested : Round true false c d (trivia_step true false c d)
  unfolding trivia_step
  Round-nested = elim (Bool-cases (c == b' ' || c == b'\t')) [
    | inl b ↦ rw b (λ gap after e g. blank b g)
    | inr b ↦ rw b (elim (Bool-cases (c == b'\r' && d == b'\n')) [
      | inl e ↦ rw e (λ gap after g. return_feed (ground arith) (ground arith) refl g)
      | inr e ↦ rw e (elim (Bool-cases (c == b'\n')) [
        | inl f ↦ rw f (λ gap after n g. line_feed (ground arith) refl g)
        | inr f ↦ rw f (elim (Bool-cases (c == b'\r')) [
          | inl r ↦ rw r (λ gap after n g. lone_return (ground arith) (rw n (ground arith)) g)
          | inr r ↦ rw r (elim (Bool-cases (c == b'/' && d == b'/')) [
            | inl s ↦ rw s (λ gap after g. slashes (ground arith) (ground arith) g)
            | inr s ↦ rw s (refl, ground arith)
          ])
        ])
      ])
    ])
  ]

  trivia_step-ends_line :
      (nested : Bool)
      → ends_line c d ≡ true
      → trivia_step nested true c d ≡ trivia_step nested false c d
  unfolding trivia_step
  trivia_step-ends_line nested h = rw h

  Round-outside : (nested : Bool) → Round nested false c d (trivia_step nested false c d)
  Round-outside false = Round-flat
  Round-outside true = Round-nested

  Round-trivia_step :
      (nested comment : Bool) → Round nested comment c d (trivia_step nested comment c d)
  Round-trivia_step nested false = Round-outside nested
  Round-trivia_step nested true = elim (Bool-cases (ends_line c d)) [
    | inl e ↦
        rw (trivia_step-ends_line nested e)
          (Round-comment_end nested c d _ e (Round-outside nested))
    | inr e ↦ unfold trivia_step in rw e (λ gap after n g. comment_byte (rw n e) g)
  ]

pair_ne_end :
    (nested comment : Bool) (c : ℕ) (k : Bool) → trivia_step nested comment c 0 ≢ skip_pair k
unfolding trivia_step
pair_ne_end nested comment c k e = ground arith

-- The rounds together. `peek` is 0 behind the last byte, so no pair is met there.
module _ (nested comment : Bool) (o c : ℕ) where
  last-IsSkipped :
      (s : TriviaStep)
      → trivia_step nested comment c 0 ≡ s
      → Round nested comment c 0 s
      → IsSkipped nested comment o (c ∷ []) (skip_trivia nested comment o (c ∷ []))
  unfolding skip_trivia
  last-IsSkipped (skip_byte k) e r =
      rw (e, skip_trivia)
        (IsSkipped-byte nested comment k o c [] _ r (IsSkipped-nil nested k (o + 1)))
  last-IsSkipped (skip_pair k) e r = absurd (pair_ne_end nested comment c k e)
  last-IsSkipped newline_byte e (flat, feed) =
      rw (e, skip_trivia)
        (rw feed (IsSkipped-line nested comment o (b'\n' ∷ []) [] flat refl (inl refl)))
  last-IsSkipped newline_pair e (flat, ret, feed) = absurd (omega arith)
  last-IsSkipped content e r = rw (e, skip_trivia) (IsSkipped-content nested comment o _ r.0 r.1)

  Round-IsSkipped :
      (d : ℕ) (cs : Bytes) (s : TriviaStep)
      → trivia_step nested comment c d ≡ s
      → Round nested comment c d s
      → ((k : Bool) → IsSkipped nested k (o + 1) (d ∷ cs) (skip_trivia nested k (o + 1) (d ∷ cs)))
      → ((k : Bool) → IsSkipped nested k (o + 2) cs (skip_trivia nested k (o + 2) cs))
      → IsSkipped nested comment o (c ∷ d ∷ cs) (skip_trivia nested comment o (c ∷ d ∷ cs))
  unfolding skip_trivia
  Round-IsSkipped d cs (skip_byte k) e r one two =
      rw (e, skip_trivia) (IsSkipped-byte nested comment k o c (d ∷ cs) _ r (one k))
  Round-IsSkipped d cs (skip_pair k) e r one two =
      rw (e, skip_trivia) (IsSkipped-pair nested comment k o c d cs _ r (two k))
  Round-IsSkipped d cs newline_byte e (flat, feed) one two =
      rw (e, skip_trivia)
        (rw feed (IsSkipped-line nested comment o (b'\n' ∷ []) (d ∷ cs) flat refl (inl refl)))
  Round-IsSkipped d cs newline_pair e (flat, ret, feed) one two =
      rw (e, skip_trivia)
        (rw (ret, feed)
          (IsSkipped-line nested comment o (b'\r' ∷ b'\n' ∷ []) cs flat refl (inr refl)))
  Round-IsSkipped d cs content e r one two =
      rw (e, skip_trivia) (IsSkipped-content nested comment o _ r.0 r.1)

-- From every state, also inside a comment, skipTriviaAndMaybeNewline passes over all the
-- trivia in front of it and nothing else: a comment ends only at a line ending or at the end
-- of the buffer, and a carriage return in front of a line feed is no blank. Behind the trivia
-- it passes over one line ending and yields a Newline that begins there, outside parentheses
-- and brackets only; or it yields none and stands at the end of the buffer or at a byte that
-- begins no trivia. The offset moves by exactly the bytes passed.
pub skip_trivia-IsSkipped :
    (nested comment : Bool) (o : ℕ) (bs : Bytes)
    → IsSkipped nested comment o bs (skip_trivia nested comment o bs)
unfolding skip_trivia
skip_trivia-IsSkipped nested comment o [] = IsSkipped-nil nested comment o
skip_trivia-IsSkipped nested comment o (c ∷ []) =
    last-IsSkipped nested comment o c _ refl (Round-trivia_step c 0 nested comment)
skip_trivia-IsSkipped nested comment o (c ∷ d ∷ cs) =
    Round-IsSkipped nested comment o c d cs _ refl (Round-trivia_step c d nested comment)
      (λ k. skip_trivia-IsSkipped nested k (o + 1) (d ∷ cs))
      (λ k. skip_trivia-IsSkipped nested k (o + 2) cs)

-- What the tokens of a file need of it.
pub skip_trivia-TriviaRead :
    (nested comment : Bool) (o : ℕ) (bs : Bytes)
    → TriviaRead nested comment o bs (skip_trivia nested comment o bs)
skip_trivia-TriviaRead nested comment o bs =
    let t = skip_trivia-IsSkipped nested comment o bs in
    record {
      gap = t.gap;
      line = t.line;
      is_gap = IsTrivia-IsGap t.is_trivia;
      splits = t.splits;
      moved = t.moved;
      found = t.found;
    }
