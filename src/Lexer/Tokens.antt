-- ===== src/Lexer/Tokens.antt =====
-- The loop of `runTokensCommand` in compiler/src/cli/TokenPrinter.cpp: the tokens of a whole file.
use mathlib.Core.Option
use kai_cc.Base.{
  ℕ, zero, suc, ◌+◌, ◌<◌, Bool, false, Option, none, some, Bytes, List, [], ◌∷◌, ◌++◌, ◌≡◌, ◌≢◌,
  ◌∙◌, append-nil, ap, arith, length, length-append, inl, inr, if◌then◌else◌,
}
use kai_cc.Lexer.Cursor.{Lexer, span_of}
use kai_cc.Lexer.Gaps.{IsGap}
use kai_cc.Lexer.Next.{is_nested, next_token, start}
use kai_cc.Lexer.Steps.{Lexed, next_token-Lexed}
use kai_cc.Token.{TokenKind, Token, ◌is_kind◌, is_kind-cases}

-- `none` if the fuel runs out before EndOfFile.
unfoldable pub lex_all : ℕ → Lexer → Option (List Token)
lex_all zero l = none
lex_all (suc fuel) l =
    let (t, l') = next_token l in
    let later = Option.map (◌∷◌ t) (lex_all fuel l') in
    if t.kind is_kind TokenKind.end_of_file then some (t ∷ []) else later

-- The tokens cover the bytes from offset `o` on: between two of them stands a gap, none but the
-- last is empty or EndOfFile, and each span is where its bytes stand.
pub data Tiles (file : ℕ) : ℕ → Bytes → List Token → Type 0 where
  last :
      {o : ℕ} {bs : Bytes} {t : Token} {nested : Bool}
      → IsGap nested false bs
      → t.kind ≡ TokenKind.end_of_file
      → t.span ≡ span_of file (o + length bs) (o + length bs)
      → Tiles file o bs (t ∷ [])
  next :
      {o : ℕ} {bs : Bytes} {t : Token} {ts : List Token} {nested : Bool} (gap lexeme rest : Bytes)
      → IsGap nested false gap
      → bs ≡ gap ++ (lexeme ++ rest)
      → 0 < length lexeme
      → t.kind ≢ TokenKind.end_of_file
      → t.span ≡ span_of file (o + length gap) (o + length gap + length lexeme)
      → Tiles file (o + length gap + length lexeme) rest ts
      → Tiles file o bs (t ∷ ts)

-- A token that is not EndOfFile leaves fewer bytes.
pub next_token-shorter :
    (l : Lexer)
    → (next_token l).0.kind ≢ TokenKind.end_of_file
    → length (next_token l).1.cursor.rest < length l.cursor.rest
next_token-shorter l ne =
    let step = next_token-Lexed l in
    omega (
      arith,
      step.not_empty ne,
      ap length step.splits,
      length-append step.gap (step.lexeme ++ (next_token l).1.cursor.rest),
      length-append step.lexeme (next_token l).1.cursor.rest,
    )

-- A step of the lexer is a step of the tiling.
module _ (l : Lexer) (t : Token) (l' : Lexer) (step : Lexed l t l') where
  Tiles-last : t.kind ≡ TokenKind.end_of_file → Tiles l.file l.cursor.offset l.cursor.rest (t ∷ [])
  Tiles-last e =
      let (empty, finished) = step.at_end e in
      let all : l.cursor.rest ≡ step.gap =
        step.splits
        ∙ ap (λ xs. step.gap ++ (xs ++ l'.cursor.rest)) empty
        ∙ ap (λ xs. step.gap ++ xs) finished
        ∙ append-nil step.gap in
      let size = ap length all in
      let reached : l'.cursor.offset ≡ l.cursor.offset + length l.cursor.rest =
        omega (arith, step.moved, ap length empty, size) in
      let begun : l.cursor.offset + length step.gap ≡ l.cursor.offset + length l.cursor.rest =
        omega (arith, size) in
      last {nested = is_nested l} (rw all step.is_gap) e (
        step.spanned
        ∙ ap (λ n. span_of l.file n l'.cursor.offset) begun
        ∙ ap (λ n. span_of l.file (l.cursor.offset + length l.cursor.rest) n) reached)

  Tiles-next :
      (ts : List Token)
      → t.kind ≢ TokenKind.end_of_file
      → Tiles l'.file l'.cursor.offset l'.cursor.rest ts
      → Tiles l.file l.cursor.offset l.cursor.rest (t ∷ ts)
  Tiles-next ts ne tiles =
      next step.gap step.lexeme l'.cursor.rest step.is_gap step.splits (step.not_empty ne) ne
        (step.spanned ∙ ap (λ n. span_of l.file (l.cursor.offset + length step.gap) n) step.moved)
        (rw (← step.moved, ← step.same_file) tiles)

lex_all-Tiles :
    (fuel : ℕ) (l : Lexer)
    → length l.cursor.rest < fuel
    → (ts : List Token) × (lex_all fuel l ≡ some ts) × Tiles l.file l.cursor.offset l.cursor.rest ts
unfolding lex_all
lex_all-Tiles zero l h = elim h [ ]
lex_all-Tiles (suc fuel) l h =
    let (t, l') = next_token l in
    let step = next_token-Lexed l in
    elim (is_kind-cases t.kind TokenKind.end_of_file) [
      | inl (e, done) ↦ (t ∷ [], rw done, Tiles-last l t l' step e)
      | inr (ne, more) ↦
          let (ts, lexed, tiles) = lex_all-Tiles fuel l' (omega (arith, next_token-shorter l ne)) in
          (t ∷ ts, rw (more, lexed), Tiles-next l t l' step ts ne tiles)
    ]

-- On every file the loop over nextToken ends, with fuel for one token a byte and EndOfFile;
-- its tokens, of which only the last is EndOfFile and no other is empty, with the gaps of
-- trivia between them are the whole buffer in order, each token at its span.
pub lex_file-Tiles :
    (file : ℕ) (buffer : Bytes)
    → (ts : List Token) × (lex_all (suc (length buffer)) (start file buffer) ≡ some ts)
      × Tiles file 0 buffer ts
lex_file-Tiles file buffer = lex_all-Tiles (suc (length buffer)) (start file buffer) (omega arith)
