-- ===== src/Lexer/Steps.antt =====
-- One call of `nextToken`: a gap, then the token's bytes, then what is left for the next call.
use kai_cc.Base.{
  ℕ, ◌+◌, ◌<◌, Bool, true, false, not, ◌&&◌, ◌||◌, none, some, Bytes, [], ◌∷◌, ◌++◌, ◌≡◌, ◌≢◌, refl,
  sym, subst, ap, ◌∙◌, arith, length, ◌⊎◌, ◌==◌, List,
}
use kai_cc.Lexer.Consumed.{Consumed, scan_content-Consumed}
use kai_cc.Lexer.Cursor.{Cursor, Lexer, peek, peek_next, span_of, token}
use kai_cc.Lexer.Gaps.{IsGap, TriviaRead}
use kai_cc.Lexer.Rounds.{skip_trivia-TriviaRead}
use kai_cc.Lexer.Keywords.{keywords, keyword_or_identifier}
use kai_cc.Lexer.Next.{is_nested, scan_content, scan_at, after_trivia, next_token}
use kai_cc.Lexer.Scan.{
  scan_identifier_or_keyword, scan_number, scan_string, scan_char, operator_kind,
  scan_operator_or_punctuation,
}
use kai_cc.Lexer.Trivia.{Trivia}
use kai_cc.Token.{TokenKind, value, Token}

-- Neither EndOfFile nor Newline.
is_content : TokenKind → Bool
unfolding value
is_content k = not (value k == 0 || value k == 2)

all_content : List (Bytes × TokenKind) → Bool
unfolding is_content
all_content [] = true
all_content ((text, kind) ∷ table) = is_content kind && all_content table

keyword_or_identifier-content :
    (table : List (Bytes × TokenKind)) (lexeme : Bytes)
    → all_content table ≡ true
    → is_content (keyword_or_identifier table lexeme) ≡ true
unfolding keyword_or_identifier all_content
keyword_or_identifier-content [] lexeme h = refl
keyword_or_identifier-content ((text, kind) ∷ table) lexeme h =
    ground (arith, keyword_or_identifier-content table lexeme)

scan_identifier-content : (k : Cursor) → is_content (scan_identifier_or_keyword k).0 ≡ true
unfolding scan_identifier_or_keyword all_content
scan_identifier-content k = keyword_or_identifier-content keywords _ refl

scan_number-content : (k : Cursor) → is_content (scan_number k).0 ≡ true
unfolding scan_number is_content
scan_number-content k = ground arith

operator_kind-content : (c next : ℕ) → is_content (operator_kind c next).0 ≡ true
unfolding operator_kind is_content
operator_kind-content c next = ground arith

scan_content-content : (c : ℕ) (k : Cursor) → is_content (scan_content c k).0 ≡ true
unfolding scan_content scan_string scan_char scan_operator_or_punctuation is_content
scan_content-content c k = ground (
  arith,
  scan_identifier-content k,
  scan_number-content k,
  operator_kind-content (peek k.rest) (peek_next k.rest),
)

content-ne_end : (k : TokenKind) → is_content k ≡ true → k ≢ TokenKind.end_of_file
unfolding is_content
content-ne_end k h e = cc

content-ne_newline : (k : TokenKind) → is_content k ≡ true → k ≢ TokenKind.newline
unfolding is_content
content-ne_newline k h e = cc

-- From `l` the call gave the token `t` and left the lexer at `l'`.
pub record Lexed (l : Lexer) (t : Token) (l' : Lexer) : Type 0 where
  pub gap : Bytes
  pub lexeme : Bytes
  pub is_gap : IsGap (is_nested l) false gap
  pub splits : l.cursor.rest ≡ gap ++ (lexeme ++ l'.cursor.rest)
  pub moved : l'.cursor.offset ≡ l.cursor.offset + length gap + length lexeme
  pub spanned : t.span ≡ span_of l.file (l.cursor.offset + length gap) l'.cursor.offset
  pub same_file : l'.file ≡ l.file
  pub not_empty : t.kind ≢ TokenKind.end_of_file → 0 < length lexeme
  pub at_end : t.kind ≡ TokenKind.end_of_file → (lexeme ≡ []) × (l'.cursor.rest ≡ [])
  pub line_ending :
      t.kind ≡ TokenKind.newline
      → (is_nested l ≡ false) × ((lexeme ≡ b'\n' ∷ []) ⊎ (lexeme ≡ b'\r' ∷ b'\n' ∷ []))

-- The call once the trivia is read: at a line ending, at the end of the buffer, at real content.
module _ (l : Lexer) where
  line-Lexed :
      (b : ℕ) (c : Cursor)
      → TriviaRead (is_nested l) false l.cursor.offset l.cursor.rest (some b, c)
      → Lexed l (token TokenKind.newline l.file b c.offset) (record l { cursor = c })
  line-Lexed b c t = record {
    gap = t.gap;
    lexeme = t.line;
    is_gap = t.is_gap;
    splits = t.splits;
    moved = t.moved;
    spanned = rw (← t.found.0);
    same_file = refl;
    not_empty = λ _. ground (arith, t.found.2);
    at_end = λ e. cc e;
    line_ending = λ _. (t.found.1, t.found.2);
  }

  scan_at-Lexed :
      (c : Cursor) (bs : Bytes)
      → c.rest ≡ bs
      → TriviaRead (is_nested l) false l.cursor.offset l.cursor.rest (none, c)
      → let r = scan_at (record l { cursor = c }) bs in Lexed l r.0 r.1
  unfolding scan_at
  scan_at-Lexed c [] e t = record {
    gap = t.gap;
    lexeme = [];
    is_gap = t.is_gap;
    splits = t.splits ∙ ap (λ xs. t.gap ++ (xs ++ c.rest)) t.found;
    moved = omega (arith, t.moved, ap length t.found);
    spanned =
        let size : c.offset + length c.rest ≡ c.offset = omega (arith, ap length e) in
        let at : c.offset ≡ l.cursor.offset + length t.gap =
          omega (arith, t.moved, ap length t.found) in
        ap (λ n. span_of l.file n n) size ∙ ap (λ n. span_of l.file n c.offset) at;
    same_file = refl;
    not_empty = λ ne. absurd (ne refl);
    at_end = λ _. (refl, e);
    line_ending = λ k. cc k;
  }
  scan_at-Lexed c (b ∷ bs) e t =
      let from = λ (r : Bytes).
        Consumed (c.offset + 1) bs (scan_content b (record { offset = c.offset; rest = r })).1 in
      let scanned : Consumed (c.offset + 1) bs (scan_content b c).1 =
        subst from (sym e) (scan_content-Consumed c.offset b bs) in
      let is_token = scan_content-content b c in
      let at : c.offset ≡ l.cursor.offset + length t.gap =
        omega (arith, t.moved, ap length t.found) in
      record {
        gap = t.gap;
        lexeme = b ∷ scanned.read;
        is_gap = t.is_gap;
        splits =
            t.splits
            ∙ ap (λ xs. t.gap ++ (xs ++ c.rest)) t.found
            ∙ ap (λ xs. t.gap ++ xs) (e ∙ ap (◌∷◌ b) scanned.splits);
        moved = omega (arith, at, scanned.moved);
        spanned = ap (λ n. span_of l.file n (scan_content b c).1.offset) at;
        same_file = refl;
        not_empty = λ _. omega arith;
        at_end = λ k. absurd (content-ne_end _ is_token k);
        line_ending = λ k. absurd (content-ne_newline _ is_token k);
      }

after_trivia-Lexed :
    (l : Lexer) (r : Trivia)
    → TriviaRead (is_nested l) false l.cursor.offset l.cursor.rest r
    → Lexed l (after_trivia l r).0 (after_trivia l r).1
unfolding after_trivia
after_trivia-Lexed l (some b, c) t = line-Lexed l b c t
after_trivia-Lexed l (none, c) t = scan_at-Lexed l c c.rest refl t

-- From every state nextToken reads a gap of trivia and then the bytes of its token, moves by
-- exactly those bytes, and gives the token the span of those bytes; at EndOfFile the buffer is
-- used up, every other token has at least one byte, and a Newline is one line ending outside
-- parentheses and brackets.
pub next_token-Lexed : (l : Lexer) → Lexed l (next_token l).0 (next_token l).1
unfolding next_token
next_token-Lexed l =
    after_trivia-Lexed l _
      (skip_trivia-TriviaRead (is_nested l) false l.cursor.offset l.cursor.rest)
