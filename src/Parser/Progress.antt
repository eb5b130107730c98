-- ===== src/Parser/Progress.antt =====
-- How far a parser has come: the tokens that are left, and where the current one begins.
use kai_cc.Parser.Input.{OpenFile, opened, IsReached}
use kai_cc.Base.{
  ℕ, suc, ◌+◌, ◌≤◌, ◌≡◌, ◌≢◌, refl, inl, inr, ap, arith, length, length-append, ◌++◌, if◌then◌else◌,
  Bytes,
}
use kai_cc.Lexer.Cursor.{Lexer}
use kai_cc.Lexer.Next.{next_token, start}
use kai_cc.Lexer.Steps.{next_token-Lexed}
use kai_cc.Lexer.Tokens.{next_token-shorter}
use kai_cc.Parser.State.{Parser, parser, advanced}
use kai_cc.Source.Location.{SourceSpan}
use kai_cc.Token.{TokenKind, ◌is_kind◌, Token, is_kind-cases}

-- No more than so many tokens are left before EndOfFile.
unfoldable pub remaining : Parser → ℕ
remaining p =
    if p.current.kind is_kind TokenKind.end_of_file then 0 else suc (length p.lexer.cursor.rest)

-- The offset of the current token.
abbrev pub at : Parser → ℕ
at p = p.current.span.begin.offset

-- The state comes up in reading the file. The current token's span is in the file, and ends where
-- the lexer reads on, or before; what the lexer has passed and what it has left make up the size.
-- Any state whose span is so may be taken for the first of an open file.
pub record IsReady (file : OpenFile) (p : Parser) : Type 0 where
  pub own_file : p.file ≡ file.id
  pub lexer_file : p.lexer.file ≡ file.id
  pub begin_file : p.current.span.begin.file ≡ file.id
  pub end_file : p.current.span.end.file ≡ file.id
  pub ordered : p.current.span.begin.offset ≤ p.current.span.end.offset
  pub behind : p.current.span.end.offset ≤ p.lexer.cursor.offset
  pub is_reached : IsReached file p
  pub measured : p.lexer.cursor.offset + length p.lexer.cursor.rest ≡ file.size

-- From `p` to `p'` the parser took at least `n` tokens.
pub record Reads (file : OpenFile) (n : ℕ) (p p' : Parser) : Type 0 where
  pub ready : IsReady file p'
  pub forward : at p ≤ at p'
  pub fewer : remaining p' + n ≤ remaining p

-- The span begins at the current token of `p`, and ends before that of `p'`.
pub record Covers (file : OpenFile) (p : Parser) (s : SourceSpan) (p' : Parser) : Type 0 where
  pub begin_file : s.begin.file ≡ file.id
  pub end_file : s.end.file ≡ file.id
  pub starts : s.begin.offset ≡ at p
  pub ordered : s.begin.offset ≤ s.end.offset
  pub stops : s.end.offset ≤ at p'

remaining-advanced :
    (p : Parser) → p.current.kind ≢ TokenKind.end_of_file → remaining (advanced p) + 1 ≤ remaining p
unfolding remaining
remaining-advanced p ne = elim (is_kind-cases p.current.kind TokenKind.end_of_file) [
  | inl (e, _) ↦ absurd (ne e)
  | inr (_, more) ↦
      rw more (elim (is_kind-cases (next_token p.lexer).0.kind TokenKind.end_of_file) [
        | inl (_, done) ↦ rw done (omega arith)
        | inr (later, going) ↦ rw going (omega (arith, next_token-shorter p.lexer later))
      ])
]

-- Where the next token stands.
record IsPlaced (l : Lexer) (t : Token) (l' : Lexer) : Type 0 where
  begin_file : t.span.begin.file ≡ l.file
  end_file : t.span.end.file ≡ l.file
  after : l.cursor.offset ≤ t.span.begin.offset
  ordered : t.span.begin.offset ≤ t.span.end.offset
  reached : t.span.end.offset ≡ l'.cursor.offset
  same_file : l'.file ≡ l.file
  measured : l'.cursor.offset + length l'.cursor.rest ≡ l.cursor.offset + length l.cursor.rest

next_token-IsPlaced : (l : Lexer) → IsPlaced l (next_token l).0 (next_token l).1
next_token-IsPlaced l =
    let step = next_token-Lexed l in
    let begin_offset = ap (λ s. s.begin.offset) step.spanned in
    let end_offset = ap (λ s. s.end.offset) step.spanned in
    record {
      begin_file = ap (λ s. s.begin.file) step.spanned;
      end_file = ap (λ s. s.end.file) step.spanned;
      after = omega (arith, begin_offset);
      ordered = omega (arith, begin_offset, end_offset, step.moved);
      reached = end_offset;
      same_file = step.same_file;
      measured = omega (
        arith,
        step.moved,
        ap length step.splits,
        length-append step.gap (step.lexeme ++ (next_token l).1.cursor.rest),
        length-append step.lexeme (next_token l).1.cursor.rest,
      );
    }

module _ (file : OpenFile) (p : Parser) (r : IsReady file p) where
  pub advanced-Reads : p.current.kind ≢ TokenKind.end_of_file → Reads file 1 p (advanced p)
  advanced-Reads ne =
      let next = next_token-IsPlaced p.lexer in
      record {
        ready = record {
          own_file = r.own_file;
          lexer_file = omega (arith, next.same_file, r.lexer_file);
          begin_file = omega (arith, next.begin_file, r.lexer_file);
          end_file = omega (arith, next.end_file, r.lexer_file);
          ordered = next.ordered;
          behind = omega (arith, next.reached);
          is_reached = IsReached.next r.is_reached;
          measured = omega (arith, next.measured, r.measured);
        };
        forward = omega (arith, r.ordered, r.behind, next.after);
        fewer = remaining-advanced p ne;
      }

  pub advanced-Covers : Covers file p p.current.span (advanced p)
  advanced-Covers = record {
    begin_file = r.begin_file;
    end_file = r.end_file;
    starts = refl;
    ordered = r.ordered;
    stops = omega (arith, r.behind, (next_token-IsPlaced p.lexer).after);
  }

pub parser-IsReady : (file : ℕ) (buffer : Bytes) → IsReady (opened file buffer) (parser file buffer)
parser-IsReady file buffer =
    let next = next_token-IsPlaced (start file buffer) in
    record {
      own_file = refl;
      lexer_file = next.same_file;
      begin_file = next.begin_file;
      end_file = next.end_file;
      ordered = next.ordered;
      behind = omega (arith, next.reached);
      is_reached = IsReached.begun;
      measured = omega (arith, next.measured);
    }

-- One token a byte, at most.
pub remaining-parser : (file : ℕ) (buffer : Bytes) → remaining (parser file buffer) ≤ length buffer
unfolding remaining
remaining-parser file buffer =
    elim (is_kind-cases (next_token (start file buffer)).0.kind TokenKind.end_of_file) [
      | inl (_, done) ↦ rw done (omega arith)
      | inr (later, going) ↦ rw going (next_token-shorter (start file buffer) later)
    ]
