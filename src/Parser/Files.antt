-- ===== src/Parser/Files.antt =====
-- What `parseSourceFile` promises for a whole file.
use kai_cc.Parser.Input.{OpenFile, opened}
use kai_cc.Ast.Decl.{FunctionDecl, SourceFile}
use kai_cc.Base.{
  ℕ, zero, suc, ◌+◌, ◌<◌, ◌≤◌, ◌≡◌, ◌≢◌, refl, ap, ◌∙◌, arith, inl, inr, Bool-cases, Bytes, [], ◌∷◌,
  List, length,
}
use kai_cc.Parser.DeclPosts.{IsFunction, declaration-Post}
use kai_cc.Parser.Declarations.{
  declarations_loop, last_or, file_span, parse_source_file, parse_file,
}
use kai_cc.Parser.Layout.{InOrder, Laid}
use kai_cc.Parser.Progress.{IsReady, Reads, at, remaining, parser-IsReady, remaining-parser}
use kai_cc.Parser.Rules.{Post, returns, fails, IsReported, ◌⟫◌, skip_kinds-Post, separator_stops}
use kai_cc.Parser.State.{
  Parser, parser, ParseError, Result, ok, err, out_of_fuel, check, is_separator,
}
use kai_cc.Source.Location.{SourceSpan, SourceLocation, point}
use kai_cc.Token.{TokenKind, ◌is_kind◌, is_kind→eq}

abbrev pub AreFunctions : OpenFile → List FunctionDecl → Type 0
AreFunctions file [] = Unit
AreFunctions file (f ∷ fs) = IsFunction file f × AreFunctions file fs

abbrev pub function_spans : List FunctionDecl → List SourceSpan
function_spans [] = []
function_spans (f ∷ fs) = f.span ∷ function_spans fs

-- The tree of a file: its functions in order inside its span.
pub record IsSourceFile (file : OpenFile) (s : SourceFile) : Type 0 where
  pub same_file : s.file ≡ file.id
  pub are_functions : AreFunctions file s.declarations
  pub laid : Laid file s.span (function_spans s.declarations)

-- Declarations from the current token of `p` to the end of the file.
record ParsedFunctions (file : OpenFile) (p : Parser) (fs : List FunctionDecl) (p' : Parser)
    : Type 0 where
  reads : Reads file 0 p p'
  are_functions : AreFunctions file fs
  at_end : p'.current.kind ≡ TokenKind.end_of_file
  in_order :
      (d : FunctionDecl) (lo : ℕ)
      → d.span.end.file ≡ file.id
      → lo ≡ d.span.end.offset
      → lo ≤ at p
      → InOrder file lo (function_spans fs) (last_or d fs).span.end.offset
        × ((last_or d fs).span.end.file ≡ file.id)

declarations_loop-Post :
    (file : OpenFile) (fuel rounds : ℕ) (p : Parser)
    → IsReady file p
    → remaining p < fuel
    → remaining p < rounds
    → Post file (ParsedFunctions file p) (declarations_loop fuel rounds p)
unfolding declarations_loop check
declarations_loop-Post file fuel zero p r h hr = absurd (omega arith)
declarations_loop-Post file fuel (suc rounds) p r h hr =
    elim (Bool-cases (p.current.kind is_kind TokenKind.end_of_file)) [
      | inl ended ↦ rw ended (
          returns (record {
            reads = record { ready = r; forward = omega arith; fewer = omega arith };
            are_functions = tt;
            at_end = is_kind→eq p.current.kind TokenKind.end_of_file ended;
            in_order = λ d lo f e l. (omega arith, f);
          }))
      | inr more ↦ rw more (
          declaration-Post file fuel p r h ⟫ λ f p1 first.
          skip_kinds-Post file is_separator fuel p1 separator_stops first.reads.ready (omega arith)
          ⟫ λ _ p2 skipped.
              declarations_loop-Post file fuel rounds p2 skipped.ready (omega arith) (omega arith)
              ⟫ λ fs p3 later.
                  let begins = ap (λ b. b.offset) first.begin in
                  let begin_file = ap (λ b. b.file) first.begin ∙ r.begin_file in
                  let rest =
                    later.in_order f f.span.end.offset first.end_file refl
                      (omega (arith, first.stops)) in
                  returns (record {
                    reads = ground arith;
                    are_functions = (first.is_function, later.are_functions);
                    at_end = later.at_end;
                    in_order = λ d lo df e l. (
                      (
                        begin_file,
                        first.end_file,
                        omega arith,
                        omega (arith, begins, first.ordered),
                        rest.0,
                      ),
                      rest.1,
                    );
                  }))
    ]

-- The span of the whole file, from its first function to its last.
file_span-Laid :
    (file : OpenFile) (p : Parser) (fs : List FunctionDecl) (p' : Parser) (q : SourceLocation)
    → ParsedFunctions file p fs p'
    → q.file ≡ file.id
    → IsReady file p
    → Laid file (file_span q fs) (function_spans fs)
file_span-Laid file p [] p' q parsed h r = omega arith
file_span-Laid file p (f ∷ fs) p' q parsed h r =
    let before = record f { span = point p.current.span.begin } in
    let (order, last_file) = parsed.in_order before (at p) r.begin_file refl (omega arith) in
    (order.0, last_file, (order.0, order.1, omega arith, order.3, order.4))

pub parse_source_file-Post :
    (file : OpenFile) (fuel : ℕ) (p : Parser)
    → IsReady file p
    → remaining p < fuel
    → Post file
        (λ s p'. IsSourceFile file s × (p'.current.kind ≡ TokenKind.end_of_file))
        (parse_source_file fuel p)
unfolding parse_source_file
parse_source_file-Post file fuel p r h =
    skip_kinds-Post file is_separator fuel p separator_stops r h ⟫ λ _ p1 skipped.
    declarations_loop-Post file fuel fuel p1 skipped.ready (omega arith) (omega arith)
    ⟫ λ fs p2 parsed. returns (
      record {
        same_file = parsed.reads.ready.own_file;
        are_functions = parsed.are_functions;
        laid =
            file_span-Laid file p1 fs p2 p2.current.span.begin parsed parsed.reads.ready.begin_file
              skipped.ready;
      },
      parsed.at_end,
    )

parse_file-Post :
    (file : ℕ) (buffer : Bytes)
    → Post
        (opened file buffer)
        (λ s p'. IsSourceFile (opened file buffer) s × (p'.current.kind ≡ TokenKind.end_of_file))
        (parse_file file buffer)
unfolding parse_file
parse_file-Post file buffer =
    parse_source_file-Post (opened file buffer) (length buffer + 2) (parser file buffer)
      (parser-IsReady file buffer) (omega (arith, remaining-parser file buffer))

of_ok :
    {file : OpenFile} {A : Type 0} {P : A → Parser → Type 0} {r : Result A} {a : A} {p : Parser}
    → r ≡ ok a p
    → Post file P r
    → P a p
of_ok e (returns h) = ground arith
of_ok e (fails h) = cc e

of_err :
    {file : OpenFile} {A : Type 0} {P : A → Parser → Type 0} {r : Result A} {x : ParseError}
    → r ≡ err x
    → Post file P r
    → IsReported file x
of_err e (returns h) = cc e
of_err e (fails h) = ground arith

of_exhausted :
    {file : OpenFile} {A : Type 0} {P : A → Parser → Type 0} {r : Result A}
    → r ≡ out_of_fuel
    → Post file P r
    → ⊥
of_exhausted e (returns h) = cc e
of_exhausted e (fails h) = cc e

-- Parsing ends on every file and every buffer: fuel of the buffer's length and two is never
-- used up.
pub parse_file-ne-out_of_fuel : (file : ℕ) (buffer : Bytes) → parse_file file buffer ≢ out_of_fuel
parse_file-ne-out_of_fuel file buffer e = of_exhausted e (parse_file-Post file buffer)

-- If parsing a file yields a tree, the parser stands at EndOfFile, the tree names the file,
-- and the tree is laid out well: the spans of each node's parts stand in order inside the
-- node's own span, and the operands of each operator bind as tightly as its precedence
-- demands.
pub parse_file-IsSourceFile :
    (file : ℕ) (buffer : Bytes) {s : SourceFile} {p : Parser}
    → parse_file file buffer ≡ ok s p
    → IsSourceFile (opened file buffer) s × (p.current.kind ≡ TokenKind.end_of_file)
parse_file-IsSourceFile file buffer e = of_ok e (parse_file-Post file buffer)

-- If parsing a file yields an error, it tells of one of the tokens that come up by reading the
-- buffer token after token: it has that token's kind and span, the span is in the file with
-- its begin not behind its end, and it ends inside the buffer. The error's kind is
-- InvalidToken exactly if that token is Invalid, and where a kind was expected, the token is
-- of another.
pub parse_file-IsReported :
    (file : ℕ) (buffer : Bytes) {x : ParseError}
    → parse_file file buffer ≡ err x
    → IsReported (opened file buffer) x
parse_file-IsReported file buffer e = of_err e (parse_file-Post file buffer)
