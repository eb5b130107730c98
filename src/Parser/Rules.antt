-- ===== src/Parser/Rules.antt =====
-- Postconditions of a parse: the value and the next state, if there are some; an error that was
-- reported as it should be; and never too little fuel.
use kai_cc.Parser.Input.{OpenFile, IsReached}
use kai_cc.Base.{
  ℕ, Bool, true, false, ◌≡◌, ◌≢◌, ◌<◌, ◌≤◌, some-injective, suc, zero, refl, inl, inr, arith,
  Option, some, ap, sym, ◌∙◌, if◌then◌else◌, Bool-cases, [],
}
use kai_cc.Parser.Layout.{Laid}
use kai_cc.Parser.Progress.{IsReady, Reads, Covers, advanced-Reads, advanced-Covers, remaining}
use kai_cc.Parser.State.{
  Parser, ParseError, ParseErrorKind, Result, ok, err, and_then, M, advanced, advance, match_token,
  fail, expect, skip_kinds, is_newline, is_separator,
}
use kai_cc.Token.{TokenKind, Token, ◌is_kind◌, is_kind-cases, is_kind→eq, value}

-- The error tells of one token of the file: it has that token's kind and span, and the span is in
-- the buffer. An Invalid token is reported as such, and no other token is; and where a kind was
-- expected, the token is of another.
pub record IsReported (file : OpenFile) (e : ParseError) : Type 0 where
  pub at : Parser
  pub is_reached : IsReached file at
  pub actual_kind : e.actual ≡ at.current.kind
  pub actual_span : e.span ≡ at.current.span
  pub located : Laid file e.span []
  pub inside : e.span.end.offset ≤ file.size
  pub says_invalid : e.actual ≡ TokenKind.invalid → e.kind ≡ ParseErrorKind.invalid_token
  pub is_invalid : e.kind ≡ ParseErrorKind.invalid_token → e.actual ≡ TokenKind.invalid
  pub unexpected : (k : TokenKind) → e.expected ≡ some k → e.actual ≢ k

pub data Post (file : OpenFile) {A : Type 0} (P : A → Parser → Type 0) : Result A → Type 0 where
  returns : {a : A} {p : Parser} → P a p → Post file P (ok a p)
  fails : {e : ParseError} → IsReported file e → Post file P (err e)

module _ {file : OpenFile} {A B : Type 0} {P : A → Parser → Type 0} {Q : B → Parser → Type 0} where
  infixl 4 ◌⟫◌
  pub ◌⟫◌ :
      {r : Result A} {f : A → M B}
      → Post file P r
      → ((a : A) (p : Parser) → P a p → Post file Q (f a p))
      → Post file Q (and_then r f)
  returns h ⟫ k = k _ _ h
  fails e ⟫ k = fails e

pub weaken :
    {file : OpenFile} {A : Type 0} {P Q : A → Parser → Type 0} {r : Result A}
    → ((a : A) (p : Parser) → P a p → Q a p)
    → Post file P r
    → Post file Q r
weaken k (returns h) = returns (k _ _ h)
weaken k (fails e) = fails e

-- A test of the current token, and what follows in either case.
pub branch-Post :
    {file : OpenFile} {A : Type 0} {Q : A → Parser → Type 0} (b : Bool) (m n : M A) (p : Parser)
    → (b ≡ true → Post file Q (m p))
    → (b ≡ false → Post file Q (n p))
    → Post file Q ((if b then m else n) p)
branch-Post true m n p then_part else_part = then_part refl
branch-Post false m n p then_part else_part = else_part refl

pub match_token-Post :
    {file : OpenFile} {A : Type 0} {Q : A → Parser → Type 0} (k : TokenKind) (f : Bool → M A)
    (p : Parser)
    → (p.current.kind ≡ k → Post file Q (f true (advanced p)))
    → Post file Q (f false p)
    → Post file Q (and_then (match_token k p) f)
unfolding match_token
match_token-Post k f p found missing = elim (Bool-cases (p.current.kind is_kind k)) [
  | inl e ↦ rw e (found (is_kind→eq _ _ e))
  | inr e ↦ rw e missing
]

fail-IsReported :
    (file : OpenFile) (kind : ParseErrorKind) (expected : Option TokenKind) (p : Parser)
    → IsReady file p
    → kind ≢ ParseErrorKind.invalid_token
    → ((k : TokenKind) → expected ≡ some k → p.current.kind ≢ k)
    → IsReported file (record {
      kind =
          if p.current.kind is_kind TokenKind.invalid then ParseErrorKind.invalid_token else kind;
      span = p.current.span;
      actual = p.current.kind;
      expected = expected;
    })
unfolding value
fail-IsReported file kind expected p r ne others = record {
  at = p;
  is_reached = r.is_reached;
  actual_kind = refl;
  actual_span = refl;
  located = (r.begin_file, r.end_file, r.ordered);
  inside = omega (arith, r.behind, r.measured);
  says_invalid = λ e. rw e refl;
  is_invalid = λ e. elim (is_kind-cases p.current.kind TokenKind.invalid) [
    | inl (same, _) ↦ same
    | inr (_, not_invalid) ↦ absurd (ne (rw not_invalid at e))
  ];
  unexpected = others;
}

pub fail-Post :
    {file : OpenFile} {A : Type 0} {Q : A → Parser → Type 0} (kind : ParseErrorKind)
    (expected : Option TokenKind) (p : Parser)
    → IsReady file p
    → kind ≢ ParseErrorKind.invalid_token
    → ((k : TokenKind) → expected ≡ some k → p.current.kind ≢ k)
    → Post file Q (fail kind expected p)
unfolding fail
fail-Post {file} kind expected p r ne others =
    fails (fail-IsReported file kind expected p r ne others)

-- Where a kind is expected and its test fails.
pub unexpected_kind :
    (p : Parser) (k : TokenKind)
    → (p.current.kind is_kind k) ≡ false
    → (other : TokenKind) → some k ≡ some other
    → p.current.kind ≢ other
unexpected_kind p k missing other e same = elim (is_kind-cases p.current.kind k) [
  | inl (_, found) ↦ cc (found, missing)
  | inr (differs, _) ↦ differs (same ∙ sym (some-injective k other e))
]

pub not_end : {a k : TokenKind} → a ≡ k → k ≢ TokenKind.end_of_file → a ≢ TokenKind.end_of_file
not_end e ne end = ne (sym e ∙ end)

-- A token taken: it is of the kind, and it is read.
pub record Took (file : OpenFile) (k : TokenKind) (p : Parser) (t : Token) (p' : Parser)
    : Type 0 where
  pub kind_is : t.kind ≡ k
  pub reads : Reads file 1 p p'
  pub covers : Covers file p t.span p'

pub expect-Post :
    (file : OpenFile) (k : TokenKind) (p : Parser)
    → IsReady file p
    → k ≢ TokenKind.end_of_file
    → Post file (Took file k p) (expect k p)
unfolding expect advance
expect-Post file k p r ne = elim (Bool-cases (p.current.kind is_kind k)) [
  | inl e ↦
      let same = is_kind→eq p.current.kind k e in
      rw e (
        returns (record {
          kind_is = same;
          reads = advanced-Reads file p r (λ end. ne (cc (same, end)));
          covers = advanced-Covers file p r;
        }))
  | inr e ↦
      rw e (
        fail-Post ParseErrorKind.unexpected_token (some k) p r (λ eq. cc eq)
          (unexpected_kind p k e))
]

pub skip_kinds-Post :
    (file : OpenFile) (test : TokenKind → Bool) (fuel : ℕ) (p : Parser)
    → test TokenKind.end_of_file ≡ false
    → IsReady file p
    → remaining p < fuel
    → Post file (λ _ p'. Reads file 0 p p') (skip_kinds test fuel p)
unfolding skip_kinds
skip_kinds-Post file test zero p stops r h = absurd (omega arith)
skip_kinds-Post file test (suc fuel) p stops r h = elim (Bool-cases (test p.current.kind)) [
  | inl more ↦
      let one = advanced-Reads file p r (λ e. cc (ap test e, more, stops)) in
      rw (more, skip_kinds)
        (weaken
          (λ _ p' rest. record { ready = rest.ready; forward = omega arith; fewer = omega arith })
          (skip_kinds-Post file test fuel (advanced p) stops one.ready (omega (arith, one.fewer))))
  | inr done ↦
      rw (done, skip_kinds)
        (returns (record { ready = r; forward = omega arith; fewer = omega arith }))
]

-- The skipped kinds do not end a file.
pub newline_stops : is_newline TokenKind.end_of_file ≡ false
unfolding value
newline_stops = refl

pub separator_stops : is_separator TokenKind.end_of_file ≡ false
unfolding value
separator_stops = refl
