-- ===== src/Parser/TypePosts.antt =====
-- `parseTypeSyntax` and its parts, in terms of what a rule promises.
use kai_cc.Parser.Input.{OpenFile}
use kai_cc.Ast.TypeSyntax.{TypeSyntax, TypeSyntaxes, ReferenceMutability, type_span}
use kai_cc.Base.{ℕ, zero, suc, ◌<◌, ◌≤◌, ◌≢◌, arith, inl, inr, Bool-cases}
use kai_cc.Parser.Layout.{InOrder, IsExpr}
use kai_cc.Parser.Progress.{IsReady, Reads, Covers, at, remaining, advanced-Reads, advanced-Covers}
use kai_cc.Parser.Rules.{
  Post, returns, ◌⟫◌, not_end, Took, expect-Post, skip_kinds-Post, match_token-Post, newline_stops,
}
use kai_cc.Parser.State.{Parser, M, advance, check, advanced, is_newline}
use kai_cc.Parser.TreeLayout.{IsType, AreTypes, nil, cons, type_spans}
use kai_cc.Parser.Types.{
  reference_mutability, parse_reference_type_syntax, parse_bracket_type_syntax, type_arguments,
  parse_generic_type_syntax, parse_unit_type_syntax, parse_named_type_syntax, parse_type_syntax,
}
use kai_cc.Source.Location.{SourceSpan}
use kai_cc.Token.{TokenKind, Token, ◌is_kind◌, is_kind→eq}

pub record ParsedType (file : OpenFile) (p : Parser) (t : TypeSyntax) (p' : Parser) : Type 0 where
  pub reads : Reads file 1 p p'
  pub covers : Covers file p (type_span t) p'
  pub is_type : IsType file t

abbrev pub ParsesType : OpenFile → ℕ → M TypeSyntax → Type 0
ParsesType file fuel m =
    (p : Parser) → IsReady file p → remaining p < fuel → Post file (ParsedType file p) (m p)

-- The operator of a reference, from the `&` at `p0` on.
record Referred (file : OpenFile) (p0 p : Parser) (o : ReferenceMutability × SourceSpan)
    (p' : Parser) : Type 0 where
  reads : Reads file 0 p p'
  covers : Covers file p0 o.1 p'

module _ (file : OpenFile) (n : ℕ) (type : M TypeSyntax) (parses : ParsesType file n type) where
  mutability-Post :
      (p0 : Parser) (amp : Token) (p : Parser)
      → Took file TokenKind.amp p0 amp p
      → Post file (Referred file p0 p) (reference_mutability amp p)
  unfolding reference_mutability check advance
  mutability-Post p0 amp p took = elim (Bool-cases (p.current.kind is_kind TokenKind.kw_mut)) [
    | inl e ↦
        let ne = not_end (is_kind→eq p.current.kind TokenKind.kw_mut e) (λ x. cc x) in
        let reads = advanced-Reads file p took.reads.ready ne in
        let covers = advanced-Covers file p took.reads.ready in
        rw e (returns (record { reads = ground arith; covers = omega arith }))
    | inr e ↦ rw e (returns (record { reads = ground arith; covers = omega arith }))
  ]

  reference-Post :
      (p : Parser)
      → IsReady file p
      → remaining p ≤ n
      → Post file (ParsedType file p) (parse_reference_type_syntax type p)
  unfolding parse_reference_type_syntax
  reference-Post p r h = expect-Post file TokenKind.amp p r (λ x. cc x) ⟫ λ amp p1 took.
      mutability-Post p amp p1 took ⟫ λ o p2 referred.
      parses p2 referred.reads.ready (omega arith) ⟫ λ t p3 inner. returns (record {
        reads = ground arith;
        covers = omega arith;
        is_type = IsType.reference inner.is_type (omega arith);
      })

  bracket-Post :
      (p : Parser)
      → IsReady file p
      → remaining p ≤ n
      → Post file (ParsedType file p) (parse_bracket_type_syntax type p)
  unfolding parse_bracket_type_syntax
  bracket-Post p r h =
      expect-Post file TokenKind.left_bracket p r (λ x. cc x) ⟫ λ open_bracket p1 took.
      parses p1 took.reads.ready (omega arith) ⟫ λ t p2 inner.
      match_token-Post TokenKind.semicolon _ p2
        (λ is_array.
          let semicolon = advanced-Reads file p2 inner.reads.ready (not_end is_array (λ x. cc x)) in
          expect-Post file TokenKind.integer_literal (advanced p2) semicolon.ready (λ x. cc x)
          ⟫ λ len p3 length.
              expect-Post file TokenKind.right_bracket p3 length.reads.ready (λ x. cc x)
              ⟫ λ close p4 closed. returns (record {
                reads = ground arith;
                covers = omega arith;
                is_type = IsType.array inner.is_type (IsExpr.literal (omega arith)) (omega arith);
              }))
        (expect-Post file TokenKind.right_bracket p2 inner.reads.ready (λ x. cc x)
          ⟫ λ close p3 closed. returns (record {
            reads = ground arith;
            covers = omega arith;
            is_type = IsType.slice inner.is_type (omega arith);
          }))

-- A list of types from the current token of `p` to before that of `p'`.
record ParsedTypes (file : OpenFile) (p : Parser) (ts : TypeSyntaxes) (p' : Parser) : Type 0 where
  reads : Reads file 1 p p'
  are_types : AreTypes file ts
  in_order : (lo hi : ℕ) → lo ≤ at p → at p' ≤ hi → InOrder file lo (type_spans ts) hi

module _ (file : OpenFile) (n : ℕ) (type : M TypeSyntax) (parses : ParsesType file n type) where
  arguments-Post :
      (fuel : ℕ) (p : Parser)
      → IsReady file p
      → remaining p < fuel
      → remaining p < n
      → Post file (ParsedTypes file p) (type_arguments type fuel p)
  unfolding type_arguments
  arguments-Post zero p r h hn = absurd (omega arith)
  arguments-Post (suc fuel) p r h hn = parses p r hn ⟫ λ t p1 inner.
      skip_kinds-Post file is_newline (suc fuel) p1 newline_stops inner.reads.ready (omega arith)
      ⟫ λ _ p2 skipped.
          match_token-Post TokenKind.comma _ p2
            (λ is_comma.
              let comma = advanced-Reads file p2 skipped.ready (not_end is_comma (λ x. cc x)) in
              skip_kinds-Post file is_newline (suc fuel) (advanced p2) newline_stops comma.ready
                (omega arith)
              ⟫ λ _ p3 spaced.
                  arguments-Post fuel p3 spaced.ready (omega arith) (omega arith) ⟫ λ ts p4 later.
                  returns (record {
                    reads = ground arith;
                    are_types = cons inner.is_type later.are_types;
                    in_order = λ lo hi l u. (
                      inner.covers.begin_file,
                      inner.covers.end_file,
                      omega arith,
                      omega arith,
                      later.in_order _ hi (omega arith) u,
                    );
                  }))
            (returns (record {
              reads = ground arith;
              are_types = cons inner.is_type nil;
              in_order = λ lo hi l u. (
                inner.covers.begin_file,
                inner.covers.end_file,
                omega arith,
                omega arith,
                omega arith,
              );
            }))

  named-Post :
      (fuel : ℕ) (p : Parser)
      → IsReady file p
      → remaining p ≤ n
      → remaining p < fuel
      → Post file (ParsedType file p) (parse_named_type_syntax type fuel p)
  unfolding parse_named_type_syntax parse_generic_type_syntax check
  named-Post fuel p r h hf = expect-Post file TokenKind.identifier p r (λ x. cc x) ⟫ λ name p1 took.
      elim (Bool-cases (p1.current.kind is_kind TokenKind.less)) [
        | inl e ↦ rw e (
            expect-Post file TokenKind.less p1 took.reads.ready (λ x. cc x) ⟫ λ less p2 opened.
            skip_kinds-Post file is_newline fuel p2 newline_stops opened.reads.ready (omega arith)
            ⟫ λ _ p3 spaced.
                arguments-Post fuel p3 spaced.ready (omega arith) (omega arith) ⟫ λ ts p4 list.
                expect-Post file TokenKind.greater p4 list.reads.ready (λ x. cc x)
                ⟫ λ greater p5 closed. returns (record {
                  reads = ground arith;
                  covers = omega arith;
                  is_type = IsType.generic list.are_types (
                    omega arith,
                    omega arith,
                    (
                      omega arith,
                      omega arith,
                      omega arith,
                      omega arith,
                      list.in_order _ _ (omega arith) (omega arith),
                    ),
                  );
                }))
        | inr e ↦ rw e (
            returns (record {
              reads = took.reads;
              covers = took.covers;
              is_type = IsType.named (omega arith);
            }))
      ]

  unit-Post :
      (p : Parser)
      → IsReady file p
      → p.current.kind ≢ TokenKind.end_of_file
      → Post file (ParsedType file p) (parse_unit_type_syntax type p)
  unfolding parse_unit_type_syntax advance
  unit-Post p r ne =
      let reads = advanced-Reads file p r ne in
      let covers = advanced-Covers file p r in
      expect-Post file TokenKind.right_paren (advanced p) reads.ready (λ x. cc x)
      ⟫ λ close p2 closed. returns (record {
        reads = ground arith;
        covers = omega arith;
        is_type = IsType.unit (omega arith);
      })

pub parse_type_syntax-Post :
    (file : OpenFile) (fuel : ℕ) → ParsesType file fuel (parse_type_syntax fuel)
unfolding parse_type_syntax check
parse_type_syntax-Post file zero p r h = absurd (omega arith)
parse_type_syntax-Post file (suc fuel) p r h =
    let inner = parse_type_syntax-Post file fuel in
    let type = parse_type_syntax fuel in
    elim (Bool-cases (p.current.kind is_kind TokenKind.amp)) [
      | inl e ↦ rw e (reference-Post file fuel type inner p r (omega arith))
      | inr not_reference ↦
          rw not_reference (elim (Bool-cases (p.current.kind is_kind TokenKind.left_bracket)) [
            | inl e ↦ rw e (bracket-Post file fuel type inner p r (omega arith))
            | inr not_bracket ↦
                rw not_bracket (elim (Bool-cases (p.current.kind is_kind TokenKind.left_paren)) [
                  | inl e ↦ rw e (
                      unit-Post file fuel type inner p r
                        (not_end (is_kind→eq p.current.kind TokenKind.left_paren e) (λ x. cc x)))
                  | inr e ↦ rw e (named-Post file fuel type inner (suc fuel) p r (omega arith) h)
                ])
          ])
    ]
