-- ===== src/Parser/Tiers.antt =====
-- `parseUnary` up to `parseExpression`, tier by tier.
use kai_cc.Parser.Input.{OpenFile}
use kai_cc.Ast.Expr.{Expr, UnaryOperator, BinaryOperator}
use kai_cc.Base.{ℕ, zero, suc, ◌≤◌, ◌≡◌, ◌≢◌, arith, true, inl, inr, Bool-cases, if◌then◌else◌, ap}
use kai_cc.Parser.Expressions.{prefix_of, is_prefix}
use kai_cc.Parser.Layout.{IsExpr}
use kai_cc.Parser.Nodes.{Parsed, Parses}
use kai_cc.Parser.Operators.{
  binary, multiplicative_operator, additive_operator, comparison_operator, equality_operator,
  and_operator, or_operator, parse_unary, parse_multiplicative, parse_additive, parse_range,
  parse_comparison, parse_equality, parse_logical_and, parse_logical_or, parse_assignment,
  parse_expression,
}
use kai_cc.Parser.Precedence.{binary-Post, IsTier, left_associative-Post}
use kai_cc.Parser.Primary.{parse_postfix-Post}
use kai_cc.Parser.Progress.{IsReady, Reads, Covers, advanced-Reads, advanced-Covers}
use kai_cc.Parser.Rules.{Post, returns, ◌⟫◌, weaken, branch-Post, not_end}
use kai_cc.Parser.State.{Parser, M, advance, check, advanced, pure}
use kai_cc.Source.Location.{SourceSpan}
use kai_cc.Token.{TokenKind, ◌is_kind◌, is_kind→eq}

-- An operator's span, read from the token at `p0` on and, for `&mut`, the one behind it.
record Prefixed (file : OpenFile) (p0 : Parser) (o : UnaryOperator × SourceSpan) (p : Parser)
    : Type 0 where
  reads : Reads file 1 p0 p
  covers : Covers file p0 o.1 p

module _ (file : OpenFile) (p0 : Parser) (r : IsReady file p0)
    (ne : p0.current.kind ≢ TokenKind.end_of_file) where
  mut-Post : Post file (Prefixed file p0) (
      (if (advanced p0).current.kind is_kind TokenKind.kw_mut
          then (λ p.
              pure
                (
                  UnaryOperator.ref_mut,
                  record { begin = p0.current.span.begin; end = p.current.span.end },
                )
                (advanced p))
          else pure (UnaryOperator.ref, p0.current.span))
        (advanced p0))
  mut-Post =
      let reads = advanced-Reads file p0 r ne in
      let covers = advanced-Covers file p0 r in
      elim (Bool-cases ((advanced p0).current.kind is_kind TokenKind.kw_mut)) [
        | inl e ↦
            let mutable =
              not_end (is_kind→eq (advanced p0).current.kind TokenKind.kw_mut e) (λ x. cc x) in
            let reads' = advanced-Reads file (advanced p0) reads.ready mutable in
            let covers' = advanced-Covers file (advanced p0) reads.ready in
            rw e (returns (record { reads = ground arith; covers = omega arith }))
        | inr e ↦ rw e (returns (record { reads = reads; covers = covers }))
      ]

  prefix_of-Post :
      (k : TokenKind) → Post file (Prefixed file p0) (prefix_of p0.current k (advanced p0))
  unfolding prefix_of check advance
  prefix_of-Post TokenKind.bang =
      returns (record { reads = advanced-Reads file p0 r ne; covers = advanced-Covers file p0 r })
  prefix_of-Post TokenKind.minus =
      returns (record { reads = advanced-Reads file p0 r ne; covers = advanced-Covers file p0 r })
  prefix_of-Post _ = mut-Post

prefix_ne_end : (k : TokenKind) → is_prefix k ≡ true → k ≢ TokenKind.end_of_file
prefix_ne_end k h e = cc (ap is_prefix e)

module _ (file : OpenFile) (n : ℕ) (expr : M Expr) (parses : Parses file 0 n expr) where
  parse_unary-Post : (fuel : ℕ) → fuel ≤ suc n → Parses file 8 fuel (parse_unary expr fuel)
  unfolding parse_unary advance
  parse_unary-Post zero hf p r h = absurd (omega arith)
  parse_unary-Post (suc fuel) hf p r h = elim (Bool-cases (is_prefix p.current.kind)) [
    | inl prefixed ↦
        let ne = prefix_ne_end p.current.kind prefixed in
        rw (prefixed, parse_unary)
          (prefix_of-Post file p r ne p.current.kind ⟫ λ o p1 before.
            parse_unary-Post fuel (omega arith) p1 before.reads.ready
              (omega (arith, before.reads.fewer))
            ⟫ λ e p2 node. returns (record {
              reads = ground arith;
              covers = omega arith;
              is_expr = IsExpr.unary node.is_expr node.tight (omega arith);
              tight = omega arith;
            }))
    | inr plain ↦
        rw (plain, parse_unary)
          (weaken
            (λ e p' node. record {
              reads = node.reads;
              covers = node.covers;
              is_expr = node.is_expr;
              tight = omega (arith, node.tight);
            })
            (parse_postfix-Post file n expr parses (suc fuel) p r (omega arith) h))
  ]

multiplicative-IsTier : IsTier 7 multiplicative_operator
multiplicative-IsTier TokenKind.star op h = ground arith
multiplicative-IsTier TokenKind.slash op h = ground arith
multiplicative-IsTier TokenKind.percent op h = ground arith
multiplicative-IsTier _ op h = cc h

additive-IsTier : IsTier 6 additive_operator
additive-IsTier TokenKind.plus op h = ground arith
additive-IsTier TokenKind.minus op h = ground arith
additive-IsTier _ op h = cc h

comparison-IsTier : IsTier 4 comparison_operator
comparison-IsTier TokenKind.less op h = ground arith
comparison-IsTier TokenKind.less_equal op h = ground arith
comparison-IsTier TokenKind.greater op h = ground arith
comparison-IsTier TokenKind.greater_equal op h = ground arith
comparison-IsTier _ op h = cc h

equality-IsTier : IsTier 3 equality_operator
equality-IsTier TokenKind.equal_equal op h = ground arith
equality-IsTier TokenKind.bang_equal op h = ground arith
equality-IsTier _ op h = cc h

and-IsTier : IsTier 2 and_operator
and-IsTier TokenKind.amp_amp op h = ground arith
and-IsTier _ op h = cc h

or-IsTier : IsTier 1 or_operator
or-IsTier TokenKind.pipe_pipe op h = ground arith
or-IsTier _ op h = cc h

-- A tier takes what the next one takes.
loosen :
    (file : OpenFile) (j k : ℕ) {p : Parser} (e : Expr) (p' : Parser)
    → j ≤ k
    → Parsed file k p e p'
    → Parsed file j p e p'
loosen file j k e p' h node = record {
  reads = node.reads;
  covers = node.covers;
  is_expr = node.is_expr;
  tight = omega (arith, node.tight);
}

module _ (file : OpenFile) (n : ℕ) (expr : M Expr) (parses : Parses file 0 n expr) (fuel : ℕ)
    (enough : fuel ≤ suc n) where
  multiplicative-Post : Parses file 7 fuel (parse_multiplicative expr fuel)
  unfolding parse_multiplicative
  multiplicative-Post =
      left_associative-Post file 7 fuel multiplicative_operator (parse_unary expr fuel)
        multiplicative-IsTier (parse_unary-Post file n expr parses fuel enough) fuel (omega arith)

  additive-Post : Parses file 6 fuel (parse_additive expr fuel)
  unfolding parse_additive
  additive-Post =
      left_associative-Post file 6 fuel additive_operator (parse_multiplicative expr fuel)
        additive-IsTier multiplicative-Post fuel (omega arith)

  range-Post : Parses file 5 fuel (parse_range expr fuel)
  unfolding parse_range check
  range-Post p r h = additive-Post p r h ⟫ λ left p1 node.
      branch-Post (p1.current.kind is_kind TokenKind.dot_dot)
        (binary BinaryOperator.range left (parse_additive expr fuel)) (pure left) p1
        (λ is_range.
          weaken (λ e p' t. t.0)
            (binary-Post file 6 fuel BinaryOperator.range (parse_additive expr fuel) p left p1
              additive-Post node (omega arith)
              (not_end (is_kind→eq p1.current.kind TokenKind.dot_dot is_range) (λ x. cc x))
              (omega arith)))
        (λ _. returns (loosen file 5 6 left p1 (omega arith) node))

  comparison-Post : Parses file 4 fuel (parse_comparison expr fuel)
  unfolding parse_comparison
  comparison-Post =
      left_associative-Post file 4 fuel comparison_operator (parse_range expr fuel)
        comparison-IsTier range-Post fuel (omega arith)

  equality-Post : Parses file 3 fuel (parse_equality expr fuel)
  unfolding parse_equality
  equality-Post =
      left_associative-Post file 3 fuel equality_operator (parse_comparison expr fuel)
        equality-IsTier comparison-Post fuel (omega arith)

  logical_and-Post : Parses file 2 fuel (parse_logical_and expr fuel)
  unfolding parse_logical_and
  logical_and-Post =
      left_associative-Post file 2 fuel and_operator (parse_equality expr fuel) and-IsTier
        equality-Post fuel (omega arith)

  logical_or-Post : Parses file 1 fuel (parse_logical_or expr fuel)
  unfolding parse_logical_or
  logical_or-Post =
      left_associative-Post file 1 fuel or_operator (parse_logical_and expr fuel) or-IsTier
        logical_and-Post fuel (omega arith)

  assignment-Post : Parses file 0 fuel (parse_assignment expr fuel)
  unfolding parse_assignment check advance
  assignment-Post p r h = logical_or-Post p r h ⟫ λ left p1 node.
      elim (Bool-cases (p1.current.kind is_kind TokenKind.equal)) [
        | inl is_assignment ↦
            let ne =
              not_end (is_kind→eq p1.current.kind TokenKind.equal is_assignment) (λ x. cc x) in
            let reads = advanced-Reads file p1 node.reads.ready ne in
            let covers = advanced-Covers file p1 node.reads.ready in
            rw is_assignment (
              parses (advanced p1) reads.ready (omega arith) ⟫ λ value p2 assigned.
              returns (record {
                reads = ground arith;
                covers = omega arith;
                is_expr = IsExpr.assignment node.is_expr node.tight assigned.is_expr (omega arith);
                tight = omega arith;
              }))
        | inr plain ↦ rw plain (returns (loosen file 0 1 left p1 (omega arith) node))
      ]

-- At a ready parser with fewer tokens left than fuel, parseExpression yields a well laid out
-- expression that begins at the current token, having taken at least one token, or it reports
-- an error; it never runs out of fuel.
pub parse_expression-Post :
    (file : OpenFile) (fuel : ℕ) → Parses file 0 fuel (parse_expression fuel)
unfolding parse_expression
parse_expression-Post file zero p r h = absurd (omega arith)
parse_expression-Post file (suc fuel) p r h =
    assignment-Post file fuel (parse_expression fuel) (parse_expression-Post file fuel) (suc fuel)
      (omega arith) p r h
