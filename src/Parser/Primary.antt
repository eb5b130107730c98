-- ===== src/Parser/Primary.antt =====
-- `parsePrimary` and the suffixes of `parsePostfixExpression`, in terms of their tier.
use kai_cc.Parser.Input.{OpenFile}
use kai_cc.Ast.Expr.{Expr, Exprs}
use kai_cc.Base.{
  if◌then◌else◌, ℕ, zero, suc, ◌+◌, ◌<◌, ◌≤◌, ◌≡◌, ◌≢◌, refl, arith, some, none, Option-cases, inl,
  inr, some-injective, subst,
}
use kai_cc.Parser.Expressions.{
  expression_list, parse_paren_expression, parse_array_literal, primary_of, parse_primary,
  parse_argument_list, parse_call_suffix, parse_index_suffix, parse_member_suffix,
  error_propagation_suffix, suffix_of, postfix_loop, parse_postfix_expression,
}
use kai_cc.Parser.Layout.{IsExpr, nil}
use kai_cc.Parser.Nodes.{
  Parsed, Parses, ParsedList, literal-Post, identifier-Post, expression_list-Post,
}
use kai_cc.Parser.Progress.{IsReady, remaining, advanced-Reads, advanced-Covers}
use kai_cc.Parser.Rules.{Post, returns, ◌⟫◌, branch-Post, fail-Post, expect-Post, not_end}
use kai_cc.Parser.State.{Parser, ParseErrorKind, M, pure, advance, check}
use kai_cc.Token.{TokenKind, ◌is_kind◌, is_kind→eq}

ParsedList-nil : {file : OpenFile} (p : Parser) → IsReady file p → ParsedList file p Exprs.nil p
ParsedList-nil p r = record {
  reads = ground arith;
  are_exprs = nil;
  in_order = λ lo hi l u. omega arith;
}

module _ (file : OpenFile) (n : ℕ) (expr : M Expr) (parses : Parses file 0 n expr) where
  -- The list between two brackets, which may be empty.
  optional_list-Post :
      (closed : TokenKind) (fuel : ℕ) (p : Parser)
      → IsReady file p
      → remaining p < fuel
      → remaining p < n
      → Post file
          (ParsedList file p)
          ((if p.current.kind is_kind closed then pure Exprs.nil else expression_list expr fuel) p)
  optional_list-Post closed fuel p r h hn =
      branch-Post (p.current.kind is_kind closed) (pure Exprs.nil) (expression_list expr fuel) p
        (λ _. returns (ParsedList-nil p r))
        (λ _. expression_list-Post file n expr parses fuel p r h hn)

  paren-Post :
      (p : Parser)
      → IsReady file p
      → remaining p ≤ n
      → Post file (Parsed file 10 p) (parse_paren_expression expr p)
  unfolding parse_paren_expression check advance
  paren-Post p r h = expect-Post file TokenKind.left_paren p r (λ e. cc e) ⟫ λ open_paren p1 took.
      branch-Post _ _ _ p1
        (λ is_close.
          let ne =
            not_end (is_kind→eq p1.current.kind TokenKind.right_paren is_close) (λ e. cc e) in
          let reads = advanced-Reads file p1 took.reads.ready ne in
          let covers = advanced-Covers file p1 took.reads.ready in
          returns (record {
            reads = ground arith;
            covers = omega arith;
            is_expr = IsExpr.unit (omega arith);
            tight = omega arith;
          }))
        (λ _. parses p1 took.reads.ready (omega arith) ⟫ λ inner p2 node.
          expect-Post file TokenKind.right_paren p2 node.reads.ready (λ e. cc e)
          ⟫ λ close p3 closed. returns (record {
            reads = ground arith;
            covers = omega arith;
            is_expr = IsExpr.paren node.is_expr (omega arith);
            tight = omega arith;
          }))

  array-Post :
      (fuel : ℕ) (p : Parser)
      → IsReady file p
      → remaining p ≤ n
      → remaining p < fuel
      → Post file (Parsed file 10 p) (parse_array_literal expr fuel p)
  unfolding parse_array_literal check
  array-Post fuel p r h hf =
      expect-Post file TokenKind.left_bracket p r (λ e. cc e) ⟫ λ open_bracket p1 took.
      optional_list-Post TokenKind.right_bracket fuel p1 took.reads.ready (omega arith)
        (omega arith)
      ⟫ λ es p2 list.
          expect-Post file TokenKind.right_bracket p2 list.reads.ready (λ e. cc e)
          ⟫ λ close p3 closed. returns (record {
            reads = ground arith;
            covers = omega arith;
            is_expr =
                IsExpr.array_literal list.are_exprs
                  (omega arith, omega arith, list.in_order _ _ (omega arith) (omega arith));
            tight = omega arith;
          })

  primary_of-Post :
      (fuel : ℕ) (k : TokenKind) (p : Parser)
      → p.current.kind ≡ k
      → IsReady file p
      → remaining p ≤ n
      → remaining p < fuel
      → Post file (Parsed file 10 p) (primary_of expr fuel k p)
  unfolding primary_of
  primary_of-Post fuel TokenKind.identifier p e r h hf =
      identifier-Post file p r (λ end. cc (e, end))
  primary_of-Post fuel TokenKind.integer_literal p e r h hf =
      literal-Post file _ p r (λ end. cc (e, end))
  primary_of-Post fuel TokenKind.float_literal p e r h hf =
      literal-Post file _ p r (λ end. cc (e, end))
  primary_of-Post fuel TokenKind.string_literal p e r h hf =
      literal-Post file _ p r (λ end. cc (e, end))
  primary_of-Post fuel TokenKind.char_literal p e r h hf =
      literal-Post file _ p r (λ end. cc (e, end))
  primary_of-Post fuel TokenKind.kw_true p e r h hf = literal-Post file _ p r (λ end. cc (e, end))
  primary_of-Post fuel TokenKind.kw_false p e r h hf = literal-Post file _ p r (λ end. cc (e, end))
  primary_of-Post fuel TokenKind.left_paren p e r h hf = paren-Post p r h
  primary_of-Post fuel TokenKind.left_bracket p e r h hf = array-Post fuel p r h hf
  primary_of-Post fuel _ p e r h hf =
      fail-Post ParseErrorKind.unexpected_token none p r (λ eq. cc eq)
        (λ k none_given. cc none_given)

-- A suffix, read at `p` behind an expression that was read from `p0` on.
abbrev Extends : OpenFile → Parser → Parser → M Expr → Type 0
Extends file p0 p m =
    Post file (λ e' p'. Parsed file 9 p0 e' p' × (remaining p' + 1 ≤ remaining p)) (m p)

module _ (file : OpenFile) (n : ℕ) (expr : M Expr) (parses : Parses file 0 n expr) where
  module _ (fuel : ℕ) (p0 : Parser) (e : Expr) (p : Parser) (node : Parsed file 9 p0 e p)
      (h : remaining p < n) (hf : remaining p < fuel) where
    call-Post : Extends file p0 p (parse_call_suffix expr fuel e)
    unfolding parse_call_suffix parse_argument_list check
    call-Post =
        expect-Post file TokenKind.left_paren p node.reads.ready (λ e. cc e) ⟫ λ open_paren p1 took.
        optional_list-Post file n expr parses TokenKind.right_paren fuel p1 took.reads.ready
          (omega arith) (omega arith)
        ⟫ λ es p2 list.
            expect-Post file TokenKind.right_paren p2 list.reads.ready (λ e. cc e)
            ⟫ λ close p3 closed. returns (
              record {
                reads = ground arith;
                covers = omega arith;
                is_expr = IsExpr.call node.is_expr node.tight list.are_exprs (
                  omega arith,
                  omega arith,
                  (
                    omega arith,
                    omega arith,
                    omega arith,
                    omega arith,
                    list.in_order _ _ (omega arith) (omega arith),
                  ),
                );
                tight = omega arith;
              },
              omega arith,
            )

    index-Post : Extends file p0 p (parse_index_suffix expr e)
    unfolding parse_index_suffix
    index-Post =
        expect-Post file TokenKind.left_bracket p node.reads.ready (λ e. cc e)
        ⟫ λ open_bracket p1 took. parses p1 took.reads.ready (omega arith) ⟫ λ i p2 inner.
            expect-Post file TokenKind.right_bracket p2 inner.reads.ready (λ e. cc e)
            ⟫ λ close p3 closed. returns (
              record {
                reads = ground arith;
                covers = omega arith;
                is_expr = IsExpr.index node.is_expr node.tight inner.is_expr (omega arith);
                tight = omega arith;
              },
              omega arith,
            )

    member-Post : Extends file p0 p (parse_member_suffix expr e)
    unfolding parse_member_suffix
    member-Post = expect-Post file TokenKind.dot p node.reads.ready (λ e. cc e) ⟫ λ dot p1 took.
        expect-Post file TokenKind.identifier p1 took.reads.ready (λ e. cc e) ⟫ λ name p2 named.
        returns (
          record {
            reads = ground arith;
            covers = omega arith;
            is_expr = IsExpr.member node.is_expr node.tight (omega arith);
            tight = omega arith;
          },
          omega arith,
        )

    error_propagation-Post :
        p.current.kind ≢ TokenKind.end_of_file → Extends file p0 p (error_propagation_suffix expr e)
    unfolding error_propagation_suffix advance
    error_propagation-Post ne =
        let reads = advanced-Reads file p node.reads.ready ne in
        let covers = advanced-Covers file p node.reads.ready in
        returns (
          record {
            reads = ground arith;
            covers = omega arith;
            is_expr = IsExpr.error_propagation node.is_expr node.tight (omega arith);
            tight = omega arith;
          },
          omega arith,
        )

    suffix_of-Post :
        (k : TokenKind) (m : M Expr)
        → p.current.kind ≡ k
        → suffix_of expr fuel e k ≡ some m
        → Extends file p0 p m
    unfolding suffix_of
    suffix_of-Post TokenKind.left_paren m same is =
        subst (λ s. Extends file p0 p s) (some-injective _ _ is) call-Post
    suffix_of-Post TokenKind.left_bracket m same is =
        subst (λ s. Extends file p0 p s) (some-injective _ _ is) index-Post
    suffix_of-Post TokenKind.dot m same is =
        subst (λ s. Extends file p0 p s) (some-injective _ _ is) member-Post
    suffix_of-Post TokenKind.question m same is =
        let asked = error_propagation-Post (not_end same (λ e. cc e)) in
        subst (λ s. Extends file p0 p s) (some-injective _ _ is) asked
    suffix_of-Post _ m same is = cc is

  postfix_loop-Post :
      (fuel : ℕ) (p0 : Parser) (e : Expr) (p : Parser)
      → Parsed file 9 p0 e p
      → remaining p < n
      → remaining p < fuel
      → Post file (Parsed file 9 p0) (postfix_loop expr fuel e p)
  unfolding postfix_loop
  postfix_loop-Post zero p0 e p node h hf = absurd (omega arith)
  postfix_loop-Post (suc fuel) p0 e p node h hf =
      elim (Option-cases (suffix_of expr (suc fuel) e p.current.kind)) [
        | inl stop ↦ rw (stop, postfix_loop) (returns node)
        | inr (m, more) ↦
            rw (more, postfix_loop)
              (suffix_of-Post (suc fuel) p0 e p node h hf p.current.kind m refl more
                ⟫ λ e' p' (node', fewer).
                    postfix_loop-Post fuel p0 e' p' node' (omega arith) (omega arith))
      ]

  pub parse_postfix-Post :
      (fuel : ℕ) (p : Parser)
      → IsReady file p
      → remaining p ≤ n
      → remaining p < fuel
      → Post file (Parsed file 9 p) (parse_postfix_expression expr fuel p)
  unfolding parse_postfix_expression parse_primary
  parse_postfix-Post fuel p r h hf =
      primary_of-Post file n expr parses fuel p.current.kind p refl r h hf ⟫ λ e p1 node.
      postfix_loop-Post fuel p e p1
        (record {
          reads = node.reads;
          covers = node.covers;
          is_expr = node.is_expr;
          tight = omega (arith, node.tight);
        })
        (omega arith) (omega arith)
