-- ===== src/Parser/StmtPosts.antt =====
-- The statements that hold no block, and the loops of `parseIfStmt` and `parseBlock`.
use kai_cc.Parser.Input.{OpenFile}
use kai_cc.Ast.Expr.{Expr}
use kai_cc.Ast.Stmt.{Stmt, BlockStmt, block_span, stmt_span}
use kai_cc.Ast.TypeSyntax.{TypeSyntax}
use kai_cc.Base.{
  ℕ, ◌<◌, ◌≤◌, ◌≡◌, ◌≢◌, arith, true, false, inl, inr, Bool-cases, Bool, if◌then◌else◌, Option,
  none, List,
}
use kai_cc.Parser.Layout.{InOrder}
use kai_cc.Parser.Progress.{IsReady, Reads, Covers, at, remaining, advanced-Reads}
use kai_cc.Parser.Rules.{
  Post, returns, ◌⟫◌, weaken, not_end, expect-Post, match_token-Post, fail-Post,
}
use kai_cc.Parser.State.{Parser, ParseErrorKind, M, expect, check}
use kai_cc.Parser.Statements.{
  is_terminator, at_terminator, expect_terminator, optional_type, parse_var_decl_stmt, return_value,
  parse_return_stmt, expression_stmt,
}
use kai_cc.Parser.Tiers.{parse_expression-Post}
use kai_cc.Parser.TreeLayout.{
  IsOptionalType, optional_type_span, IsOptionalExpr, optional_expr_span, IsStmt, IsBlock,
}
use kai_cc.Parser.TypePosts.{parse_type_syntax-Post}
use kai_cc.Source.Location.{SourceSpan, SourceLocation}
use kai_cc.Token.{TokenKind, ◌is_kind◌}

pub record ParsedStmt (file : OpenFile) (p : Parser) (t : Stmt) (p' : Parser) : Type 0 where
  pub reads : Reads file 1 p p'
  pub covers : Covers file p (stmt_span t) p'
  pub is_stmt : IsStmt file t

pub record ParsedBlock (file : OpenFile) (p : Parser) (b : BlockStmt) (p' : Parser) : Type 0 where
  pub reads : Reads file 1 p p'
  pub covers : Covers file p (block_span b) p'
  pub is_block : IsBlock file b

abbrev pub ParsesBlock : OpenFile → ℕ → M BlockStmt → Type 0
ParsesBlock file fuel m =
    (p : Parser) → IsReady file p → remaining p < fuel → Post file (ParsedBlock file p) (m p)

expect_terminator-Post :
    (file : OpenFile) (p : Parser)
    → IsReady file p
    → Post file (λ _ p'. Reads file 0 p p') (expect_terminator p)
unfolding expect_terminator
expect_terminator-Post file p r = elim (Bool-cases (is_terminator p.current.kind)) [
  | inl e ↦ rw e (returns (record { ready = r; forward = omega arith; fewer = omega arith }))
  | inr e ↦ rw e (
      fail-Post ParseErrorKind.unexpected_token none p r (λ x. cc x)
        (λ k none_given. cc none_given))
]

-- A type that may be missing, between the current token of `p` and that of `p'`.
pub record ParsedOptional (file : OpenFile) (p : Parser) (t : Option TypeSyntax) (p' : Parser)
    : Type 0 where
  pub reads : Reads file 0 p p'
  pub is_type : IsOptionalType file t
  pub in_order :
      (lo hi : ℕ) (ss : List SourceSpan)
      → lo ≤ at p
      → ((l : ℕ) → l ≤ at p' → InOrder file l ss hi)
      → InOrder file lo (optional_type_span t ss) hi

pub optional_type-Post :
    (file : OpenFile) (fuel : ℕ) (marker : TokenKind) (p : Parser)
    → marker ≢ TokenKind.end_of_file
    → IsReady file p
    → remaining p < fuel
    → Post file (ParsedOptional file p) (optional_type marker fuel p)
unfolding optional_type
optional_type-Post file fuel marker p ne r h =
    match_token-Post marker _ p
      (λ has_type.
        let found = advanced-Reads file p r (not_end has_type ne) in
        parse_type_syntax-Post file fuel _ found.ready (omega arith) ⟫ λ t p2 inner.
        returns (record {
          reads = ground arith;
          is_type = inner.is_type;
          in_order = λ lo hi ss l later. (
            inner.covers.begin_file,
            inner.covers.end_file,
            omega arith,
            inner.covers.ordered,
            later _ inner.covers.stops,
          );
        }))
      (returns (no_type p r))
  where
    no_type : (p : Parser) → IsReady file p → ParsedOptional file p none p
    no_type p r = record {
      reads = record { ready = r; forward = omega arith; fewer = omega arith };
      is_type = tt;
      in_order = λ lo hi ss l later. later lo l;
    }

module _ (file : OpenFile) (fuel : ℕ) where
  -- The keyword of a declaration.
  keyword-Post :
      (p : Parser) (is_mutable : Bool)
      → IsReady file p
      → Post file
          (λ t p'. Reads file 1 p p' × Covers file p t.span p')
          ((if is_mutable then expect TokenKind.kw_mut else expect TokenKind.kw_let) p)
  keyword-Post p true r =
      weaken (λ t p' took. (took.reads, took.covers))
        (expect-Post file TokenKind.kw_mut p r (λ x. cc x))
  keyword-Post p false r =
      weaken (λ t p' took. (took.reads, took.covers))
        (expect-Post file TokenKind.kw_let p r (λ x. cc x))

  pub var_decl-Post :
      (p : Parser)
      → IsReady file p
      → remaining p < fuel
      → Post file (ParsedStmt file p) (parse_var_decl_stmt fuel p)
  unfolding parse_var_decl_stmt check
  var_decl-Post p r h =
      keyword-Post p (p.current.kind is_kind TokenKind.kw_mut) r ⟫ λ keyword p1 (begun, covers).
      expect-Post file TokenKind.identifier p1 begun.ready (λ x. cc x) ⟫ λ name p2 named.
      optional_type-Post file fuel TokenKind.colon p2 (λ x. cc x) named.reads.ready (omega arith)
      ⟫ λ t p3 typed.
          expect-Post file TokenKind.equal p3 typed.reads.ready (λ x. cc x) ⟫ λ eq p4 equals.
          parse_expression-Post file fuel p4 equals.reads.ready (omega arith) ⟫ λ e p5 value.
          expect_terminator-Post file p5 value.reads.ready ⟫ λ _ p6 ended. returns (record {
            reads = ground arith;
            covers = omega arith;
            is_stmt = IsStmt.var_decl typed.is_type value.is_expr (
              omega arith,
              omega arith,
              (
                omega arith,
                omega arith,
                omega arith,
                omega arith,
                typed.in_order _ _ _ (omega arith) (λ l u. omega arith),
              ),
            );
          })

  -- The value of a `return` whose keyword ends at `end`, no later than `p` begins.
  record ReturnValue (p : Parser) (end : SourceLocation) (v : Option Expr × SourceLocation)
      (p' : Parser) : Type 0 where
    reads : Reads file 0 p p'
    is_value : IsOptionalExpr file v.0
    end_file : v.1.file ≡ file.id
    after : end.offset ≤ v.1.offset
    stops : v.1.offset ≤ at p'
    in_order : (lo : ℕ) → lo ≤ end.offset → InOrder file lo (optional_expr_span v.0) v.1.offset

  return_value-Post :
      (p : Parser) (end : SourceLocation)
      → IsReady file p
      → remaining p < fuel
      → end.file ≡ file.id
      → end.offset ≤ at p
      → Post file (ReturnValue p end) (return_value fuel end p)
  unfolding return_value at_terminator
  return_value-Post p end r h same_file before = elim (Bool-cases (is_terminator p.current.kind)) [
    | inl bare ↦ rw bare (
        returns (record {
          reads = record { ready = r; forward = omega arith; fewer = omega arith };
          is_value = tt;
          end_file = same_file;
          after = omega arith;
          stops = before;
          in_order = λ lo l. l;
        }))
    | inr valued ↦ rw valued (
        parse_expression-Post file fuel p r h ⟫ λ e p1 value. returns (record {
          reads = ground arith;
          is_value = value.is_expr;
          end_file = value.covers.end_file;
          after = omega arith;
          stops = value.covers.stops;
          in_order = λ lo l. omega arith;
        }))
  ]

  pub return-Post :
      (p : Parser)
      → IsReady file p
      → remaining p < fuel
      → Post file (ParsedStmt file p) (parse_return_stmt fuel p)
  unfolding parse_return_stmt
  return-Post p r h = expect-Post file TokenKind.kw_return p r (λ x. cc x) ⟫ λ keyword p1 took.
      return_value-Post p1 keyword.span.end took.reads.ready (omega arith) took.covers.end_file
        took.covers.stops
      ⟫ λ v p2 value. expect_terminator-Post file p2 value.reads.ready ⟫ λ _ p3 ended.
          returns (record {
            reads = ground arith;
            covers = omega arith;
            is_stmt =
                IsStmt.return value.is_value
                  (omega arith, omega arith, value.in_order _ (omega arith));
          })

  pub expression_stmt-Post :
      (p : Parser)
      → IsReady file p
      → remaining p < fuel
      → Post file (ParsedStmt file p) (expression_stmt fuel p)
  unfolding expression_stmt
  expression_stmt-Post p r h = parse_expression-Post file fuel p r h ⟫ λ e p1 value.
      expect_terminator-Post file p1 value.reads.ready ⟫ λ _ p2 ended. returns (record {
        reads = ground arith;
        covers = omega arith;
        is_stmt = IsStmt.expr value.is_expr (omega arith);
      })
