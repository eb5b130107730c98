-- ===== src/Parser/Nodes.antt =====
-- What each expression tier promises, and the promises of the small parts of the tiers.
use kai_cc.Parser.Input.{OpenFile}
use kai_cc.Ast.Expr.{Expr, Exprs, LiteralKind, expr_span}
use kai_cc.Base.{ℕ, zero, suc, ◌<◌, ◌≤◌, ◌≢◌, arith}
use kai_cc.Parser.Expressions.{literal, identifier, expression_list}
use kai_cc.Parser.Layout.{IsExpr, AreExprs, nil, cons, InOrder, level, expr_spans}
use kai_cc.Parser.Progress.{IsReady, Reads, Covers, at, remaining, advanced-Reads, advanced-Covers}
use kai_cc.Parser.Rules.{Post, returns, ◌⟫◌, match_token-Post}
use kai_cc.Parser.State.{Parser, M, advance}
use kai_cc.Token.{TokenKind}

-- An expression that binds as tightly as `k`, read from `p` on.
pub record Parsed (file : OpenFile) (k : ℕ) (p : Parser) (e : Expr) (p' : Parser) : Type 0 where
  pub reads : Reads file 1 p p'
  pub covers : Covers file p (expr_span e) p'
  pub is_expr : IsExpr file e
  pub tight : k ≤ level e

-- With more fuel than tokens left, the parser yields such an expression or reports an error.
abbrev pub Parses : OpenFile → ℕ → ℕ → M Expr → Type 0
Parses file k fuel m =
    (p : Parser) → IsReady file p → remaining p < fuel → Post file (Parsed file k p) (m p)

module _ (file : OpenFile) where
  pub literal-Post :
      (kind : LiteralKind) (p : Parser)
      → IsReady file p
      → p.current.kind ≢ TokenKind.end_of_file
      → Post file (Parsed file 10 p) (literal kind p)
  unfolding literal advance
  literal-Post kind p r ne =
      let covers = advanced-Covers file p r in
      returns (record {
        reads = advanced-Reads file p r ne;
        covers = covers;
        is_expr = IsExpr.literal (omega (arith, covers.ordered));
        tight = omega arith;
      })

  pub identifier-Post :
      (p : Parser)
      → IsReady file p
      → p.current.kind ≢ TokenKind.end_of_file
      → Post file (Parsed file 10 p) (identifier p)
  unfolding identifier advance
  identifier-Post p r ne =
      let covers = advanced-Covers file p r in
      returns (record {
        reads = advanced-Reads file p r ne;
        covers = covers;
        is_expr = IsExpr.identifier (omega arith);
        tight = omega arith;
      })

-- A list of expressions from the current token of `p` to before that of `p'`.
pub record ParsedList (file : OpenFile) (p : Parser) (es : Exprs) (p' : Parser) : Type 0 where
  pub reads : Reads file 0 p p'
  pub are_exprs : AreExprs file es
  pub in_order : (lo hi : ℕ) → lo ≤ at p → at p' ≤ hi → InOrder file lo (expr_spans es) hi

module _ (file : OpenFile) (n : ℕ) (expr : M Expr) (parses : Parses file 0 n expr) where
  pub expression_list-Post :
      (fuel : ℕ) (p : Parser)
      → IsReady file p
      → remaining p < fuel
      → remaining p < n
      → Post file (ParsedList file p) (expression_list expr fuel p)
  unfolding expression_list
  expression_list-Post zero p r h hn = absurd (omega arith)
  expression_list-Post (suc fuel) p r h hn = parses p r hn ⟫ λ e p1 first.
      match_token-Post TokenKind.comma _ p1
        (λ is_comma.
          let comma = advanced-Reads file p1 first.reads.ready (λ end. cc (is_comma, end)) in
          expression_list-Post fuel _ comma.ready (omega arith) (omega arith) ⟫ λ es p2 later.
          returns (record {
            reads = ground arith;
            are_exprs = cons first.is_expr later.are_exprs;
            in_order = λ lo hi l u. (
              first.covers.begin_file,
              first.covers.end_file,
              omega arith,
              omega arith,
              later.in_order _ hi (omega arith) u,
            );
          }))
        (returns (record {
          reads = ground arith;
          are_exprs = cons first.is_expr nil;
          in_order = λ lo hi l u. (
            first.covers.begin_file,
            first.covers.end_file,
            omega arith,
            omega arith,
            omega arith,
          );
        }))
