-- ===== src/Parser/BlockPosts.antt =====
-- The statements that hold blocks, and `parseBlock`.
use kai_cc.Parser.Input.{OpenFile}
use kai_cc.Ast.Expr.{Expr}
use kai_cc.Ast.Stmt.{BlockStmt, Stmts, IfBranches, ElseClause, block_span}
use kai_cc.Base.{ℕ, zero, suc, ◌<◌, ◌≤◌, ◌≡◌, refl, ap, ◌∙◌, arith, inl, inr, Bool-cases, some}
use kai_cc.Parser.Layout.{InOrder}
use kai_cc.Parser.Progress.{IsReady, Reads, at, remaining, advanced-Reads, advanced-Covers}
use kai_cc.Parser.Rules.{
  Post, returns, ◌⟫◌, not_end, expect-Post, match_token-Post, fail-Post, unexpected_kind,
  skip_kinds-Post, newline_stops, separator_stops,
}
use kai_cc.Parser.State.{
  Parser, ParseErrorKind, M, advance, advanced, check, between, is_newline, is_separator,
}
use kai_cc.Parser.Statements.{
  front_span, if_end, if_branches, parse_if_stmt, parse_while_stmt, parse_for_stmt, statement_of,
  parse_statement, statements, parse_block,
}
use kai_cc.Parser.StmtPosts.{
  ParsedStmt, ParsesBlock, var_decl-Post, return-Post, expression_stmt-Post,
}
use kai_cc.Parser.Tiers.{parse_expression-Post}
use kai_cc.Parser.TreeLayout.{
  IsStmt, IsBlock, AreStmts, nil, cons, AreBranches, end, branch, IsElse, no_else, else_clause,
  if_spans, stmt_spans,
}
use kai_cc.Source.Location.{SourceSpan, SourceLocation}
use kai_cc.Token.{TokenKind, ◌is_kind◌, is_kind→eq}

-- The branches from one that begins at `b`, no later than `p`, with the `else` behind them.
record ParsedIf (file : OpenFile) (b : SourceLocation) (p : Parser) (v : IfBranches × ElseClause)
    (p' : Parser) : Type 0 where
  reads : Reads file 1 p p'
  are_branches : AreBranches file v.0
  is_else : IsElse file v.1
  front : (d : SourceSpan) → (front_span d v.0).begin ≡ b
  end_file : (d : SourceSpan) → (if_end v.0 v.1 d).file ≡ file.id
  after : (d : SourceSpan) → b.offset ≤ (if_end v.0 v.1 d).offset
  stops : (d : SourceSpan) → (if_end v.0 v.1 d).offset ≤ at p'
  in_order :
      (d : SourceSpan) (lo : ℕ)
      → lo ≤ b.offset
      → InOrder file lo (if_spans v.0 v.1) (if_end v.0 v.1 d).offset

-- The branch in front is no matter for where the statement ends.
if_end-branch :
    (e : Expr) (b : BlockStmt) (s : SourceSpan) (bs : IfBranches) (els : ElseClause)
    (d : SourceSpan)
    → if_end (IfBranches.branch e b s bs) els d ≡ if_end bs els s
if_end-branch e b s bs ElseClause.no_else d = refl
if_end-branch e b s bs (ElseClause.else_clause _ _) d = refl

module _ (file : OpenFile) (n : ℕ) (block : M BlockStmt) (parses : ParsesBlock file n block) where
  if_branches-Post :
      (fuel : ℕ) (b : SourceLocation) (p : Parser)
      → b.file ≡ file.id
      → b.offset ≤ at p
      → IsReady file p
      → remaining p < fuel
      → remaining p < n
      → Post file (ParsedIf file b p) (if_branches block fuel b p)
  unfolding if_branches check advance
  if_branches-Post zero b p bf bo r h hn = absurd (omega arith)
  if_branches-Post (suc fuel) b p bf bo r h hn =
      parse_expression-Post file (suc fuel) p r h ⟫ λ condition p1 tested.
      parses p1 tested.reads.ready (omega arith) ⟫ λ body p2 taken.
      skip_kinds-Post file is_newline (suc fuel) p2 newline_stops taken.reads.ready (omega arith)
      ⟫ λ _ p3 skipped. elim (Bool-cases (p3.current.kind is_kind TokenKind.kw_else)) [
        | inl has_else ↦
            let ne = not_end (is_kind→eq p3.current.kind TokenKind.kw_else has_else) (λ x. cc x) in
            let else_reads = advanced-Reads file p3 skipped.ready ne in
            let else_covers = advanced-Covers file p3 skipped.ready in
            rw has_else (
              match_token-Post TokenKind.kw_if _ (advanced p3)
                (λ is_if.
                  let if_reads =
                    advanced-Reads file (advanced p3) else_reads.ready
                      (not_end is_if (λ x. cc x)) in
                  if_branches-Post fuel p3.current.span.begin (advanced (advanced p3))
                    else_covers.begin_file (omega arith) if_reads.ready (omega arith) (omega arith)
                  ⟫ λ v p4 later.
                      let span = between b (block_span body).end in
                      returns (record {
                        reads = ground arith;
                        are_branches =
                            branch tested.is_expr taken.is_block (omega arith) later.are_branches;
                        is_else = later.is_else;
                        front = λ d. refl;
                        end_file = λ d. rw if_end-branch (later.end_file _);
                        after = λ d. rw if_end-branch (omega (arith, later.after span));
                        stops = λ d. rw if_end-branch (later.stops _);
                        in_order = λ d lo l. rw if_end-branch (
                          bf,
                          taken.covers.end_file,
                          omega arith,
                          omega arith,
                          later.in_order _ _ (omega arith),
                        );
                      }))
                (parses (advanced p3) else_reads.ready (omega arith) ⟫ λ final p4 finished.
                  returns (record {
                    reads = ground arith;
                    are_branches = branch tested.is_expr taken.is_block (omega arith) end;
                    is_else = else_clause finished.is_block (omega arith);
                    front = λ d. refl;
                    end_file = λ d. omega arith;
                    after = λ d. omega arith;
                    stops = λ d. omega arith;
                    in_order = λ d lo l. omega arith;
                  })))
        | inr no_more ↦ rw no_more (
            returns (record {
              reads = ground arith;
              are_branches = branch tested.is_expr taken.is_block (omega arith) end;
              is_else = no_else;
              front = λ d. refl;
              end_file = λ d. omega arith;
              after = λ d. omega arith;
              stops = λ d. omega arith;
              in_order = λ d lo l. omega arith;
            }))
      ]

  if_stmt-Post :
      (fuel : ℕ) (p : Parser)
      → IsReady file p
      → remaining p < fuel
      → remaining p ≤ n
      → Post file (ParsedStmt file p) (parse_if_stmt block fuel p)
  unfolding parse_if_stmt
  if_stmt-Post fuel p r h hn = expect-Post file TokenKind.kw_if p r (λ x. cc x) ⟫ λ keyword p1 took.
      if_branches-Post fuel p.current.span.begin p1 r.begin_file took.reads.forward took.reads.ready
        (omega arith) (omega arith)
      ⟫ λ v p2 parts.
          let d = p.current.span in
          let begins = ap (λ b. b.offset) (parts.front d) in
          let begin_file = ap (λ b. b.file) (parts.front d) ∙ r.begin_file in
          let ends = parts.after d in
          let stops = parts.stops d in
          returns (record {
            reads = ground arith;
            covers = record {
              begin_file = begin_file;
              end_file = parts.end_file d;
              starts = begins;
              ordered = omega arith;
              stops = stops;
            };
            is_stmt =
                IsStmt.if_stmt parts.are_branches parts.is_else
                  (begin_file, parts.end_file d, parts.in_order d _ (omega arith));
          })

  while-Post :
      (fuel : ℕ) (p : Parser)
      → IsReady file p
      → remaining p < fuel
      → remaining p ≤ n
      → Post file (ParsedStmt file p) (parse_while_stmt block fuel p)
  unfolding parse_while_stmt
  while-Post fuel p r h hn =
      expect-Post file TokenKind.kw_while p r (λ x. cc x) ⟫ λ keyword p1 took.
      parse_expression-Post file fuel p1 took.reads.ready (omega arith) ⟫ λ condition p2 tested.
      parses p2 tested.reads.ready (omega arith) ⟫ λ body p3 taken. returns (record {
        reads = ground arith;
        covers = omega arith;
        is_stmt = IsStmt.while tested.is_expr taken.is_block (omega arith);
      })

  for-Post :
      (fuel : ℕ) (p : Parser)
      → IsReady file p
      → remaining p < fuel
      → remaining p ≤ n
      → Post file (ParsedStmt file p) (parse_for_stmt block fuel p)
  unfolding parse_for_stmt
  for-Post fuel p r h hn = expect-Post file TokenKind.kw_for p r (λ x. cc x) ⟫ λ keyword p1 took.
      expect-Post file TokenKind.identifier p1 took.reads.ready (λ x. cc x) ⟫ λ variable p2 named.
      expect-Post file TokenKind.kw_in p2 named.reads.ready (λ x. cc x) ⟫ λ in_tok p3 found.
      parse_expression-Post file fuel p3 found.reads.ready (omega arith) ⟫ λ iterable p4 ranged.
      parses p4 ranged.reads.ready (omega arith) ⟫ λ body p5 taken. returns (record {
        reads = ground arith;
        covers = omega arith;
        is_stmt = IsStmt.for ranged.is_expr taken.is_block (omega arith);
      })

  statement_of-Post :
      (fuel : ℕ) (k : TokenKind) (p : Parser)
      → IsReady file p
      → remaining p < fuel
      → remaining p ≤ n
      → Post file (ParsedStmt file p) (statement_of block fuel k p)
  unfolding statement_of
  statement_of-Post fuel TokenKind.kw_let p r h hn = var_decl-Post file fuel p r h
  statement_of-Post fuel TokenKind.kw_mut p r h hn = var_decl-Post file fuel p r h
  statement_of-Post fuel TokenKind.kw_return p r h hn = return-Post file fuel p r h
  statement_of-Post fuel TokenKind.kw_if p r h hn = if_stmt-Post fuel p r h hn
  statement_of-Post fuel TokenKind.kw_while p r h hn = while-Post fuel p r h hn
  statement_of-Post fuel TokenKind.kw_for p r h hn = for-Post fuel p r h hn
  statement_of-Post fuel _ p r h hn = expression_stmt-Post file fuel p r h

-- The statements from the current token of `p` to before that of `p'`.
record ParsedStmts (file : OpenFile) (p : Parser) (ts : Stmts) (p' : Parser) : Type 0 where
  reads : Reads file 0 p p'
  are_stmts : AreStmts file ts
  in_order : (lo hi : ℕ) → lo ≤ at p → at p' ≤ hi → InOrder file lo (stmt_spans ts) hi

module _ (file : OpenFile) (n : ℕ) (block : M BlockStmt) (parses : ParsesBlock file n block) where
  statements-Post :
      (fuel : ℕ) (p : Parser)
      → IsReady file p
      → remaining p < fuel
      → remaining p ≤ n
      → Post file (ParsedStmts file p) (statements block fuel p)
  unfolding statements check parse_statement
  statements-Post zero p r h hn = absurd (omega arith)
  statements-Post (suc fuel) p r h hn =
      elim (Bool-cases (p.current.kind is_kind TokenKind.right_brace)) [
        | inl closed ↦ rw closed (
            returns (record {
              reads = record { ready = r; forward = omega arith; fewer = omega arith };
              are_stmts = nil;
              in_order = λ lo hi l u. omega arith;
            }))
        | inr going ↦ rw going (elim (Bool-cases (p.current.kind is_kind TokenKind.end_of_file)) [
          | inl ended ↦ rw ended (
              fail-Post ParseErrorKind.unexpected_token (some TokenKind.right_brace) p r (λ x. cc x)
                (unexpected_kind p TokenKind.right_brace going))
          | inr more ↦ rw more (
              statement_of-Post file n block parses (suc fuel) p.current.kind p r h hn
              ⟫ λ t p1 first.
                  skip_kinds-Post file is_separator (suc fuel) p1 separator_stops first.reads.ready
                    (omega arith)
                  ⟫ λ _ p2 skipped.
                      statements-Post fuel p2 skipped.ready (omega arith) (omega arith)
                      ⟫ λ ts p3 later. returns (record {
                        reads = ground arith;
                        are_stmts = cons first.is_stmt later.are_stmts;
                        in_order = λ lo hi l u. (
                          first.covers.begin_file,
                          first.covers.end_file,
                          omega arith,
                          first.covers.ordered,
                          later.in_order _ hi (omega arith) u,
                        );
                      }))
        ])
      ]

pub parse_block-Post : (file : OpenFile) (fuel : ℕ) → ParsesBlock file fuel (parse_block fuel)
unfolding parse_block
parse_block-Post file zero p r h = absurd (omega arith)
parse_block-Post file (suc fuel) p r h =
    expect-Post file TokenKind.left_brace p r (λ x. cc x) ⟫ λ open_brace p1 took.
    skip_kinds-Post file is_separator (suc fuel) p1 separator_stops took.reads.ready (omega arith)
    ⟫ λ _ p2 skipped.
        statements-Post file fuel (parse_block fuel) (parse_block-Post file fuel) (suc fuel) p2
          skipped.ready (omega arith) (omega arith)
        ⟫ λ ts p3 list.
            expect-Post file TokenKind.right_brace p3 list.reads.ready (λ x. cc x)
            ⟫ λ close_brace p4 closed. returns (record {
              reads = ground arith;
              covers = omega arith;
              is_block =
                  IsBlock.block list.are_stmts
                    (omega arith, omega arith, list.in_order _ _ (omega arith) (omega arith));
            })
