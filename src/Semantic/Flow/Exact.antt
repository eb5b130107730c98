-- ===== src/Semantic/Flow/Exact.antt =====
-- `analyzeBlock` of compiler/src/semantic/ControlFlowAnalyzer.cpp, in terms of paths.
use kai_cc.Ast.Stmt.{Stmt, BlockStmt, block_stmt, Stmts, IfBranches, ElseClause}
use kai_cc.Base.{◌≡◌, ◌↔◌, ◌⊎◌, inl, inr, refl}
use kai_cc.Semantic.Flow.Paths.{Outcome, falls, Runs, RunsBlock, RunsAll, RunsIf}
use kai_cc.Semantic.Flow.{
  FlowResult, falls_through, always_returns, either, both, analyze_block, analyze_statements,
  analyze_statement, analyze_branches, analyze_else,
}

both_assoc : (a b c : FlowResult) → both (both a b) c ≡ both a (both b c)
both_assoc falls_through b c = refl
both_assoc always_returns b c = refl

both_right : (a : FlowResult) {b : FlowResult} → b ≡ falls_through → both a b ≡ falls_through
both_right falls_through e = refl
both_right always_returns e = e

both_cases :
    (a : FlowResult) {b : FlowResult}
    → both a b ≡ falls_through
    → (a ≡ falls_through) ⊎ (b ≡ falls_through)
both_cases falls_through e = inl refl
both_cases always_returns e = inr e

either_left : (a b : FlowResult) → either a b ≡ falls_through → a ≡ falls_through
either_left falls_through b e = refl
either_left always_returns b e = cc e

either_right : (a b : FlowResult) → either a b ≡ falls_through → b ≡ falls_through
either_right falls_through b e = e
either_right always_returns b e = cc e

mutual
  unfolding analyze_block analyze_statements analyze_statement analyze_branches analyze_else

  Runs-falls : {t : Stmt} {o : Outcome} → Runs t o → o ≡ falls → analyze_statement t ≡ falls_through
  Runs-falls (Runs.block b) e = block-falls b e
  Runs-falls Runs.expr e = refl
  Runs-falls Runs.var_decl e = refl
  Runs-falls Runs.return e = cc e
  Runs-falls (Runs.if_stmt r) e = if-falls r e
  Runs-falls Runs.while_done e = refl
  Runs-falls (Runs.while_round b w) e = refl
  Runs-falls (Runs.while_return b) e = refl
  Runs-falls Runs.for_done e = refl
  Runs-falls (Runs.for_round b w) e = refl
  Runs-falls (Runs.for_return b) e = refl

  block-falls :
      {b : BlockStmt} {o : Outcome} → RunsBlock b o → o ≡ falls → analyze_block b ≡ falls_through
  block-falls (RunsBlock.body r) e = all-falls r e

  all-falls :
      {ts : Stmts} {o : Outcome} → RunsAll ts o → o ≡ falls → analyze_statements ts ≡ falls_through
  all-falls RunsAll.nil e = refl
  all-falls (RunsAll.onwards r rs) e = rw (Runs-falls r refl) (all-falls rs e)
  all-falls (RunsAll.leave r) e = cc e

  if-falls :
      {bs : IfBranches} {els : ElseClause} {o : Outcome}
      → RunsIf bs els o
      → o ≡ falls
      → both (analyze_branches bs) (analyze_else els) ≡ falls_through
  if-falls (RunsIf.taken b) e = rw (block-falls b e)
  if-falls (RunsIf.passed {b} {bs} {e = els} r) e =
      rw (both_assoc (analyze_block b) (analyze_branches bs) (analyze_else els))
        (both_right (analyze_block b) (if-falls r e))
  if-falls RunsIf.no_else e = refl
  if-falls (RunsIf.else_clause b) e = block-falls b e

pass_all :
    (bs : IfBranches) {els : ElseClause} {o : Outcome}
    → RunsIf IfBranches.end els o
    → RunsIf bs els o
pass_all IfBranches.end r = r
pass_all (IfBranches.branch c b s bs) r = RunsIf.passed (pass_all bs r)

mutual
  unfolding analyze_block analyze_statements analyze_statement analyze_branches analyze_else

  statement-path : (t : Stmt) → analyze_statement t ≡ falls_through → Runs t falls
  statement-path (Stmt.block b) e = Runs.block (block-path b e)
  statement-path (Stmt.expr _ _) e = Runs.expr
  statement-path (Stmt.var_decl _ _ _ _ _) e = Runs.var_decl
  statement-path (Stmt.return _ _) e = cc e
  statement-path (Stmt.if_stmt bs els _) e = elim (both_cases (analyze_branches bs) e) [
    | inl f ↦ Runs.if_stmt (branches-path bs f)
    | inr f ↦ Runs.if_stmt (else-path els f)
  ]
  statement-path (Stmt.while _ _ _) e = Runs.while_done
  statement-path (Stmt.for _ _ _ _) e = Runs.for_done

  block-path : (b : BlockStmt) → analyze_block b ≡ falls_through → RunsBlock b falls
  block-path (block_stmt ts _) e = RunsBlock.body (all-path ts e)

  all-path : (ts : Stmts) → analyze_statements ts ≡ falls_through → RunsAll ts falls
  all-path Stmts.nil e = RunsAll.nil
  all-path (Stmts.cons t ts) e =
      RunsAll.onwards
        (statement-path t (either_left (analyze_statement t) (analyze_statements ts) e))
        (all-path ts (either_right (analyze_statement t) (analyze_statements ts) e))

  branches-path :
      (bs : IfBranches) {els : ElseClause}
      → analyze_branches bs ≡ falls_through
      → RunsIf bs els falls
  branches-path IfBranches.end e = cc e
  branches-path (IfBranches.branch c b s bs) e = elim (both_cases (analyze_block b) e) [
    | inl f ↦ RunsIf.taken (block-path b f)
    | inr f ↦ RunsIf.passed (branches-path bs f)
  ]

  else-path :
      (els : ElseClause) {bs : IfBranches} → analyze_else els ≡ falls_through → RunsIf bs els falls
  else-path ElseClause.no_else {bs} e = pass_all bs RunsIf.no_else
  else-path (ElseClause.else_clause b _) {bs} e = pass_all bs (RunsIf.else_clause (block-path b e))

-- The analysis says that a block falls through if and only if some path of it runs off its
-- end, where any branch of an if may be taken and a loop may run any number of rounds.
pub analyze_block-RunsBlock :
    (b : BlockStmt) → (analyze_block b ≡ falls_through) ↔ RunsBlock b falls
analyze_block-RunsBlock b = (block-path b, λ r. block-falls r refl)
