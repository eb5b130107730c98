-- ===== src/Semantic/Analyzer/BodyReports.antt =====
-- What is reported of statements, and the names that they leave in the scope.
use kai_cc.Ast.Expr.{Identifier}
use kai_cc.Ast.Stmt.{Stmt, BlockStmt, block_stmt, Stmts, IfBranches, ElseClause}
use kai_cc.Base.{[], ◌∷◌, Bytes, ◌≡◌, refl}
use kai_cc.Semantic.Analyzer.Bodies.{
  declare_local, for_scope, analyze_statement, analyze_block_contents, analyze_statements,
  analyze_nested_block, analyze_branches, analyze_else,
}
use kai_cc.Semantic.Analyzer.NameReports.{
  names, stack_names, visible, expr-Adds, value-Adds, declare-Adds, declare-names,
}
use kai_cc.Semantic.Analyzer.Problems.{
  has, with_name, declared, statement_problems, statements_problems, block_problems,
  branches_problems, else_problems, declaration_problems,
}
use kai_cc.Semantic.Analyzer.Reports.{Adds, Adds-nothing, ◌⟫◌, annotation-Adds, renamed}
use kai_cc.Semantic.Analyzer.Scopes.{Scope, ScopeStack}
use kai_cc.Semantic.Model.{SemanticModel}
use kai_cc.Source.Text.{text}

module _ (contents : Bytes) where
  statement-names :
      (scope : Scope) (stack : ScopeStack) (t : Stmt) (m : SemanticModel)
      → names (analyze_statement contents scope stack t m).0 ≡ declared contents (names scope) t
  unfolding analyze_statement declared declare_local
  statement-names scope stack (Stmt.var_decl b n t e _) m = declare-names contents scope _ n _ _ _
  statement-names scope stack (Stmt.if_stmt _ _ _) m = refl
  statement-names scope stack (Stmt.while _ _ _) m = refl
  statement-names scope stack (Stmt.for _ _ _ _) m = refl
  statement-names scope stack (Stmt.block _) m = refl
  statement-names scope stack (Stmt.expr _ _) m = refl
  statement-names scope stack (Stmt.return _ _) m = refl

  for-names :
      (n : Identifier) (m : SemanticModel)
      → names (for_scope contents n m).0 ≡ text contents n.span ∷ []
  unfolding for_scope names with_name has
  for-names n m = declare-names contents [] _ n _ _ m

  for-Adds : (n : Identifier) (m : SemanticModel) → Adds m [] (for_scope contents n m).1
  unfolding for_scope names declaration_problems has
  for-Adds n m = declare-Adds contents [] _ n _ _ m

  mutual
    unfolding analyze_statement analyze_block_contents analyze_statements analyze_nested_block
        analyze_branches analyze_else statement_problems statements_problems block_problems
        branches_problems else_problems names stack_names declare_local

    statement-Adds :
        (scope : Scope) (stack : ScopeStack) (t : Stmt) (m : SemanticModel)
        → Adds m
            (statement_problems contents (names scope) (stack_names stack) t)
            (analyze_statement contents scope stack t m).1
    statement-Adds scope stack (Stmt.var_decl b n t e _) m =
        annotation-Adds contents t m
        ⟫ (expr-Adds contents scope stack e _ ⟫ declare-Adds contents scope _ n _ _ _)
    statement-Adds scope stack (Stmt.if_stmt bs e _) m =
        branches-Adds scope stack bs m ⟫ else-Adds scope stack e _
    statement-Adds scope stack (Stmt.while c b _) m =
        expr-Adds contents scope stack c m ⟫ block-Adds scope stack b _
    statement-Adds scope stack (Stmt.for n e (block_stmt ts _) _) m =
        expr-Adds contents scope stack e m
        ⟫ (for-Adds n _
            ⟫ renamed (λ here. statements_problems contents here (visible scope stack) ts)
                (for-names n _) (statements-Adds _ (scope ∷ stack) ts _))
    statement-Adds scope stack (Stmt.block b) m = block-Adds scope stack b m
    statement-Adds scope stack (Stmt.expr e _) m = expr-Adds contents scope stack e m
    statement-Adds scope stack (Stmt.return e _) m = value-Adds contents scope stack e m

    statements-Adds :
        (scope : Scope) (stack : ScopeStack) (ts : Stmts) (m : SemanticModel)
        → Adds m
            (statements_problems contents (names scope) (stack_names stack) ts)
            (analyze_statements contents scope stack ts m).1
    statements-Adds scope stack Stmts.nil m = Adds-nothing m
    statements-Adds scope stack (Stmts.cons t ts) m =
        statement-Adds scope stack t m
        ⟫ renamed (λ here. statements_problems contents here (stack_names stack) ts)
            (statement-names scope stack t m) (statements-Adds _ stack ts _)

    block-Adds :
        (scope : Scope) (stack : ScopeStack) (b : BlockStmt) (m : SemanticModel)
        → Adds m
            (block_problems contents (visible scope stack) b)
            (analyze_nested_block contents scope stack b m)
    block-Adds scope stack (block_stmt ts _) m = statements-Adds [] (scope ∷ stack) ts m

    branches-Adds :
        (scope : Scope) (stack : ScopeStack) (bs : IfBranches) (m : SemanticModel)
        → Adds m
            (branches_problems contents (visible scope stack) bs)
            (analyze_branches contents scope stack bs m)
    branches-Adds scope stack IfBranches.end m = Adds-nothing m
    branches-Adds scope stack (IfBranches.branch c b _ bs) m =
        expr-Adds contents scope stack c m
        ⟫ (block-Adds scope stack b _ ⟫ branches-Adds scope stack bs _)

    else-Adds :
        (scope : Scope) (stack : ScopeStack) (e : ElseClause) (m : SemanticModel)
        → Adds m
            (else_problems contents (visible scope stack) e)
            (analyze_else contents scope stack e m)
    else-Adds scope stack ElseClause.no_else m = Adds-nothing m
    else-Adds scope stack (ElseClause.else_clause b _) m = block-Adds scope stack b m

  -- A function's body, in the scope of its parameters.
  pub contents-Adds :
      (scope : Scope) (stack : ScopeStack) (ts : Stmts) (m : SemanticModel)
      → Adds m
          (statements_problems contents (names scope) (stack_names stack) ts)
          (analyze_statements contents scope stack ts m).1
  contents-Adds = statements-Adds
