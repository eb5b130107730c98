-- ===== src/Semantic/Analyzer/Sound.antt =====
-- The statements of the analyzer, as steps.
use kai_cc.Ast.Expr.{Expr, Identifier}
use kai_cc.Ast.Stmt.{Stmt, BindingKind, BlockStmt, block_stmt, Stmts, IfBranches, ElseClause}
use kai_cc.Ast.TypeSyntax.{TypeSyntax}
use kai_cc.Base.{Option, none, some, [], Bytes, refl, inr}
use kai_cc.Semantic.Analyzer.Bodies.{
  analyze_expr, analyze_value, declare_local, for_scope, is_mutable_binding, analyze_statement,
  analyze_block_contents, analyze_statements, analyze_nested_block, analyze_branches, analyze_else,
}
use kai_cc.Semantic.Analyzer.Declared.{
  Declares, declare-Declares, annotation-Reach, annotation-IsKnown,
}
use kai_cc.Semantic.Analyzer.Scoped.{Stands, after, inside, empty-IsScope, expr-Reach}
use kai_cc.Semantic.Analyzer.Scopes.{Scope, ScopeStack}
use kai_cc.Semantic.Analyzer.Steps.{Reach, here, Reach-trans, Reach-Grows, IsKnown-grow}
use kai_cc.Semantic.Model.{SemanticModel}

module _ {contents : Bytes} where
  stays :
      {m m' : SemanticModel} {scope : Scope} {stack : ScopeStack}
      → Stands contents m scope stack
      → Reach contents m m'
      → Declares contents m scope m'
  stays s r = record { reach = r; is_scope = (after s r).is_scope }

  -- The scope changed with the model.
  moved :
      {m m' : SemanticModel} {scope scope' : Scope} {stack : ScopeStack}
      → Stands contents m scope stack
      → Declares contents m scope' m'
      → Stands contents m' scope' stack
  moved s d = record {
    sound = (after s d.reach).sound;
    is_scope = d.is_scope;
    are_scopes = (after s d.reach).are_scopes;
  }

  value-Reach :
      (e : Option Expr) {m : SemanticModel} {scope : Scope} {stack : ScopeStack}
      → Stands contents m scope stack
      → Reach contents m (analyze_value contents scope stack e m)
  value-Reach none s = here
  value-Reach (some e) s = expr-Reach e s

  local-Declares :
      (b : BindingKind) (n : Identifier) (t : Option TypeSyntax) (e : Expr) {m : SemanticModel}
      {scope : Scope} {stack : ScopeStack}
      → Stands contents m scope stack
      → Declares contents m
          (declare_local contents b n t e scope stack m).0
          (declare_local contents b n t e scope stack m).1
  unfolding declare_local
  local-Declares b n t e {m} {scope} {stack} s =
      let typed = annotation-Reach contents t s.sound in
      let s1 = after s typed in
      let read = expr-Reach e s1 in
      let known = IsKnown-grow (Reach-Grows read) (annotation-IsKnown contents t s.sound) in
      let d =
        declare-Declares contents scope _ n (is_mutable_binding b) _ (after s1 read).is_scope
          known in
      record { reach = Reach-trans (Reach-trans typed read) d.reach; is_scope = d.is_scope }

  for-Declares :
      (n : Identifier) (m : SemanticModel)
      → Declares contents m (for_scope contents n m).0 (for_scope contents n m).1
  unfolding for_scope
  for-Declares n m = declare-Declares contents [] _ n _ _ (empty-IsScope m) (inr (inr refl))

  mutual
    unfolding analyze_statement analyze_block_contents analyze_statements analyze_nested_block
        analyze_branches analyze_else

    pub statement-Declares :
        (t : Stmt) {m : SemanticModel} {scope : Scope} {stack : ScopeStack}
        → Stands contents m scope stack
        → Declares contents m
            (analyze_statement contents scope stack t m).0
            (analyze_statement contents scope stack t m).1
    statement-Declares (Stmt.var_decl b n t e _) s = local-Declares b n t e s
    statement-Declares (Stmt.if_stmt bs e _) s =
        let r = branches-Reach bs s in stays s (Reach-trans r (else-Reach e (after s r)))
    statement-Declares (Stmt.while c b _) s =
        let r = expr-Reach c s in stays s (Reach-trans r (block-Reach b (after s r)))
    statement-Declares (Stmt.for n e (block_stmt ts _) _) {m} {scope} {stack} s =
        let r = expr-Reach e s in
        let d = for-Declares n (analyze_expr contents scope stack e m) in
        let body = statements-Declares ts (moved (inside (after s r)) d) in
        stays s (Reach-trans (Reach-trans r d.reach) body.reach)
    statement-Declares (Stmt.block b) s = stays s (block-Reach b s)
    statement-Declares (Stmt.expr e _) s = stays s (expr-Reach e s)
    statement-Declares (Stmt.return e _) s = stays s (value-Reach e s)

    pub statements-Declares :
        (ts : Stmts) {m : SemanticModel} {scope : Scope} {stack : ScopeStack}
        → Stands contents m scope stack
        → Declares contents m
            (analyze_statements contents scope stack ts m).0
            (analyze_statements contents scope stack ts m).1
    statements-Declares Stmts.nil s = stays s here
    statements-Declares (Stmts.cons t ts) s =
        let d = statement-Declares t s in
        let rest = statements-Declares ts (moved s d) in
        record { reach = Reach-trans d.reach rest.reach; is_scope = rest.is_scope }

    block-Reach :
        (b : BlockStmt) {m : SemanticModel} {scope : Scope} {stack : ScopeStack}
        → Stands contents m scope stack
        → Reach contents m (analyze_nested_block contents scope stack b m)
    block-Reach (block_stmt ts _) s = (statements-Declares ts (inside s)).reach

    branches-Reach :
        (bs : IfBranches) {m : SemanticModel} {scope : Scope} {stack : ScopeStack}
        → Stands contents m scope stack
        → Reach contents m (analyze_branches contents scope stack bs m)
    branches-Reach IfBranches.end s = here
    branches-Reach (IfBranches.branch c b _ bs) s =
        let r = expr-Reach c s in
        let q = Reach-trans r (block-Reach b (after s r)) in
        Reach-trans q (branches-Reach bs (after s q))

    else-Reach :
        (e : ElseClause) {m : SemanticModel} {scope : Scope} {stack : ScopeStack}
        → Stands contents m scope stack
        → Reach contents m (analyze_else contents scope stack e m)
    else-Reach ElseClause.no_else s = here
    else-Reach (ElseClause.else_clause b _) s = block-Reach b s
