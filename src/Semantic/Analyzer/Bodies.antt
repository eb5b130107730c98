-- ===== src/Semantic/Analyzer/Bodies.antt =====
-- Expressions and statements in compiler/src/semantic/SemanticAnalyzer.cpp.
use kai_cc.Ast.Expr.{Expr, Exprs, Identifier}
use kai_cc.Ast.Stmt.{Stmt, BindingKind, BlockStmt, block_stmt, Stmts, IfBranches, ElseClause}
use kai_cc.Ast.TypeSyntax.{TypeSyntax}
use kai_cc.Base.{ℕ, Bool, true, false, Option, none, some, [], ◌∷◌, Bytes}
use kai_cc.Semantic.Analyzer.Scopes.{Scope, ScopeStack, declare_in_scope, lookup_identifier}
use kai_cc.Semantic.Analyzer.TypeNames.{resolve_type_syntax}
use kai_cc.Semantic.Model.{
  SemanticErrorKind, SemanticModel, plain_error, add_error, record_resolution,
}
use kai_cc.Semantic.Symbol.{SymbolKind}
use kai_cc.Semantic.Types.{ValueType, TypeKind, simple}
use kai_cc.Source.Text.{text}

-- An identifier that is found is recorded, and another one reported.
unfoldable pub resolve_to : Identifier → Option ℕ → SemanticModel → SemanticModel
resolve_to n (some id) m = record_resolution m n.span id
resolve_to n none m = add_error m (plain_error SemanticErrorKind.unknown_identifier n.span none)

abbrev pub is_mutable_binding : BindingKind → Bool
is_mutable_binding BindingKind.immutable = false
is_mutable_binding BindingKind.mutable = true

-- With no annotation the type is unresolved.
unfoldable pub annotated_type :
    Bytes → Option TypeSyntax → SemanticModel → ValueType × SemanticModel
annotated_type contents none m = (simple TypeKind.unresolved, m)
annotated_type contents (some t) m = resolve_type_syntax contents t m

module _ (contents : Bytes) where
  unfoldable pub analyze_identifier_expr :
      Scope → ScopeStack → Identifier → SemanticModel → SemanticModel
  analyze_identifier_expr scope stack n m =
      resolve_to n (lookup_identifier (text contents n.span) scope stack) m

  unfoldable mutual
    pub analyze_expr : Scope → ScopeStack → Expr → SemanticModel → SemanticModel
    analyze_expr scope stack (Expr.literal _ _) m = m
    analyze_expr scope stack (Expr.unit _) m = m
    analyze_expr scope stack (Expr.identifier n _) m = analyze_identifier_expr scope stack n m
    analyze_expr scope stack (Expr.call callee arguments _) m =
        analyze_exprs scope stack arguments (analyze_expr scope stack callee m)
    analyze_expr scope stack (Expr.paren inner _) m = analyze_expr scope stack inner m
    analyze_expr scope stack (Expr.unary _ _ operand _) m = analyze_expr scope stack operand m
    analyze_expr scope stack (Expr.binary _ _ left right _) m =
        analyze_expr scope stack right (analyze_expr scope stack left m)
    analyze_expr scope stack (Expr.assignment target _ value _) m =
        analyze_expr scope stack value (analyze_expr scope stack target m)
    analyze_expr scope stack (Expr.array_literal elements _) m =
        analyze_exprs scope stack elements m
    analyze_expr scope stack (Expr.index object subscript _) m =
        analyze_expr scope stack subscript (analyze_expr scope stack object m)
    analyze_expr scope stack (Expr.member object _ _) m = analyze_expr scope stack object m
    analyze_expr scope stack (Expr.error_propagation operand _ _) m =
        analyze_expr scope stack operand m

    -- The loops over arguments and elements.
    pub analyze_exprs : Scope → ScopeStack → Exprs → SemanticModel → SemanticModel
    analyze_exprs scope stack Exprs.nil m = m
    analyze_exprs scope stack (Exprs.cons e es) m =
        analyze_exprs scope stack es (analyze_expr scope stack e m)

  unfoldable pub declare_local :
      BindingKind
      → Identifier
      → Option TypeSyntax
      → Expr
      → Scope
      → ScopeStack
      → SemanticModel
      → Scope × SemanticModel
  declare_local binding name annotation initializer scope stack m =
      let (type, m1) = annotated_type contents annotation m in
      let m2 = analyze_expr scope stack initializer m1 in
      declare_in_scope contents scope SymbolKind.local name (is_mutable_binding binding) type m2

  abbrev pub analyze_value : Scope → ScopeStack → Option Expr → SemanticModel → SemanticModel
  analyze_value scope stack none m = m
  analyze_value scope stack (some e) m = analyze_expr scope stack e m

  -- The scope of a `for` loop holds its variable.
  unfoldable pub for_scope : Identifier → SemanticModel → Scope × SemanticModel
  for_scope variable m =
      declare_in_scope contents [] SymbolKind.local variable false (simple TypeKind.unresolved) m

  unfoldable mutual
    pub analyze_statement : Scope → ScopeStack → Stmt → SemanticModel → Scope × SemanticModel
    analyze_statement scope stack (Stmt.var_decl binding name annotation initializer _) m =
        declare_local binding name annotation initializer scope stack m
    analyze_statement scope stack (Stmt.if_stmt branches otherwise _) m =
        let m1 = analyze_branches scope stack branches m in
        (scope, analyze_else scope stack otherwise m1)
    analyze_statement scope stack (Stmt.while condition body _) m =
        let m1 = analyze_expr scope stack condition m in
        (scope, analyze_nested_block scope stack body m1)
    analyze_statement scope stack (Stmt.for variable iterable body _) m =
        let m1 = analyze_expr scope stack iterable m in
        let (inner, m2) = for_scope variable m1 in
        (scope, (analyze_block_contents inner (scope ∷ stack) body m2).1)
    analyze_statement scope stack (Stmt.block body) m =
        (scope, analyze_nested_block scope stack body m)
    analyze_statement scope stack (Stmt.expr e _) m = (scope, analyze_expr scope stack e m)
    analyze_statement scope stack (Stmt.return value _) m =
        (scope, analyze_value scope stack value m)

    pub analyze_block_contents :
        Scope → ScopeStack → BlockStmt → SemanticModel → Scope × SemanticModel
    analyze_block_contents scope stack (block_stmt statements _) m =
        analyze_statements scope stack statements m

    -- The loop of `analyzeBlockContents`.
    pub analyze_statements : Scope → ScopeStack → Stmts → SemanticModel → Scope × SemanticModel
    analyze_statements scope stack Stmts.nil m = (scope, m)
    analyze_statements scope stack (Stmts.cons t ts) m =
        let (scope', m') = analyze_statement scope stack t m in
        analyze_statements scope' stack ts m'

    pub analyze_nested_block : Scope → ScopeStack → BlockStmt → SemanticModel → SemanticModel
    analyze_nested_block enclosing stack (block_stmt statements _) m =
        (analyze_statements [] (enclosing ∷ stack) statements m).1

    -- The loop of `analyzeIfStmt`, and its `else`.
    pub analyze_branches : Scope → ScopeStack → IfBranches → SemanticModel → SemanticModel
    analyze_branches scope stack IfBranches.end m = m
    analyze_branches scope stack (IfBranches.branch condition body _ branches) m =
        let m1 = analyze_expr scope stack condition m in
        analyze_branches scope stack branches (analyze_nested_block scope stack body m1)

    pub analyze_else : Scope → ScopeStack → ElseClause → SemanticModel → SemanticModel
    analyze_else scope stack ElseClause.no_else m = m
    analyze_else scope stack (ElseClause.else_clause body _) m =
        analyze_nested_block scope stack body m
