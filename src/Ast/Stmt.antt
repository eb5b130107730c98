-- ===== src/Ast/Stmt.antt =====
-- compiler/include/kai/ast/Stmt.hpp.
use kai_cc.Ast.Expr.{Expr, Identifier}
use kai_cc.Ast.TypeSyntax.{TypeSyntax}
use kai_cc.Base.{Option}
use kai_cc.Source.Location.{SourceSpan}

pub data BindingKind : Type 0 where
  immutable mutable : BindingKind

mutual
  pub data Stmt : Type 0 where
    block : BlockStmt → Stmt
    expr : Expr → SourceSpan → Stmt
    var_decl : BindingKind → Identifier → Option TypeSyntax → Expr → SourceSpan → Stmt
    return : Option Expr → SourceSpan → Stmt
    if_stmt : IfBranches → ElseClause → SourceSpan → Stmt
    while : Expr → BlockStmt → SourceSpan → Stmt
    for : Identifier → Expr → BlockStmt → SourceSpan → Stmt

  pub data BlockStmt : Type 0 where
    block_stmt : Stmts → SourceSpan → BlockStmt

  pub data Stmts : Type 0 where
    nil : Stmts
    cons : Stmt → Stmts → Stmts

  -- `std::vector<IfBranch>`: each branch has its condition, its body and its span.
  pub data IfBranches : Type 0 where
    end : IfBranches
    branch : Expr → BlockStmt → SourceSpan → IfBranches → IfBranches

  -- `std::optional<ElseClause>`.
  pub data ElseClause : Type 0 where
    no_else : ElseClause
    else_clause : BlockStmt → SourceSpan → ElseClause

abbrev pub block_span : BlockStmt → SourceSpan
block_span (block_stmt _ s) = s

abbrev pub stmt_span : Stmt → SourceSpan
stmt_span (Stmt.block b) = block_span b
stmt_span (Stmt.expr _ s) = s
stmt_span (Stmt.var_decl _ _ _ _ s) = s
stmt_span (Stmt.return _ s) = s
stmt_span (Stmt.if_stmt _ _ s) = s
stmt_span (Stmt.while _ _ s) = s
stmt_span (Stmt.for _ _ _ s) = s
