-- ===== src/Semantic/Flow/Paths.antt =====
-- The paths of a statement: any branch may be taken, and any loop may run any number of rounds.
use kai_cc.Ast.Expr.{Expr, Identifier}
use kai_cc.Ast.Stmt.{Stmt, BindingKind, BlockStmt, block_stmt, Stmts, IfBranches, ElseClause}
use kai_cc.Ast.TypeSyntax.{TypeSyntax}
use kai_cc.Base.{Option}
use kai_cc.Source.Location.{SourceSpan}

-- A path runs off the end, or ends in a `return`.
pub data Outcome : Type 0 where
  falls returns : Outcome

mutual
  pub data Runs : Stmt → Outcome → Type 0 where
    block : {b : BlockStmt} {o : Outcome} → RunsBlock b o → Runs (Stmt.block b) o
    expr : {e : Expr} {s : SourceSpan} → Runs (Stmt.expr e s) falls
    var_decl :
        {k : BindingKind} {n : Identifier} {t : Option TypeSyntax} {e : Expr} {s : SourceSpan}
        → Runs (Stmt.var_decl k n t e s) falls
    return : {e : Option Expr} {s : SourceSpan} → Runs (Stmt.return e s) returns
    if_stmt :
        {bs : IfBranches} {e : ElseClause} {s : SourceSpan} {o : Outcome}
        → RunsIf bs e o
        → Runs (Stmt.if_stmt bs e s) o
    while_done : {e : Expr} {b : BlockStmt} {s : SourceSpan} → Runs (Stmt.while e b s) falls
    while_round :
        {e : Expr} {b : BlockStmt} {s : SourceSpan} {o : Outcome}
        → RunsBlock b falls
        → Runs (Stmt.while e b s) o
        → Runs (Stmt.while e b s) o
    while_return :
        {e : Expr} {b : BlockStmt} {s : SourceSpan}
        → RunsBlock b returns
        → Runs (Stmt.while e b s) returns
    for_done :
        {n : Identifier} {e : Expr} {b : BlockStmt} {s : SourceSpan} → Runs (Stmt.for n e b s) falls
    for_round :
        {n : Identifier} {e : Expr} {b : BlockStmt} {s : SourceSpan} {o : Outcome}
        → RunsBlock b falls
        → Runs (Stmt.for n e b s) o
        → Runs (Stmt.for n e b s) o
    for_return :
        {n : Identifier} {e : Expr} {b : BlockStmt} {s : SourceSpan}
        → RunsBlock b returns
        → Runs (Stmt.for n e b s) returns

  pub data RunsBlock : BlockStmt → Outcome → Type 0 where
    body :
        {ts : Stmts} {s : SourceSpan} {o : Outcome} → RunsAll ts o → RunsBlock (block_stmt ts s) o

  pub data RunsAll : Stmts → Outcome → Type 0 where
    nil : RunsAll Stmts.nil falls
    onwards :
        {t : Stmt} {ts : Stmts} {o : Outcome}
        → Runs t falls
        → RunsAll ts o
        → RunsAll (Stmts.cons t ts) o
    leave : {t : Stmt} {ts : Stmts} → Runs t returns → RunsAll (Stmts.cons t ts) returns

  pub data RunsIf : IfBranches → ElseClause → Outcome → Type 0 where
    taken :
        {c : Expr} {b : BlockStmt} {s : SourceSpan} {bs : IfBranches} {e : ElseClause} {o : Outcome}
        → RunsBlock b o
        → RunsIf (IfBranches.branch c b s bs) e o
    passed :
        {c : Expr} {b : BlockStmt} {s : SourceSpan} {bs : IfBranches} {e : ElseClause} {o : Outcome}
        → RunsIf bs e o
        → RunsIf (IfBranches.branch c b s bs) e o
    no_else : RunsIf IfBranches.end ElseClause.no_else falls
    else_clause :
        {b : BlockStmt} {s : SourceSpan} {o : Outcome}
        → RunsBlock b o
        → RunsIf IfBranches.end (ElseClause.else_clause b s) o
