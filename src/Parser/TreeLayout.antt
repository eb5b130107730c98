-- ===== src/Parser/TreeLayout.antt =====
-- What a parsed type, statement and declaration look like, as Layout has it for expressions.
use kai_cc.Parser.Input.{OpenFile}
use kai_cc.Ast.Expr.{Expr, Identifier, expr_span}
use kai_cc.Ast.Stmt.{
  Stmt, BindingKind, BlockStmt, block_stmt, Stmts, IfBranches, ElseClause, block_span, stmt_span,
}
use kai_cc.Ast.TypeSyntax.{TypeSyntax, TypeSyntaxes, ReferenceMutability, type_span}
use kai_cc.Base.{List, [], ◌∷◌, Option, some, none}
use kai_cc.Parser.Layout.{Laid, IsExpr}
use kai_cc.Source.Location.{SourceSpan}

abbrev pub type_spans : TypeSyntaxes → List SourceSpan
type_spans TypeSyntaxes.nil = []
type_spans (TypeSyntaxes.cons t ts) = type_span t ∷ type_spans ts

mutual
  pub data IsType (file : OpenFile) : TypeSyntax → Type 0 where
    named :
        {n : Identifier} {s : SourceSpan}
        → Laid file s (n.span ∷ [])
        → IsType file (TypeSyntax.named n s)
    reference :
        {m : ReferenceMutability} {o : SourceSpan} {t : TypeSyntax} {s : SourceSpan}
        → IsType file t
        → Laid file s (o ∷ type_span t ∷ [])
        → IsType file (TypeSyntax.reference m o t s)
    array :
        {t : TypeSyntax} {e : Expr} {s : SourceSpan}
        → IsType file t
        → IsExpr file e
        → Laid file s (type_span t ∷ expr_span e ∷ [])
        → IsType file (TypeSyntax.array t e s)
    slice :
        {t : TypeSyntax} {s : SourceSpan}
        → IsType file t
        → Laid file s (type_span t ∷ [])
        → IsType file (TypeSyntax.slice t s)
    unit : {s : SourceSpan} → Laid file s [] → IsType file (TypeSyntax.unit s)
    generic :
        {n : Identifier} {ts : TypeSyntaxes} {s : SourceSpan}
        → AreTypes file ts
        → Laid file s (n.span ∷ type_spans ts)
        → IsType file (TypeSyntax.generic n ts s)

  pub data AreTypes (file : OpenFile) : TypeSyntaxes → Type 0 where
    nil : AreTypes file TypeSyntaxes.nil
    cons :
        {t : TypeSyntax} {ts : TypeSyntaxes}
        → IsType file t
        → AreTypes file ts
        → AreTypes file (TypeSyntaxes.cons t ts)

abbrev pub IsOptionalType : OpenFile → Option TypeSyntax → Type 0
IsOptionalType file none = Unit
IsOptionalType file (some t) = IsType file t

-- The span of a part that may be missing, in front of others.
abbrev pub optional_type_span : Option TypeSyntax → List SourceSpan → List SourceSpan
optional_type_span none ss = ss
optional_type_span (some t) ss = type_span t ∷ ss

abbrev pub IsOptionalExpr : OpenFile → Option Expr → Type 0
IsOptionalExpr file none = Unit
IsOptionalExpr file (some e) = IsExpr file e

abbrev pub optional_expr_span : Option Expr → List SourceSpan
optional_expr_span none = []
optional_expr_span (some e) = expr_span e ∷ []

abbrev pub stmt_spans : Stmts → List SourceSpan
stmt_spans Stmts.nil = []
stmt_spans (Stmts.cons t ts) = stmt_span t ∷ stmt_spans ts

-- The spans of the branches of an `if`, and of its `else`.
abbrev pub if_spans : IfBranches → ElseClause → List SourceSpan
if_spans (IfBranches.branch _ _ s bs) e = s ∷ if_spans bs e
if_spans IfBranches.end (ElseClause.else_clause _ s) = s ∷ []
if_spans IfBranches.end ElseClause.no_else = []

mutual
  pub data IsStmt (file : OpenFile) : Stmt → Type 0 where
    expr :
        {e : Expr} {s : SourceSpan}
        → IsExpr file e
        → Laid file s (expr_span e ∷ [])
        → IsStmt file (Stmt.expr e s)
    var_decl :
        {b : BindingKind} {n : Identifier} {t : Option TypeSyntax} {e : Expr} {s : SourceSpan}
        → IsOptionalType file t
        → IsExpr file e
        → Laid file s (n.span ∷ optional_type_span t (expr_span e ∷ []))
        → IsStmt file (Stmt.var_decl b n t e s)
    return :
        {e : Option Expr} {s : SourceSpan}
        → IsOptionalExpr file e
        → Laid file s (optional_expr_span e)
        → IsStmt file (Stmt.return e s)
    if_stmt :
        {bs : IfBranches} {e : ElseClause} {s : SourceSpan}
        → AreBranches file bs
        → IsElse file e
        → Laid file s (if_spans bs e)
        → IsStmt file (Stmt.if_stmt bs e s)
    while :
        {e : Expr} {b : BlockStmt} {s : SourceSpan}
        → IsExpr file e
        → IsBlock file b
        → Laid file s (expr_span e ∷ block_span b ∷ [])
        → IsStmt file (Stmt.while e b s)
    for :
        {n : Identifier} {e : Expr} {b : BlockStmt} {s : SourceSpan}
        → IsExpr file e
        → IsBlock file b
        → Laid file s (n.span ∷ expr_span e ∷ block_span b ∷ [])
        → IsStmt file (Stmt.for n e b s)

  pub data IsBlock (file : OpenFile) : BlockStmt → Type 0 where
    block :
        {ts : Stmts} {s : SourceSpan}
        → AreStmts file ts
        → Laid file s (stmt_spans ts)
        → IsBlock file (block_stmt ts s)

  pub data AreStmts (file : OpenFile) : Stmts → Type 0 where
    nil : AreStmts file Stmts.nil
    cons :
        {t : Stmt} {ts : Stmts} → IsStmt file t → AreStmts file ts → AreStmts file (Stmts.cons t ts)

  pub data AreBranches (file : OpenFile) : IfBranches → Type 0 where
    end : AreBranches file IfBranches.end
    branch :
        {e : Expr} {b : BlockStmt} {s : SourceSpan} {bs : IfBranches}
        → IsExpr file e
        → IsBlock file b
        → Laid file s (expr_span e ∷ block_span b ∷ [])
        → AreBranches file bs
        → AreBranches file (IfBranches.branch e b s bs)

  pub data IsElse (file : OpenFile) : ElseClause → Type 0 where
    no_else : IsElse file ElseClause.no_else
    else_clause :
        {b : BlockStmt} {s : SourceSpan}
        → IsBlock file b
        → Laid file s (block_span b ∷ [])
        → IsElse file (ElseClause.else_clause b s)
