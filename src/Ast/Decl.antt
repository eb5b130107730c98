-- ===== src/Ast/Decl.antt =====
-- compiler/include/kai/ast/Decl.hpp and SourceFile.hpp. A function is the only declaration.
use kai_cc.Ast.Expr.{Identifier}
use kai_cc.Ast.Stmt.{BlockStmt}
use kai_cc.Ast.TypeSyntax.{TypeSyntax}
use kai_cc.Base.{ℕ, Bool, Option, List}
use kai_cc.Source.Location.{SourceSpan}

pub record Param : Type 0 where
  pub name : Identifier
  pub type : TypeSyntax
  pub span : SourceSpan

pub record FunctionDecl : Type 0 where
  pub is_public : Bool
  pub name : Identifier
  pub params : List Param
  pub return_type : Option TypeSyntax
  pub body : BlockStmt
  pub span : SourceSpan

pub record SourceFile : Type 0 where
  pub file : ℕ
  pub declarations : List FunctionDecl
  pub span : SourceSpan
