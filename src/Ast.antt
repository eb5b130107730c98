-- ===== src/Ast.antt =====
-- compiler/include/kai/ast: the syntax tree. Each node keeps its span; a recursive type that holds
-- a vector of itself has a list type of its own beside it.
pub mod Expr
pub mod TypeSyntax
pub mod Stmt
pub mod Decl
