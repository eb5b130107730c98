-- ===== src/Parser.antt =====
-- compiler/src/parser/Parser.cpp: recursive descent over the tokens of the lexer.
pub mod State
pub mod Types
pub mod Expressions
pub mod Operators
pub mod Statements
pub mod Declarations
pub mod Input
pub mod Layout
pub mod Progress
pub mod Rules
pub mod Nodes
pub mod Primary
pub mod Precedence
pub mod Tiers
pub mod TreeLayout
pub mod TypePosts
pub mod StmtPosts
pub mod BlockPosts
pub mod DeclPosts
pub mod Files
