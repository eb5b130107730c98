-- ===== src/Semantic.antt =====
-- compiler/src/semantic: what is checked of a syntax tree.
pub mod Types
pub mod Symbol
pub mod Model
pub mod Updates
pub mod Shapes
pub mod Analyzer
pub mod Flow
pub mod TypeName
pub mod Checker
