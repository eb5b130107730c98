-- ===== src/Semantic/Checker.antt =====
-- compiler/src/semantic/TypeChecker.cpp: the types of expressions, and the rules on statements.
pub mod Literals
pub mod Operators
pub mod Arrays
pub mod Calls
pub mod Assignments
pub mod Expressions
pub mod Provenance
pub mod Statements
pub mod Functions
pub mod Ranges
pub mod Typed
pub mod Sound
