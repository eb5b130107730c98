-- ===== src/Semantic/Analyzer.antt =====
-- compiler/src/semantic/SemanticAnalyzer.cpp: declarations, scopes and names, in two passes.
pub mod TypeNames
pub mod Scopes
pub mod Bodies
pub mod Passes
pub mod Problems
pub mod Reports
pub mod NameReports
pub mod BodyReports
pub mod FileReports
pub mod Steps
pub mod Preserved
pub mod Scoped
pub mod Declared
pub mod Sound
pub mod Files
pub mod Run
