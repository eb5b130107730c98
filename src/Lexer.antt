-- ===== src/Lexer.antt =====
-- compiler/src/lexer: from the bytes of a file to tokens, on demand.
pub mod Chars
pub mod Cursor
pub mod Trivia
pub mod Keywords
pub mod Scan
pub mod Next
pub mod Consumed
pub mod Gaps
pub mod Skipped
pub mod Rounds
pub mod Steps
pub mod Tokens
