-- ===== src/Lexer/Chars.antt =====
-- The byte classes of compiler/src/lexer/Lexer.cpp.
use kai_cc.Base.{ℕ, Bool, ◌&&◌, ◌||◌, ◌==◌, leb}

unfoldable pub is_digit : ℕ → Bool
is_digit c = leb b'0' c && leb c b'9'

unfoldable pub is_identifier_start : ℕ → Bool
is_identifier_start c = (leb b'A' c && leb c b'Z') || (leb b'a' c && leb c b'z') || c == b'_'

unfoldable pub is_identifier_continue : ℕ → Bool
unfolding is_identifier_start is_digit
is_identifier_continue c = is_identifier_start c || is_digit c

unfoldable pub is_supported_string_escape_char : ℕ → Bool
is_supported_string_escape_char c =
    c == b'n' || c == b'r' || c == b't' || c == b'\\' || c == b'"' || c == b'0'

unfoldable pub is_supported_char_escape_char : ℕ → Bool
is_supported_char_escape_char c =
    c == b'n' || c == b'r' || c == b't' || c == b'\\' || c == b'\'' || c == b'0'
