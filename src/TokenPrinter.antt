-- ===== src/TokenPrinter.antt =====
-- `escapeLexeme` of compiler/src/cli/TokenPrinter.cpp: how `--tokens` writes a token's bytes.
pub mod Escapes
use kai_cc.Base.{
  ℕ, ◌/◌, ◌%◌, ◌&&◌, List, [], ◌∷◌, ◌++◌, Bytes, codes, get_or, leb, ◌==◌, if◌then◌else◌,
}

abbrev pub digits : Bytes
digits = codes "0123456789ABCDEF"

-- `nibble & 0xF`.
unfoldable pub to_hex_digit : ℕ → ℕ
to_hex_digit nibble = get_or digits (nibble % 16) 0

-- `byte >> 4` is `byte / 16`.
abbrev pub hex_byte : ℕ → Bytes
hex_byte byte = b'\\' ∷ b'x' ∷ to_hex_digit (byte / 16) ∷ to_hex_digit byte ∷ []

-- One round of the loop.
unfoldable pub escape_byte : ℕ → Bytes
escape_byte c =
    if c == b'\n'
    then b'\\' ∷ b'n' ∷ []
    else if c == b'\r'
    then b'\\' ∷ b'r' ∷ []
    else if c == b'\t'
    then b'\\' ∷ b't' ∷ []
    else if c == b'\\'
    then b'\\' ∷ b'\\' ∷ []
    else if c == b'"'
    then b'\\' ∷ b'"' ∷ []
    else if leb 32 c && leb c 126
    then c ∷ []
    else hex_byte c

unfoldable pub escape_lexeme : Bytes → Bytes
escape_lexeme [] = []
escape_lexeme (c ∷ cs) = escape_byte c ++ escape_lexeme cs
