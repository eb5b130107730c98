-- ===== src/Lexer/Keywords.antt =====
-- The table `kKeywords` of `Lexer::scanIdentifierOrKeyword`, and the search in it.
use kai_cc.Base.{Bool, true, false, ◌&&◌, Bytes, List, [], ◌∷◌, codes, ◌==◌, if◌then◌else◌}
use kai_cc.Token.{TokenKind}

-- `lexeme == text`.
unfoldable pub equal : Bytes → Bytes → Bool
equal [] [] = true
equal (x ∷ xs) (y ∷ ys) = x == y && equal xs ys
equal _ _ = false

abbrev pub keywords : List (Bytes × TokenKind)
keywords =
    (codes "fn", TokenKind.kw_fn)
    ∷ (codes "let", TokenKind.kw_let)
    ∷ (codes "mut", TokenKind.kw_mut)
    ∷ (codes "return", TokenKind.kw_return)
    ∷ (codes "if", TokenKind.kw_if)
    ∷ (codes "else", TokenKind.kw_else)
    ∷ (codes "while", TokenKind.kw_while)
    ∷ (codes "for", TokenKind.kw_for)
    ∷ (codes "in", TokenKind.kw_in)
    ∷ (codes "struct", TokenKind.kw_struct)
    ∷ (codes "enum", TokenKind.kw_enum)
    ∷ (codes "use", TokenKind.kw_use)
    ∷ (codes "pub", TokenKind.kw_pub)
    ∷ (codes "as", TokenKind.kw_as)
    ∷ (codes "true", TokenKind.kw_true)
    ∷ (codes "false", TokenKind.kw_false)
    ∷ []

unfoldable pub keyword_or_identifier : List (Bytes × TokenKind) → Bytes → TokenKind
unfolding equal
keyword_or_identifier [] lexeme = TokenKind.identifier
keyword_or_identifier ((text, kind) ∷ table) lexeme =
    if equal lexeme text then kind else keyword_or_identifier table lexeme
