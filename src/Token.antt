-- ===== src/Token.antt =====
-- compiler/include/kai/lexer/TokenKind.hpp and Token.hpp, and `tokenKindName`.
use Prim.Native.String.{String}
use kai_cc.Base.{
  ℕ, Bool, true, false, ◌≢◌, ◌⊎◌, inl, inr, Bool-cases, List, [], ◌∷◌, ◌≡◌, refl, ◌∙◌, sym, ap,
  ◌==◌, ==_iff, get_or,
}
use kai_cc.Source.Location.{SourceSpan}

pub data TokenKind : Type 0 where
  end_of_file invalid newline identifier integer_literal float_literal : TokenKind
  string_literal char_literal kw_fn kw_let kw_mut kw_return : TokenKind
  kw_if kw_else kw_while kw_for kw_in kw_struct : TokenKind
  kw_enum kw_use kw_pub kw_as kw_true kw_false : TokenKind
  plus minus star slash percent equal : TokenKind
  equal_equal bang_equal less less_equal greater greater_equal : TokenKind
  amp_amp pipe_pipe bang amp arrow dot_dot : TokenKind
  question left_paren right_paren left_brace right_brace left_bracket : TokenKind
  right_bracket comma colon semicolon dot : TokenKind

-- The enumerator's value, of the underlying type `uint8_t`.
unfoldable pub value : TokenKind → ℕ
value TokenKind.end_of_file = 0
value TokenKind.invalid = 1
value TokenKind.newline = 2
value TokenKind.identifier = 3
value TokenKind.integer_literal = 4
value TokenKind.float_literal = 5
value TokenKind.string_literal = 6
value TokenKind.char_literal = 7
value TokenKind.kw_fn = 8
value TokenKind.kw_let = 9
value TokenKind.kw_mut = 10
value TokenKind.kw_return = 11
value TokenKind.kw_if = 12
value TokenKind.kw_else = 13
value TokenKind.kw_while = 14
value TokenKind.kw_for = 15
value TokenKind.kw_in = 16
value TokenKind.kw_struct = 17
value TokenKind.kw_enum = 18
value TokenKind.kw_use = 19
value TokenKind.kw_pub = 20
value TokenKind.kw_as = 21
value TokenKind.kw_true = 22
value TokenKind.kw_false = 23
value TokenKind.plus = 24
value TokenKind.minus = 25
value TokenKind.star = 26
value TokenKind.slash = 27
value TokenKind.percent = 28
value TokenKind.equal = 29
value TokenKind.equal_equal = 30
value TokenKind.bang_equal = 31
value TokenKind.less = 32
value TokenKind.less_equal = 33
value TokenKind.greater = 34
value TokenKind.greater_equal = 35
value TokenKind.amp_amp = 36
value TokenKind.pipe_pipe = 37
value TokenKind.bang = 38
value TokenKind.amp = 39
value TokenKind.arrow = 40
value TokenKind.dot_dot = 41
value TokenKind.question = 42
value TokenKind.left_paren = 43
value TokenKind.right_paren = 44
value TokenKind.left_brace = 45
value TokenKind.right_brace = 46
value TokenKind.left_bracket = 47
value TokenKind.right_bracket = 48
value TokenKind.comma = 49
value TokenKind.colon = 50
value TokenKind.semicolon = 51
value TokenKind.dot = 52

-- In the order of declaration.
abbrev kinds : List TokenKind
kinds =
    TokenKind.end_of_file ∷ TokenKind.invalid ∷ TokenKind.newline ∷ TokenKind.identifier
    ∷ TokenKind.integer_literal ∷ TokenKind.float_literal ∷ TokenKind.string_literal
    ∷ TokenKind.char_literal ∷ TokenKind.kw_fn ∷ TokenKind.kw_let ∷ TokenKind.kw_mut
    ∷ TokenKind.kw_return ∷ TokenKind.kw_if ∷ TokenKind.kw_else ∷ TokenKind.kw_while
    ∷ TokenKind.kw_for ∷ TokenKind.kw_in ∷ TokenKind.kw_struct ∷ TokenKind.kw_enum
    ∷ TokenKind.kw_use ∷ TokenKind.kw_pub ∷ TokenKind.kw_as ∷ TokenKind.kw_true ∷ TokenKind.kw_false
    ∷ TokenKind.plus ∷ TokenKind.minus ∷ TokenKind.star ∷ TokenKind.slash ∷ TokenKind.percent
    ∷ TokenKind.equal ∷ TokenKind.equal_equal ∷ TokenKind.bang_equal ∷ TokenKind.less
    ∷ TokenKind.less_equal ∷ TokenKind.greater ∷ TokenKind.greater_equal ∷ TokenKind.amp_amp
    ∷ TokenKind.pipe_pipe ∷ TokenKind.bang ∷ TokenKind.amp ∷ TokenKind.arrow ∷ TokenKind.dot_dot
    ∷ TokenKind.question ∷ TokenKind.left_paren ∷ TokenKind.right_paren ∷ TokenKind.left_brace
    ∷ TokenKind.right_brace ∷ TokenKind.left_bracket ∷ TokenKind.right_bracket ∷ TokenKind.comma
    ∷ TokenKind.colon ∷ TokenKind.semicolon ∷ TokenKind.dot ∷ []

infix 50 ◌is_kind◌
abbrev pub ◌is_kind◌ : TokenKind → TokenKind → Bool
a is_kind b = value a == value b

get_or-value : (k : TokenKind) → get_or kinds (value k) TokenKind.invalid ≡ k
unfolding value
get_or-value TokenKind.end_of_file = refl
get_or-value _ = refl

value-injective : {a b : TokenKind} → value a ≡ value b → a ≡ b
value-injective {a} {b} e =
    sym (get_or-value a) ∙ ap (λ n. get_or kinds n TokenKind.invalid) e ∙ get_or-value b

pub is_kind→eq : (a b : TokenKind) → (a is_kind b) ≡ true → a ≡ b
is_kind→eq a b h = value-injective ((==_iff (value a) (value b)).0 h)

pub is_kind-cases :
    (a b : TokenKind) → ((a ≡ b) × ((a is_kind b) ≡ true)) ⊎ ((a ≢ b) × ((a is_kind b) ≡ false))
is_kind-cases a b = elim (Bool-cases (a is_kind b)) [
  | inl e ↦ inl (is_kind→eq a b e, e)
  | inr ne ↦ inr (λ e. cc (sym ne ∙ (==_iff (value a) (value b)).1 (ap value e)), ne)
]

unfoldable pub token_kind_name : TokenKind → String
token_kind_name TokenKind.end_of_file = "EndOfFile"
token_kind_name TokenKind.invalid = "Invalid"
token_kind_name TokenKind.newline = "Newline"
token_kind_name TokenKind.identifier = "Identifier"
token_kind_name TokenKind.integer_literal = "IntegerLiteral"
token_kind_name TokenKind.float_literal = "FloatLiteral"
token_kind_name TokenKind.string_literal = "StringLiteral"
token_kind_name TokenKind.char_literal = "CharLiteral"
token_kind_name TokenKind.kw_fn = "KwFn"
token_kind_name TokenKind.kw_let = "KwLet"
token_kind_name TokenKind.kw_mut = "KwMut"
token_kind_name TokenKind.kw_return = "KwReturn"
token_kind_name TokenKind.kw_if = "KwIf"
token_kind_name TokenKind.kw_else = "KwElse"
token_kind_name TokenKind.kw_while = "KwWhile"
token_kind_name TokenKind.kw_for = "KwFor"
token_kind_name TokenKind.kw_in = "KwIn"
token_kind_name TokenKind.kw_struct = "KwStruct"
token_kind_name TokenKind.kw_enum = "KwEnum"
token_kind_name TokenKind.kw_use = "KwUse"
token_kind_name TokenKind.kw_pub = "KwPub"
token_kind_name TokenKind.kw_as = "KwAs"
token_kind_name TokenKind.kw_true = "KwTrue"
token_kind_name TokenKind.kw_false = "KwFalse"
token_kind_name TokenKind.plus = "Plus"
token_kind_name TokenKind.minus = "Minus"
token_kind_name TokenKind.star = "Star"
token_kind_name TokenKind.slash = "Slash"
token_kind_name TokenKind.percent = "Percent"
token_kind_name TokenKind.equal = "Equal"
token_kind_name TokenKind.equal_equal = "EqualEqual"
token_kind_name TokenKind.bang_equal = "BangEqual"
token_kind_name TokenKind.less = "Less"
token_kind_name TokenKind.less_equal = "LessEqual"
token_kind_name TokenKind.greater = "Greater"
token_kind_name TokenKind.greater_equal = "GreaterEqual"
token_kind_name TokenKind.amp_amp = "AmpAmp"
token_kind_name TokenKind.pipe_pipe = "PipePipe"
token_kind_name TokenKind.bang = "Bang"
token_kind_name TokenKind.amp = "Amp"
token_kind_name TokenKind.arrow = "Arrow"
token_kind_name TokenKind.dot_dot = "DotDot"
token_kind_name TokenKind.question = "Question"
token_kind_name TokenKind.left_paren = "LeftParen"
token_kind_name TokenKind.right_paren = "RightParen"
token_kind_name TokenKind.left_brace = "LeftBrace"
token_kind_name TokenKind.right_brace = "RightBrace"
token_kind_name TokenKind.left_bracket = "LeftBracket"
token_kind_name TokenKind.right_bracket = "RightBracket"
token_kind_name TokenKind.comma = "Comma"
token_kind_name TokenKind.colon = "Colon"
token_kind_name TokenKind.semicolon = "Semicolon"
token_kind_name TokenKind.dot = "Dot"

pub record Token : Type 0 where
  pub kind : TokenKind
  pub span : SourceSpan
