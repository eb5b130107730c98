-- ===== src/Semantic/TypeName/Reading.antt =====
-- A reader of the names that `typeName` of compiler/src/semantic/SemanticTypeName.cpp writes. It
-- knows the names of the primitive types from the analyzer's table, and stops at the first byte
-- behind the type.
use kai_cc.Base.{
  ℕ, zero, suc, ◌+◌, ◌-◌, ◌*◌, ◌==◌, Option, none, some, List, [], ◌∷◌, Bytes, codes, if◌then◌else◌,
}
use kai_cc.Lexer.Chars.{is_digit, is_identifier_continue}
use kai_cc.Semantic.Analyzer.TypeNames.{primitive_names, primitive_in}
use kai_cc.Semantic.Shapes.{Shape}
use kai_cc.Semantic.Types.{ValueType, TypeKind}

-- The longest run of letters, digits and underscores, and what stands behind it.
unfoldable pub read_word : Bytes → Bytes × Bytes
read_word [] = ([], [])
read_word (c ∷ cs) =
    let more = read_word cs in
    if is_identifier_continue c then (c ∷ more.0, more.1) else ([], c ∷ cs)

abbrev pub plain_names : List (Bytes × TypeKind)
plain_names = (codes "unit", TypeKind.unit) ∷ primitive_names

abbrev pub plain_shape : Option ValueType → Bytes → Option (Shape × Bytes)
plain_shape none rest = none
plain_shape (some t) rest = some (Shape.plain t.kind, rest)

unfoldable pub read_plain : Bytes → Option (Shape × Bytes)
read_plain bs = let word = read_word bs in plain_shape (primitive_in plain_names word.0) word.1

-- The value of the digits, behind those whose value is `n`.
unfoldable pub read_number : ℕ → Bytes → ℕ × Bytes
read_number n [] = (n, [])
read_number n (c ∷ cs) =
    let more = read_number (n * 10 + (c - b'0')) cs in if is_digit c then more else (n, c ∷ cs)

-- One byte that must be the next.
unfoldable pub expect : ℕ → Bytes → Option Bytes
expect b [] = none
expect b (c ∷ cs) = if c == b then some cs else none

abbrev pub array_shape : Shape → ℕ → Option Bytes → Option (Shape × Bytes)
array_shape s n none = none
array_shape s n (some rest) = some (Shape.array s n, rest)

-- A length has at least one digit.
unfoldable pub read_length : Shape → Option Bytes → Option (Shape × Bytes)
read_length s none = none
read_length s (some []) = none
read_length s (some (c ∷ cs)) =
    let number = read_number 0 (c ∷ cs) in
    if is_digit c then array_shape s number.0 (expect b']' number.1) else none

-- Behind the element: the bracket of a slice, or the length of an array.
unfoldable pub read_rest : Option (Shape × Bytes) → Option (Shape × Bytes)
read_rest none = none
read_rest (some (s, [])) = none
read_rest (some (s, c ∷ cs)) =
    if c == b']'
    then some (Shape.slice s, cs)
    else if c == b';'
    then read_length s (expect b' ' cs)
    else none

-- Fuel for each level of brackets.
unfoldable pub read_shape : ℕ → Bytes → Option (Shape × Bytes)
read_shape zero bs = none
read_shape (suc fuel) [] = none
read_shape (suc fuel) (c ∷ cs) =
    let element = read_shape fuel cs in if c == b'[' then read_rest element else read_plain (c ∷ cs)
